-- ===== src/Gemini/Turns/Protocol.antt =====
-- The conversation that a session holds with its model, and what one turn adds to it.
use mathlib.Core.List.{append_assoc}
use argus_review.Prelude.{
  ℕ, ◌-◌, String, ◌≡◌, refl, sym, ap, ◌∙◌, Bool, true, false, some, List, [], ◌∷◌, ◌++◌, nat_eq,
  is_empty,
}
use argus_review.Gemini.Tools.{Host}
use argus_review.Gemini.Turns.{
  Part, Content, Response, Progress, Session, Service, max_turns, nudge_turns_before_budget,
  mid_budget_nudge_turn, due, with_part, on_last, nudged, prepared,
}
use argus_review.Gemini.Turns.Account.{Accounted, Answers, Counted, Accounted-names}

abbrev pub text_parts : List String → List Part
text_parts [] = []
text_parts (s ∷ ss) = Part.text_part s ∷ text_parts ss

-- A turn of the user: its parts, and the nudges that were added to it.
abbrev pub user : List Part → List String → Content
user parts nudges = record { from_model = false; parts = some (parts ++ text_parts nudges) }

-- The conversation after some responses (both newest first): the opening message; then each turn
-- of the model, as it came, is followed by one turn of the user that answers all its calls.
pub data Conversation (message : String) : List Response → List Content → Type 0 where
  opened :
      (nudges : List String)
      → Conversation message [] (user (Part.text_part message ∷ []) nudges ∷ [])
  exchanged :
      (r : Response) (rs : List Response) (contents : List Content) (parts : List Part)
      (nudges : List String)
      → Conversation message rs contents
      → is_empty r.function_calls ≡ false
      → Answers r.function_calls parts
      → Conversation message (r ∷ rs) (user parts nudges ∷ r.content ∷ contents)

text_parts-append :
    (ss : List String) (t : String)
    → text_parts (ss ++ t ∷ []) ≡ text_parts ss ++ Part.text_part t ∷ []
text_parts-append [] t = refl
text_parts-append (s ∷ ss) t = ap (λ ps. Part.text_part s ∷ ps) (text_parts-append ss t)

with_part-user :
    (t : String) (parts : List Part) (nudges : List String)
    → user parts (nudges ++ t ∷ []) ≡ with_part t (user parts nudges)
with_part-user t parts nudges =
    ap (λ ps. record { from_model = false; parts = some ps })
      (ap (λ ps. parts ++ ps) (text_parts-append nudges t)
        ∙ sym (append_assoc parts (text_parts nudges) (Part.text_part t ∷ [])))

-- A nudge is added to the last turn of the user.
on_last-Conversation :
    (message t : String) (rs : List Response) (contents : List Content)
    → Conversation message rs contents
    → Conversation message rs (on_last (with_part t) contents)
on_last-Conversation message t _ _ (Conversation.opened nudges) =
    rw (← with_part-user t (Part.text_part message ∷ []) nudges)
      (Conversation.opened (nudges ++ t ∷ []))
on_last-Conversation message t _ _
      (Conversation.exchanged r rs contents parts nudges before asks answers) =
    rw (← with_part-user t parts nudges)
      (Conversation.exchanged r rs contents parts (nudges ++ t ∷ []) before asks answers)

-- A session after some responses, of which the model's turns in the conversation are `asked`.
pub record Told (message : String) (before : Progress) (asked rs : List Response) (s : Session)
    : Type 0 where
  pub conversation : Conversation message asked s.contents
  pub account : Accounted before rs s.progress
  pub names : Counted before asked s.progress

module _ (message : String) (before : Progress) where
  nudged-Told :
      (b : Bool) (t : String) (rs : List Response) (s : Session)
      → Told message before rs rs s
      → Told message before rs rs (nudged b t s)
  nudged-Told true t rs s h = record {
    conversation = on_last-Conversation message t rs s.contents h.conversation;
    account = h.account;
    names = h.names;
  }
  nudged-Told false t rs s h = h

  module _ (host : Host) (generate : Service) (budget mid : String) where
    pub prepared-Told :
        (turn : ℕ) (rs : List Response) (s : Session)
        → Told message before rs rs s
        → Told message before rs rs (prepared host generate budget mid turn s)
    prepared-Told turn rs s h = nudged-Told (due (mid_budget_nudge_turn max_turns) turn) mid rs _ (
        nudged-Told (nat_eq turn (max_turns - nudge_turns_before_budget)) budget rs _ (record {
          conversation = h.conversation;
          account =
              Accounted-names before rs s.progress s.progress.tool_calls (some turn) h.account;
          names = h.names;
        }))
