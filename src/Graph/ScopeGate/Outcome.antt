-- ===== src/Graph/ScopeGate/Outcome.antt =====
-- The scope gate ends in a receipt that an approval can rest on, or in a halt.
use argus_review.Prelude.{
  String, ◌≡◌, ◌≢◌, refl, ◌∙◌, ◌⊎◌, inl, inr, Bool, true, false, not, ◌&&◌, Option, none, some,
  List, [], length, is_empty, ltb, arith, eq_refl, if◌then◌else◌, Bool-cases,
}
use argus_review.Prelude.Result.{Result, ok, err, ◌>>=◌, reject-eq-ok, >>=-eq-ok}
use argus_review.Prelude.Text.{strip, str_empty, str_take}
use argus_review.Prelude.Names.{dedup}
use argus_review.Models.{ReviewResponse, ScopeReceipt, HaltCode, Verdict, RiskLevel}
use argus_review.Scope.{
  ScopeAssessment, validate_assessment, is_set, require_receipt, halt_response,
}
use argus_review.Scope.Input.{ChangedFile}
use argus_review.Scope.Override.{is_sha40}
use argus_review.Graph.{ReviewState, Config, halt_update, override_reason}
use argus_review.Graph.ScopeGate.{
  Raised, unverified, filenames, pinned_base, whole_listing, validated, check_files,
  fetch_scope_manifest, assess_files, checked_scope, decide, after_check, node_scope_gate,
}

unverified-eq-ok : {A : Type 0} (r : Result String A) {a : A} → unverified r ≡ ok a → r ≡ ok a
unverified-eq-ok (ok a) h = cc
unverified-eq-ok (err e) h = cc

pinned_base-eq-ok :
    (sha : Option String) {base : String}
    → pinned_base sha ≡ ok base
    → (sha ≡ some base) × (is_sha40 base ≡ true)
unfolding pinned_base
pinned_base-eq-ok none e = cc
pinned_base-eq-ok (some sha) e = ground arith

whole_listing-eq-ok :
    (fs : List ChangedFile) (t : Bool) (gs : List ChangedFile)
    → whole_listing (fs, t) ≡ ok gs
    → (t ≡ false) × (fs ≡ gs)
unfolding whole_listing
whole_listing-eq-ok fs true gs e = cc
whole_listing-eq-ok fs false gs e = (refl, cc)

-- A halt: BLOCKING, at HIGH risk, without findings, and marked as a halt.
pub record IsHalt (r : ReviewResponse) : Type 0 where
  pub verdict : r.verdict ≡ Verdict.blocking
  pub risk : r.risk_level ≡ RiskLevel.high
  pub findings : r.findings ≡ []
  pub halted : r.halt ≢ none

halt_update-IsHalt :
    (s : ReviewState) (code : HaltCode) (detail : String) (split : _) (counts : _)
    → (r : ReviewResponse) × ((halt_update s code detail split counts).response ≡ some r) × IsHalt r
unfolding halt_update halt_response
halt_update-IsHalt s code detail split counts =
    (_, refl, record { verdict = refl; risk = refl; findings = refl; halted = λ e. cc })

module _ (compare_files : String → String → String → Result Raised (List ChangedFile × Bool))
    (assess : String → Result Raised ScopeAssessment) where
  -- The whole listing between the pinned base and the head, and an assessment valid for it.
  pub record Verified (state : ReviewState) (base : String) (a : ScopeAssessment) : Type 0 where
    pub pinned : state.scope_base_sha ≡ some base
    pub full_sha : is_sha40 base ≡ true
    pub files : List ChangedFile
    pub listed : compare_files state.request.repo base state.head_sha ≡ ok (files, false)
    pub valid : validate_assessment a (dedup (filenames files)) ≡ ok tt

  checked_scope-Verified :
      (state : ReviewState) {base : String} {a : ScopeAssessment}
      → checked_scope compare_files assess state ≡ ok (base, a)
      → Verified state base a
  unfolding checked_scope fetch_scope_manifest check_files validated
  checked_scope-Verified state {base} {a} e0 =
      let repo = state.request.repo in
      let (base', pinned, e1) = >>=-eq-ok (pinned_base state.scope_base_sha) _ e0 in
      let (files, fetched, e2) =
        >>=-eq-ok (fetch_scope_manifest compare_files repo base' state.head_sha)
          (check_files assess state base') e1 in
      let ((files', truncated), listed, whole) =
        >>=-eq-ok (compare_files repo base' state.head_sha) whole_listing fetched in
      let manifest = dedup (filenames files) in
      let (consistent, e3) =
        reject-eq-ok (is_empty manifest && not (str_empty (strip state.diff))) _
          (assess_files assess files manifest state.description >>= validated base' manifest) e2 in
      let (a', assessed, e4) =
        >>=-eq-ok (assess_files assess files manifest state.description) (validated base' manifest)
          e3 in
      let (u, valid, same) = >>=-eq-ok (unverified (validate_assessment a' manifest)) _ e4 in
      let same_base : base' ≡ base = ground arith in
      let same_a : a' ≡ a = ground arith in
      let whole_files : (truncated ≡ false) × (files' ≡ files) = whole_listing-eq-ok _ _ _ whole in
      let (pin, full) = pinned_base-eq-ok state.scope_base_sha pinned in
      record {
        pinned = rw (← same_base) pin;
        full_sha = rw (← same_base) full;
        files = files;
        listed = rw (← same_base, ← whole_files.1) (listed ∙ ap_ok whole_files.0);
        valid = rw (← same_a) (unverified-eq-ok _ valid);
      }
    where
      ap_ok :
          {fs : List ChangedFile} {t : Bool}
          → t ≡ false
          → ◌≡◌ {A = Result Raised (List ChangedFile × Bool)} (ok (fs, t)) (ok (fs, false))
      ap_ok e = rw e

pub record Halted (state out : ReviewState) : Type 0 where
  pub response : ReviewResponse
  pub ends : out.response ≡ some response
  pub halt : IsHalt response
  pub no_receipt : out.scope ≡ state.scope

pub halt_update-Halted :
    (s : ReviewState) (code : HaltCode) (detail : String) (split : _) (counts : _)
    → Halted s (halt_update s code detail split counts)
halt_update-Halted s code detail split counts =
    let (r, e, h) = halt_update-IsHalt s code detail split counts in
    record { response = r; ends = e; halt = h; no_receipt = unfold halt_update in refl }

module _ (compare_files : String → String → String → Result Raised (List ChangedFile × Bool))
    (assess : String → Result Raised ScopeAssessment) where
  -- A receipt pinned to the head, for the behaviors of an assessment valid for the whole pull
  -- request, that `require_receipt` accepts; the run goes on.
  pub record Receipted (state out : ReviewState) : Type 0 where
    pub receipt : ScopeReceipt
    pub assessment : ScopeAssessment
    pub stored : out.scope ≡ some receipt
    pub verified : Verified compare_files assess state receipt.base_sha assessment
    pub same : receipt.behaviors ≡ assessment.behaviors
    pub accepted : require_receipt (some receipt) state.head_sha ≡ ok tt
    pub goes_on : out.response ≡ state.response

  decide_outcome :
      (state : ReviewState) (config : Config) (base : String) (a : ScopeAssessment)
      → Verified compare_files assess state base a
      → Halted state (decide state config base a) ⊎ Receipted state (decide state config base a)
  unfolding decide
  decide_outcome state config base a v =
      let many = ltb 1 (length a.behaviors) in
      let override = if many then override_reason state config else none in
      elim (Bool-cases (many && not (is_set override))) [
        | inl split ↦ inl (rw split (halt_update-Halted state _ _ _ _))
        | inr one ↦ inr (
            rw one (record {
              receipt = record {
                base_sha = base;
                head_sha = state.head_sha;
                behaviors = a.behaviors;
                rationale = str_take 1000 a.rationale;
                override_reason = override;
              };
              assessment = a;
              stored = refl;
              verified = v;
              same = refl;
              accepted = unfold require_receipt in rw (eq_refl, one);
              goes_on = refl;
            }))
      ]

  -- Whatever GitHub and the model answer, the scope gate either halts the run, with a BLOCKING
  -- response at HIGH risk that has no findings, or stores a receipt that an approval of this head
  -- may rest on: pinned to the head and to the full pinned merge base, for behaviors that the
  -- checks accepted for the untruncated file list between the two.
  pub node_scope_gate_outcome :
      (state : ReviewState) (config : Config)
      → Halted state (node_scope_gate compare_files assess state config)
        ⊎ Receipted state (node_scope_gate compare_files assess state config)
  unfolding node_scope_gate
  node_scope_gate_outcome state config = go (checked_scope compare_files assess state) refl
    where
      go :
          (m : Result Raised (String × ScopeAssessment))
          → checked_scope compare_files assess state ≡ m
          → Halted state (after_check state config m) ⊎ Receipted state (after_check state config m)
      go (err raised) e = inl (halt_update-Halted state _ _ _ _)
      go (ok (base, a)) e =
          decide_outcome state config base a (checked_scope-Verified compare_files assess state e)
