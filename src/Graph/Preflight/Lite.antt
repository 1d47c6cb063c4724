-- ===== src/Graph/Preflight/Lite.antt =====
-- The lite path, and the gates before it.
use argus_review.Prelude.{String, ◌≡◌, ◌⊎◌, true, false, List, [], ◌==◌, All}
use argus_review.Pipeline.{FeedbackVerificationItem, VerificationStatus}
use argus_review.Graph.Preflight.Headers.{InHeader}
use argus_review.Scope.{is_set}
use argus_review.Graph.{ReviewState}
use argus_review.Graph.Preflight.{is_high_blast_path, is_image_tag_bump_only, has_prior, items_of}

-- The only changes are an image tag bump, or the round is a catch-up merge after an earlier one.
abbrev pub Exempt : ReviewState → Type 0
Exempt state =
    (is_image_tag_bump_only state.diff ≡ true)
    ⊎ ((state.is_catchup_merge ≡ true) × (has_prior state.prior_review ≡ true))

-- A finding of the prior round that was not BLOCKING, or was found to be resolved.
abbrev pub Settled : FeedbackVerificationItem → Type 0
Settled item =
    ((item.prior_finding.severity == "BLOCKING") ≡ false)
    ⊎ (item.status ≡ VerificationStatus.resolved)

-- What the lite path asks for, in a run whose diff has these lines.
pub record MayBeLite (state : ReviewState) (lines : List String) : Type 0 where
  pub asked : state.is_lite ≡ true
  pub same_bench : state.bench_config_changes ≡ []
  pub bench_confirmed : is_set state.bench_config_unconfirmed ≡ false
  pub narrow :
      ((path : String) → InHeader path lines → is_high_blast_path path ≡ false) ⊎ Exempt state
  pub settled : All Settled (items_of state.verification)
