-- ===== src/Examples/FilesRuns.antt =====
-- Runs of the file lists and of the routing signal over answers of the API.
use argus_review.Prelude.{String, ◌≡◌, ◌<◌, ◌≤◌, ◌⊎◌, length, refl, none, some, List, [], ◌∷◌}
use argus_review.Prelude.Result.{ok, err}
use argus_review.Examples.{base_sha, head_sha}
use argus_review.Scope.Input.{ChangedFile}
use argus_review.Github.{api_error}
use argus_review.Github.Files.{
  Listed, missing, null, text, not_object, object, Shown, CheckRun, get_checks_signal,
}
use argus_review.Graph.ScopeGate.{scope_unverified, fetch_scope_manifest}
use argus_review.Graph.ScopeGate.Manifest.{compare_with, fetch_scope_manifest-whole}

abbrev listed : List Listed
listed =
    object (some "src/parse.py") none (text "@@ -1 +1 @@") missing
    ∷ not_object
    ∷ object (some "logo.png") (some "added") null missing
    ∷ []

fetch_scope_manifest-whole_example :
    let manifest =
      fetch_scope_manifest
        (compare_with (λ repo base head. ok (some listed)))
        "org/app"
        base_sha
        head_sha in
    ((length listed < 300)
      × (shown : List ChangedFile) × (manifest ≡ ok shown)
      × Shown listed shown)
    ⊎ ((300 ≤ length listed)
        × (manifest
            ≡ err (
                scope_unverified
                  "GitHub file list hit the 300-file cap; PR scope cannot be verified")))
fetch_scope_manifest-whole_example =
    fetch_scope_manifest-whole (λ repo base head. ok (some listed)) "org/app" base_sha head_sha
      listed refl

abbrev finished : String → CheckRun
finished conclusion = record { status = some "completed"; conclusion = some conclusion }

abbrev running : CheckRun
running = record { status = some "in_progress"; conclusion = none }

passing_test : get_checks_signal (ok (finished "success" ∷ finished "skipped" ∷ [])) ≡ ok "passing"
unfolding get_checks_signal
passing_test = refl

failing_test :
    get_checks_signal (ok (finished "success" ∷ finished "timed_out" ∷ [])) ≡ ok "failing"
unfolding get_checks_signal
failing_test = refl

pending_test : get_checks_signal (ok (finished "failure" ∷ running ∷ [])) ≡ ok "pending"
unfolding get_checks_signal
pending_test = refl

unreachable_test : get_checks_signal (err (api_error 502 "bad gateway")) ≡ ok "unknown"
unfolding get_checks_signal
unreachable_test = refl
