-- ===== src/Graph/Finish/Receipt.antt =====
-- What require_receipt asks of the receipt of an approval.
use argus_review.Prelude.{
  ◌≤◌, String, ◌≡◌, refl, ◌⊎◌, inl, inr, true, false, not, ◌&&◌, Option, none, some, length, ltb,
  arith, ◌==◌, eq_iff, Bool-cases,
}
use argus_review.Prelude.Result.{ok, err}
use argus_review.Models.{ScopeReceipt}
use argus_review.Scope.{require_receipt, is_set}

-- A receipt for this head, of at most one behavior or with a human override.
pub record Covered (scope : Option ScopeReceipt) (sha : String) : Type 0 where
  pub receipt : ScopeReceipt
  pub stored : scope ≡ some receipt
  pub pinned : receipt.head_sha ≡ sha
  pub narrow : (length receipt.behaviors ≤ 1) ⊎ (is_set receipt.override_reason ≡ true)

pub Covered-iff :
    (s : ScopeReceipt) (sha : String)
    → Covered (some s) sha
    → (s.head_sha ≡ sha) × ((ltb 1 (length s.behaviors) && not (is_set s.override_reason)) ≡ false)
Covered-iff s sha c =
    let same : s ≡ c.receipt = (let e = c.stored in cc) in
    (
      rw same c.pinned,
      rw same (elim c.narrow [ inl few ↦ ground arith | inr set ↦ rw set (ground arith) ]),
    )

pub require_receipt_cases :
    (scope : Option ScopeReceipt) (sha : String)
    → ((require_receipt scope sha ≡ ok tt) × Covered scope sha)
      ⊎ ((message : String) × (require_receipt scope sha ≡ err message) × ¬ Covered scope sha)
unfolding require_receipt
require_receipt_cases none sha = inr (_, refl, λ c. (let e = c.stored in cc))
require_receipt_cases (some scope) sha = elim (Bool-cases (scope.head_sha == sha)) [
  | inr other ↦ inr (
    "refusing APPROVE: scope receipt missing or not pinned to the head",
    rw other refl,
    λ c. (let e = (Covered-iff scope sha c).0 in let same = (eq_iff scope.head_sha sha).1 e in cc),
  )
  | inl same ↦
      elim (Bool-cases (ltb 1 (length scope.behaviors) && not (is_set scope.override_reason))) [
        | inl wide ↦ inr (
          "refusing APPROVE: multi-behavior scope without a human override",
          rw (same, wide) refl,
          λ c. (let e = (Covered-iff scope sha c).1 in cc),
        )
        | inr fits ↦ inl (
          rw (same, fits) refl,
          record {
            receipt = scope;
            stored = refl;
            pinned = (eq_iff scope.head_sha sha).0 same;
            narrow = elim (Bool-cases (is_set scope.override_reason)) [
              | inl set ↦ inr set
              | inr unset ↦ inl (ground arith)
            ];
          },
        )
      ]
]
