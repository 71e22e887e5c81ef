-- ===== src/Common/Maps.antt =====
-- Go's maps with integer keys, as association lists: the first entry of a key counts.
use Prim.Native.Nat.{ℕ}
use mathlib.Core.Path.{◌≡◌}
use mathlib.Core.Logic.{◌≢◌, inl, inr}
use mathlib.Core.Bool.{Bool, false}
use mathlib.Core.Option.{Option, none, some}
use mathlib.Core.List.{List, [], ◌∷◌}
use native.Mathlib.Omega.{arith}
use cantou.Common.Tests.{◌==◌, Bool-cases, ==_iff, if◌then◌else◌}

module _ {ℓ} {V : Type ℓ} where
  unfoldable pub find : ℕ → List (ℕ × V) → Option V
  find k [] = none
  find k ((j, v) ∷ m) = if j == k then some v else find k m

  -- `p` says which entries go, as a range loop that deletes some of them.
  unfoldable pub delete_if : (ℕ → V → Bool) → List (ℕ × V) → List (ℕ × V)
  delete_if p [] = []
  delete_if p ((j, v) ∷ m) = let rest = delete_if p m in if p j v then rest else (j, v) ∷ rest

  unfoldable pub insert : ℕ → V → List (ℕ × V) → List (ℕ × V)
  insert k v m = (k, v) ∷ delete_if (λ j u. j == k) m

  pub find-delete_if_kept :
      (p : ℕ → V → Bool) (k : ℕ) (v : V) (m : List (ℕ × V))
      → find k m ≡ some v
      → p k v ≡ false
      → find k (delete_if p m) ≡ some v
  unfolding find delete_if
  find-delete_if_kept p k v [] h e = ground (arith, h)
  find-delete_if_kept p k v ((j, u) ∷ m) h e = elim (Bool-cases (j == k)) [
    | inl same ↦
        let key : j ≡ k = (==_iff j k).0 same in
        let value : u ≡ v = ground (arith, h, same) in
        let kept : p j u ≡ false = rw (key, value) e in ground (arith, kept, same, value)
    | inr other ↦ ground (arith, h, e, other, find-delete_if_kept p k v m)
  ]

  pub find-insert_same : (k : ℕ) (v : V) (m : List (ℕ × V)) → find k (insert k v m) ≡ some v
  unfolding find insert
  find-insert_same k v m = ground arith

  pub find-insert_other :
      (k j : ℕ) (v : V) (m : List (ℕ × V)) {u : V}
      → j ≢ k
      → find k m ≡ some u
      → find k (insert j v m) ≡ some u
  unfolding find insert
  find-insert_other k j v m {u} h e = ground (arith, h, find-delete_if_kept (λ i w. i == j) k u m e)
