-- ===== src/Mf4/Outcome.antt =====
-- What a call that reads a file comes back with.
use cantou.Common.{
  ℕ, ◌-◌, Bytes, Option, none, some, List, leb, if◌then◌else◌, take, drop, length, get_elem?,
}

-- `err` is a returned error, `panic` a run-time panic; `running` says that the fuel of the model
-- was used up, which stands for a call that has not returned yet.
pub data Outcome {ℓ} (A : Type ℓ) : Type ℓ where
  ok : A → Outcome A
  err panic running : Outcome A

infixl 5 ◌>>=◌
abbrev pub ◌>>=◌ {ℓ κ} : {A : Type ℓ} {B : Type κ} → Outcome A → (A → Outcome B) → Outcome B
ok a >>= f = f a
err >>= f = err
panic >>= f = panic
running >>= f = running

-- An index or a slice out of range panics.
abbrev pub index {ℓ} : {A : Type ℓ} → List A → ℕ → Outcome A
index xs i = elim (get_elem? xs i) [ none ↦ panic | some x ↦ ok x ]

abbrev pub slice : Bytes → ℕ → ℕ → Outcome Bytes
slice b lo hi = if leb hi (length b) then ok (take (hi - lo) (drop lo b)) else panic

abbrev pub or_error {ℓ} : {A : Type ℓ} → Option A → Outcome A
or_error none = err
or_error (some a) = ok a
