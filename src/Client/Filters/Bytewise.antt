-- ===== src/Client/Filters/Bytewise.antt =====
-- The filter on data bytes answers for every frame that is long enough, and only for these.
use cantou.Common.{
  zero, suc, ◌⊎◌, inl, inr, ℕ, ◌≡◌, refl, Bool, true, false, not, List, [], ◌∷◌, map, arith,
  if◌then◌else◌, leb, any, all, Bytes, some, none, length, get_elem?, Bool-cases,
}
use cantou.Models.{CanMessageTimestamped}
use cantou.Client.Filters.{
  CanFilterGroupOperator, filter_and, filter_or, ByteTest, compare_byte, filter_values,
  array_contains_bool, combine, data_filter,
}

-- A test on the byte that stands at its index, false where there is none.
unfoldable pub holds : Bytes → ByteTest → Bool
holds bytes f = elim (get_elem? bytes f.byte) [
  | none ↦ false
  | some b ↦ compare_byte f.operator b f.target
]

-- The tests that a group of either kind asks for.
abbrev pub decide : CanFilterGroupOperator → (ByteTest → Bool) → List ByteTest → Bool
decide filter_and p fs = all p fs
decide filter_or p fs = any p fs

contains_true-map :
    (p : ByteTest → Bool) (fs : List ByteTest) → array_contains_bool (map p fs) true ≡ any p fs
unfolding array_contains_bool
contains_true-map p [] = refl
contains_true-map p (f ∷ fs) = elim (Bool-cases (p f)) [
  | inl e ↦ ground (arith, e)
  | inr e ↦ ground (arith, e, contains_true-map p fs)
]

contains_false-map :
    (p : ByteTest → Bool) (fs : List ByteTest)
    → not (array_contains_bool (map p fs) false) ≡ all p fs
unfolding array_contains_bool
contains_false-map p [] = refl
contains_false-map p (f ∷ fs) = elim (Bool-cases (p f)) [
  | inl e ↦ ground (arith, e, contains_false-map p fs)
  | inr e ↦ ground (arith, e)
]

combine-map :
    (operator : CanFilterGroupOperator) (p : ByteTest → Bool) (fs : List ByteTest)
    → combine operator (map p fs) ≡ decide operator p fs
combine-map filter_and p fs = contains_false-map p fs
combine-map filter_or p fs = contains_true-map p fs

get_elem?_cases :
    (xs : Bytes) (i : ℕ)
    → ((leb (length xs) i ≡ true) × (get_elem? xs i ≡ none))
      ⊎ ((b : ℕ) × ((leb (length xs) i ≡ false) × (get_elem? xs i ≡ some b)))
get_elem?_cases [] i = inl (ground arith, refl)
get_elem?_cases (x ∷ xs) zero = inr (x, (ground arith, refl))
get_elem?_cases (x ∷ xs) (suc i) = elim (get_elem?_cases xs i) [
  | inl (h, e) ↦ inl (ground (arith, h), e)
  | inr (b, (h, e)) ↦ inr (b, (ground (arith, h), e))
]

filter_values_lem :
    (fs : List ByteTest) (bytes : Bytes)
    → filter_values fs bytes
      ≡ (if any (λ f. leb (length bytes) f.byte) fs then none else some (map (holds bytes) fs))
unfolding filter_values holds
filter_values_lem [] bytes = refl
filter_values_lem (f ∷ fs) bytes = elim (get_elem?_cases bytes f.byte) [
  | inl (h, e) ↦ rw e (rw h refl)
  | inr (b, (h, e)) ↦ elim (Bool-cases (any (λ g. leb (length bytes) g.byte) fs)) [
    | inl k ↦ ground (arith, e, h, k, filter_values_lem fs bytes)
    | inr k ↦ ground (arith, e, h, k, filter_values_lem fs bytes)
  ]
]

-- A data filter panics exactly if one of its tests names a byte behind the end of the data,
-- also if an earlier test has decided the answer; otherwise it answers whether all of its tests
-- hold, or any of them, as its operator says.
pub data_filter_lem :
    (operator : CanFilterGroupOperator) (fs : List ByteTest) (m : CanMessageTimestamped)
    → data_filter operator fs m ≡ (
        if any (λ f. leb (length m.bytes) f.byte) fs
        then none
        else some (decide operator (holds m.bytes) fs))
unfolding data_filter
data_filter_lem operator fs m = elim (Bool-cases (any (λ f. leb (length m.bytes) f.byte) fs)) [
  | inl k ↦ ground (arith, k, filter_values_lem fs m.bytes)
  | inr k ↦ ground (arith, k, filter_values_lem fs m.bytes, combine-map operator (holds m.bytes) fs)
]
