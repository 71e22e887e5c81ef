-- ===== src/Client/Filters/Sets.antt =====
-- The answer of a set of filters does not depend on the order in which Go ranges over it, and no
-- two filters of a set have the same name.
use mathlib.Core.Bool.{Bool-set}
use mathlib.Core.Logic.{∥∥₁_elim}
use mathlib.Core.List.{Perm, Permᴰ}
use cantou.Common.{
  ◌≡◌, refl, ap, ◌∙◌, sym, Bool, true, false, ◌||◌, List, [], ◌∷◌, arith, any, Bytes, equal,
  equal_iff, equal-false_sym, Option, some, none, inl, inr, Bool-cases, Option-cases,
}
use cantou.Models.{CanMessageTimestamped}
use cantou.Client.Filters.{
  FilterInterface, FilterSet, should_filter, has, add, put, from_inputs, new_filter_set_from_inputs,
}

-- `any` looks at the elements, not at their order.
any-Permᴰ {ℓ} : {A : Type ℓ} (p : A → Bool) {xs ys : List A} → Permᴰ xs ys → any p xs ≡ any p ys
any-Permᴰ p Permᴰ.nil = refl
any-Permᴰ p (Permᴰ.cons e d) = ground (arith, ap p e, any-Permᴰ p d)
any-Permᴰ p (Permᴰ.swap e f) = ground (arith, ap p e, ap p f)
any-Permᴰ p (Permᴰ.trans d e) = any-Permᴰ p d ∙ any-Permᴰ p e

any-Perm {ℓ} : {A : Type ℓ} (p : A → Bool) {xs ys : List A} → Perm xs ys → any p xs ≡ any p ys
any-Perm p d = ∥∥₁_elim d (Bool-set _ _) (any-Permᴰ p)

abbrev panics : CanMessageTimestamped → Bytes × FilterInterface → Bool
panics m e = elim (e.1 m) [ none ↦ true | some b ↦ false ]

abbrev rejects : CanMessageTimestamped → Bytes × FilterInterface → Bool
rejects m e = elim (e.1 m) [ none ↦ false | some b ↦ b ]

-- Whether a frame is filtered out, whichever filter does it.
abbrev pub decision : Option (Option Bytes) → Option Bool
decision none = none
decision (some none) = some false
decision (some (some name)) = some true

decision-should_filter :
    (fs : FilterSet) (m : CanMessageTimestamped)
    → any (panics m) fs ≡ false
    → decision (should_filter fs m) ≡ some (any (rejects m) fs)
unfolding should_filter
decision-should_filter [] m h = refl
decision-should_filter ((name, f) ∷ fs) m h = elim (Option-cases (f m)) [
  | inl e ↦ absurd (ground (arith, e, h))
  | inr (true, e) ↦ ground (arith, e)
  | inr (false, e) ↦ ground (arith, e, h, decision-should_filter fs m)
]

-- If no filter of a set panics on a frame, whether the frame is filtered out is the same in
-- whatever order the filters are tried.
pub should_filter-Perm :
    (fs gs : FilterSet) (m : CanMessageTimestamped)
    → Perm fs gs
    → any (panics m) fs ≡ false
    → decision (should_filter fs m) ≡ decision (should_filter gs m)
should_filter-Perm fs gs m d h =
    decision-should_filter fs m h
    ∙ ap some (any-Perm (rejects m) d)
    ∙ sym (decision-should_filter gs m (sym (any-Perm (panics m) d) ∙ h))

-- No name stands twice.
abbrev pub Distinct : FilterSet → Type 0
Distinct [] = Unit
Distinct ((name, f) ∷ fs) = (has fs name ≡ false) × Distinct fs

has-put :
    (fs : FilterSet) (name : Bytes) (f : FilterInterface) (n : Bytes)
    → has (put fs name f) n ≡ (has fs n || equal name n)
unfolding has put
has-put [] name f n = ground arith
has-put ((k, g) ∷ fs) name f n = elim (Bool-cases (equal k name)) [
  | inl e ↦ ground (arith, e, ap (λ x. equal x n) ((equal_iff k name).0 e))
  | inr e ↦ ground (arith, e, has-put fs name f n)
]

put-Distinct :
    (fs : FilterSet) (name : Bytes) (f : FilterInterface) → Distinct fs → Distinct (put fs name f)
unfolding has put
put-Distinct [] name f h = (refl, tt)
put-Distinct ((k, g) ∷ fs) name f (h, hs) = elim (Bool-cases (equal k name)) [
  | inl e ↦ rw e (h, hs)
  | inr e ↦
      rw e (
        ground (arith, has-put fs name f k, h, equal-false_sym k name e),
        put-Distinct fs name f hs,
      )
]

from_inputs-Distinct :
    (inputs : List (Bytes × FilterInterface)) (fs : FilterSet)
    → Distinct fs
    → Distinct (from_inputs fs inputs)
unfolding from_inputs
from_inputs-Distinct [] fs h = h
from_inputs-Distinct ((name, f) ∷ inputs) fs h =
    from_inputs-Distinct inputs (put fs name f) (put-Distinct fs name f h)

-- A set that is filled from inputs, which may repeat names, and by a successful Add has no name
-- twice.
pub built-Distinct :
    (inputs : List (Bytes × FilterInterface)) (name : Bytes) (f : FilterInterface) (fs : FilterSet)
    → add (new_filter_set_from_inputs inputs) name f ≡ some fs
    → Distinct fs
unfolding add
built-Distinct inputs name f fs h = elim (Bool-cases (has (from_inputs [] inputs) name)) [
  | inl taken ↦ absurd (ground (arith, taken, h))
  | inr free ↦
      let same : (name, f) ∷ from_inputs [] inputs ≡ fs = ground (arith, free, h) in
      rw (sym same) (free, from_inputs-Distinct inputs [] tt)
]
