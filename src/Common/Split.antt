-- ===== src/Common/Split.antt =====
-- What the program uses of strings.Split and strings.Join, with a separator of one byte.
use Prim.Native.Nat.{ℕ}
use mathlib.Core.Path.{◌≡◌, refl, ap, ◌∙◌}
use mathlib.Core.Logic.{◌≢◌}
use mathlib.Core.Bool.{false}
use mathlib.Core.Option.{Option, none, some}
use mathlib.Core.List.{List, [], ◌∷◌, ◌++◌}
use cantou.Common.Tests.{◌==◌, ==_refl, if◌then◌else◌}
use cantou.Common.Text.{Bytes}
use cantou.Common.Lists.{All}

abbrev cons_first : ℕ → List Bytes → List Bytes
cons_first c [] = (c ∷ []) ∷ []
cons_first c (p ∷ ps) = (c ∷ p) ∷ ps

-- strings.Split(s, c)
unfoldable pub split_on : ℕ → Bytes → List Bytes
split_on c [] = [] ∷ []
split_on c (b ∷ s) = let rest = split_on c s in if b == c then [] ∷ rest else cons_first b rest

-- strings.Join(parts, c)
abbrev pub join : ℕ → List Bytes → Bytes
join c [] = []
join c (p ∷ []) = p
join c (p ∷ (q ∷ ps)) = p ++ (c ∷ join c (q ∷ ps))

abbrev pub IsFreeOf : ℕ → Bytes → Type 0
IsFreeOf c = All (λ b. (b == c) ≡ false)

pub split_on-separated :
    (c : ℕ) (p s : Bytes) → IsFreeOf c p → split_on c (p ++ (c ∷ s)) ≡ p ∷ split_on c s
unfolding split_on
split_on-separated c [] s h = rw (==_refl c) refl
split_on-separated c (b ∷ p) s (other, free) =
    rw other (ap (cons_first b) (split_on-separated c p s free))

pub split_on-single : (c : ℕ) (p : Bytes) → IsFreeOf c p → split_on c p ≡ p ∷ []
unfolding split_on
split_on-single c [] h = refl
split_on-single c (b ∷ p) (other, free) = rw other (ap (cons_first b) (split_on-single c p free))

pub split_on-join :
    (c : ℕ) (ps : List Bytes) → ps ≢ [] → All (IsFreeOf c) ps → split_on c (join c ps) ≡ ps
split_on-join c [] nonempty h = absurd (nonempty refl)
split_on-join c (p ∷ []) nonempty (free, _) = split_on-single c p free
split_on-join c (p ∷ (q ∷ ps)) nonempty (free, h) =
    split_on-separated c p (join c (q ∷ ps)) free
    ∙ ap (◌∷◌ p) (split_on-join c (q ∷ ps) (λ e. cc e) h)

abbrev onto : ℕ → Option (Bytes × Bytes) → Option (Bytes × Bytes)
onto b none = none
onto b (some (before, after)) = some (b ∷ before, after)

-- strings.SplitN(s, c, 2): the two parts, when there are two.
unfoldable pub cut_at : ℕ → Bytes → Option (Bytes × Bytes)
cut_at c [] = none
cut_at c (b ∷ s) = let rest = cut_at c s in if b == c then some ([], s) else onto b rest

pub cut_at-separated : (c : ℕ) (p s : Bytes) → IsFreeOf c p → cut_at c (p ++ (c ∷ s)) ≡ some (p, s)
unfolding cut_at
cut_at-separated c [] s h = rw (==_refl c) refl
cut_at-separated c (b ∷ p) s (other, free) = rw other (rw (cut_at-separated c p s free) refl)
