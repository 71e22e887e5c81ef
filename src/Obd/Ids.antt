-- ===== src/Obd/Ids.antt =====
-- Merging lists of identifiers keeps each once.
use cantou.Common.{
  ℕ, ◌≡◌, refl, sym, ap, ◌∙◌, Bool, true, false, ◌||◌, List, [], ◌∷◌, ◌++◌, any, arith, inl, inr,
  Bool-cases, ◌==◌, ==_iff,
}
use cantou.Obd.{merge_list, merge_lists, merge_unique_ids}

abbrev pub contains_id : ℕ → List ℕ → Bool
contains_id x ids = any (λ i. i == x) ids

abbrev pub Unique : List ℕ → Type 0
Unique [] = Unit
Unique (id ∷ ids) = (contains_id id ids ≡ false) × Unique ids

contains_id-append :
    (x : ℕ) (ids js : List ℕ) → contains_id x (ids ++ js) ≡ (contains_id x ids || contains_id x js)
contains_id-append x [] js = refl
contains_id-append x (i ∷ ids) js = ground (arith, contains_id-append x ids js)

Unique-snoc :
    (ids : List ℕ) (x : ℕ) → Unique ids → contains_id x ids ≡ false → Unique (ids ++ (x ∷ []))
Unique-snoc [] x u h = (refl, tt)
Unique-snoc (i ∷ ids) x (f, u) h = (
  ground (arith, contains_id-append i ids (x ∷ []), f, h),
  Unique-snoc ids x u (ground (arith, h)),
)

-- The map has what the result has.
abbrev Same : List ℕ → List ℕ → Type 0
Same seen out = (x : ℕ) → contains_id x seen ≡ contains_id x out

Same-added : (seen out : List ℕ) (id : ℕ) → Same seen out → Same (id ∷ seen) (out ++ (id ∷ []))
Same-added seen out id s x = ground (arith, s x, contains_id-append x out (id ∷ []))

-- After the inner loop: the map still matches, nothing is twice, and the identifiers are added.
abbrev Merged : List ℕ → List ℕ → List ℕ × List ℕ → Type 0
Merged out ids (seen', out') =
    Same seen' out'
    × (Unique out' × ((x : ℕ) → contains_id x out' ≡ (contains_id x out || contains_id x ids)))

contains_id-same :
    (x y : ℕ) (ids : List ℕ) → (x == y) ≡ true → contains_id x ids ≡ contains_id y ids
contains_id-same x y ids h = ap (λ z. contains_id z ids) ((==_iff x y).0 h)

-- An identifier that is known already adds nothing.
known_adds :
    (id x : ℕ) (later : Bool) (out : List ℕ) {all : Bool}
    → all ≡ (contains_id x out || later)
    → contains_id id out ≡ true
    → all ≡ (contains_id x out || ((id == x) || later))
known_adds id x later out {all} h k = elim (Bool-cases (id == x)) [
  | inl same ↦ ground (arith, h, k, same, contains_id-same id x out same)
  | inr other ↦ ground (arith, h, other)
]

merge_list-nil : (seen out : List ℕ) → merge_list seen out [] ≡ (seen, out)
unfolding merge_list
merge_list-nil seen out = refl

merge_list-known :
    (id : ℕ) (ids seen out : List ℕ)
    → contains_id id seen ≡ true
    → merge_list seen out (id ∷ ids) ≡ merge_list seen out ids
unfolding merge_list
merge_list-known id ids seen out h = rw h refl

merge_list-new :
    (id : ℕ) (ids seen out : List ℕ)
    → contains_id id seen ≡ false
    → merge_list seen out (id ∷ ids) ≡ merge_list (id ∷ seen) (out ++ (id ∷ [])) ids
unfolding merge_list
merge_list-new id ids seen out h = rw h refl

merge_list-Merged :
    (ids seen out : List ℕ) → Same seen out → Unique out → Merged out ids (merge_list seen out ids)
merge_list-Merged [] seen out s u = rw (merge_list-nil seen out) (s, (u, λ x. ground arith))
merge_list-Merged (id ∷ ids) seen out s u = elim (Bool-cases (contains_id id seen)) [
  | inl known ↦ rw (merge_list-known id ids seen out known) (
      let (s', (u', h)) = merge_list-Merged ids seen out s u in
      (s', (u', λ x. known_adds id x (contains_id x ids) out (h x) (sym (s id) ∙ known))))
  | inr new ↦ rw (merge_list-new id ids seen out new) (
      let fresh : contains_id id out ≡ false = sym (s id) ∙ new in
      let (s', (u', h)) =
        merge_list-Merged ids (id ∷ seen) (out ++ (id ∷ [])) (Same-added seen out id s)
          (Unique-snoc out id u fresh) in
      (s', (u', λ x. ground (arith, h x, contains_id-append x out (id ∷ [])))))
]

merge_lists-Merged :
    (lists : List (List ℕ)) (seen out : List ℕ)
    → Same seen out
    → Unique out
    → Unique (merge_lists seen out lists)
      × ((x : ℕ)
          → contains_id x (merge_lists seen out lists)
            ≡ (contains_id x out || any (contains_id x) lists))
unfolding merge_lists
merge_lists-Merged [] seen out s u = (u, λ x. ground arith)
merge_lists-Merged (ids ∷ lists) seen out s u =
    let (s', (u', h)) = merge_list-Merged ids seen out s u in
    let (u'', h') =
      merge_lists-Merged lists (merge_list seen out ids).0 (merge_list seen out ids).1 s' u' in
    (u'', λ x. ground (arith, h x, h' x))

-- The merged list has each identifier once, and has exactly those that one of the lists has.
pub merge_unique_ids-Unique :
    (lists : List (List ℕ))
    → Unique (merge_unique_ids lists)
      × ((x : ℕ) → contains_id x (merge_unique_ids lists) ≡ any (contains_id x) lists)
merge_unique_ids-Unique lists = merge_lists-Merged lists [] [] (λ x. refl) tt
