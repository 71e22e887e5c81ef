-- ===== src/Client/MessageDispatch/Registry.antt =====
-- The registry of listeners: names are unique in every reachable state.
use cantou.Common.{
  ◌⊎◌, Bool, ◌≡◌, refl, sym, false, [], ◌∷◌, ◌++◌, arith, Bytes, equal, equal-false_sym, equal_refl,
  some, none, inl, inr, Bool-cases, Option-cases, if◌then◌else◌, any,
}
use cantou.Client.MessageDispatch.{RegisteredListener, MessageDispatcher, add, remove}

abbrev pub has_name : Bytes → MessageDispatcher → Bool
has_name name cs = any (λ (c : RegisteredListener). equal c.name name) cs

-- Add registers at the end, exactly if the name is free.
pub add_lem :
    (l : RegisteredListener) (cs : MessageDispatcher)
    → add l cs ≡ (if has_name l.name cs then none else some (cs ++ (l ∷ [])))
unfolding add
add_lem l [] = refl
add_lem l (c ∷ cs) = elim (Bool-cases (equal c.name l.name)) [
  | inl e ↦ ground (arith, e)
  | inr e ↦ elim (Bool-cases (has_name l.name cs)) [
    | inl k ↦ ground (arith, e, k, add_lem l cs)
    | inr k ↦ ground (arith, e, k, add_lem l cs)
  ]
]

remove-snoc :
    (l : RegisteredListener) (cs : MessageDispatcher)
    → has_name l.name cs ≡ false
    → remove l.name (cs ++ (l ∷ [])) ≡ some cs
unfolding remove
remove-snoc l [] h = ground (arith, equal_refl l.name)
remove-snoc l (c ∷ cs) h = ground (arith, h, remove-snoc l cs)

-- After a successful Add, removing the name that was registered gives the dispatcher from
-- before.
pub remove-add :
    (l : RegisteredListener) (cs cs' : MessageDispatcher)
    → add l cs ≡ some cs'
    → remove l.name cs' ≡ some cs
remove-add l cs cs' h = elim (Bool-cases (has_name l.name cs)) [
  | inl taken ↦ absurd (ground (arith, add_lem l cs, taken, h))
  | inr free ↦
      let added : cs ++ (l ∷ []) ≡ cs' = ground (arith, add_lem l cs, free, h) in
      rw (sym added) (remove-snoc l cs free)
]

abbrev pub Distinct : MessageDispatcher → Type 0
Distinct [] = Unit
Distinct (c ∷ cs) = (has_name c.name cs ≡ false) × Distinct cs

pub has_name-snoc :
    (n : Bytes) (cs : MessageDispatcher) (l : RegisteredListener)
    → has_name n cs ≡ false
    → equal l.name n ≡ false
    → has_name n (cs ++ (l ∷ [])) ≡ false
has_name-snoc n [] l h e = ground (arith, e)
has_name-snoc n (c ∷ cs) l h e = ground (arith, h, has_name-snoc n cs l)

snoc-Distinct :
    (cs : MessageDispatcher) (l : RegisteredListener)
    → Distinct cs
    → has_name l.name cs ≡ false
    → Distinct (cs ++ (l ∷ []))
snoc-Distinct [] l d h = (refl, tt)
snoc-Distinct (c ∷ cs) l (h, d) free = (
  has_name-snoc c.name cs l h (equal-false_sym c.name l.name (ground (arith, free))),
  snoc-Distinct cs l d (ground (arith, free)),
)

-- A successful Remove deletes the first listener, or one behind it.
pub remove_cases :
    (name : Bytes) (c : RegisteredListener) (cs cs' : MessageDispatcher)
    → remove name (c ∷ cs) ≡ some cs'
    → (cs ≡ cs') ⊎ ((rest : MessageDispatcher) × ((remove name cs ≡ some rest) × (c ∷ rest ≡ cs')))
unfolding remove
remove_cases name c cs cs' e = elim (Bool-cases (equal c.name name)) [
  | inl here ↦ inl (ground (arith, here, e))
  | inr there ↦ elim (Option-cases (remove name cs)) [
    | inl missing ↦ absurd (ground (arith, there, missing, e))
    | inr (rest, found) ↦ inr (rest, (found, ground (arith, there, found, e)))
  ]
]

has_name-remove :
    (n name : Bytes) (cs cs' : MessageDispatcher)
    → remove name cs ≡ some cs'
    → has_name n cs ≡ false
    → has_name n cs' ≡ false
unfolding remove
has_name-remove n name [] cs' e h = absurd (ground (arith, e))
has_name-remove n name (c ∷ cs) cs' e h = elim (remove_cases name c cs cs' e) [
  | inl same ↦ rw (sym same) (ground (arith, h))
  | inr (rest, (found, same)) ↦
      rw (sym same) (ground (arith, h, has_name-remove n name cs rest found))
]

pub remove-Distinct :
    (name : Bytes) (cs cs' : MessageDispatcher)
    → remove name cs ≡ some cs'
    → Distinct cs
    → Distinct cs'
unfolding remove
remove-Distinct name [] cs' e d = absurd (ground (arith, e))
remove-Distinct name (c ∷ cs) cs' e (h, d) = elim (remove_cases name c cs cs' e) [
  | inl same ↦ rw (sym same) d
  | inr (rest, (found, same)) ↦
      rw (sym same)
        (has_name-remove c.name name cs rest found h, remove-Distinct name cs rest found d)
]

pub add-Distinct :
    (l : RegisteredListener) (cs cs' : MessageDispatcher)
    → add l cs ≡ some cs'
    → Distinct cs
    → Distinct cs'
add-Distinct l cs cs' h d = elim (Bool-cases (has_name l.name cs)) [
  | inl taken ↦ absurd (ground (arith, add_lem l cs, taken, h))
  | inr free ↦
      let added : cs ++ (l ∷ []) ≡ cs' = ground (arith, add_lem l cs, free, h) in
      rw (sym added) (snoc-Distinct cs l d free)
]
