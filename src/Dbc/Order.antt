-- ===== src/Dbc/Order.antt =====
-- The order in which a message lists its signals does not matter, if its switches are unambiguous.
use mathlib.Core.Logic.{∥∥₁_elim}
use mathlib.Core.List.{Perm, Permᴰ, Perm-prop}
use mathlib.Core.List.Permᴰ
use cantou.Common.{
  ℕ, ◌+◌, ◌≤◌, ◌≡◌, refl, ap, ◌∙◌, sym, Bool, true, false, Option, none, some, List, [], ◌∷◌, arith,
  Bytes, if◌then◌else◌, Bool-cases, inl, inr,
}
use cantou.Models.{CanMessageTimestamped, CanSignalTimestamped}
use cantou.Dbc.{
  Signal, Message, find_first, is_top, is_nested, included, decode_included, parse_message,
  can_data, nested_under, value_of,
}

-- How many signals satisfy `p`, and which.
abbrev count : (Signal → Bool) → List Signal → ℕ
count p [] = 0
count p (s ∷ ss) = (if p s then 1 else 0) + count p ss

count-Permᴰ : (p : Signal → Bool) {ss ts : List Signal} → Permᴰ ss ts → count p ss ≡ count p ts
count-Permᴰ p Permᴰ.nil = refl
count-Permᴰ p (Permᴰ.cons e d) = ground (arith, ap p e, count-Permᴰ p d)
count-Permᴰ p (Permᴰ.swap e f) = ground (arith, ap p e, ap p f)
count-Permᴰ p (Permᴰ.trans d e) = count-Permᴰ p d ∙ count-Permᴰ p e

find_first-none : (p : Signal → Bool) (ss : List Signal) → count p ss ≡ 0 → find_first p ss ≡ none
unfolding find_first
find_first-none p [] h = refl
find_first-none p (s ∷ ss) h = ground (arith, find_first-none p ss)

find_first-Permᴰ :
    (p : Signal → Bool) {ss ts : List Signal}
    → Permᴰ ss ts
    → count p ss ≤ 1
    → find_first p ss ≡ find_first p ts
unfolding find_first
find_first-Permᴰ p Permᴰ.nil h = refl
find_first-Permᴰ p (Permᴰ.cons e d) h = ground (arith, e, ap p e, find_first-Permᴰ p d)
find_first-Permᴰ p (Permᴰ.swap e f) h = ground (arith, e, f, ap p e, ap p f)
find_first-Permᴰ p (Permᴰ.trans d e) h =
    find_first-Permᴰ p d h ∙ find_first-Permᴰ p e (omega (arith, count-Permᴰ p d))

swap_included {ℓ} :
    {A : Type ℓ} (b c : Bool) (x y : A) (l : List A)
    → Permᴰ
        (if b then x ∷ (if c then y ∷ l else l) else (if c then y ∷ l else l))
        (if c then y ∷ (if b then x ∷ l else l) else (if b then x ∷ l else l))
swap_included true true x y l = Permᴰ.swap refl refl
swap_included true false x y l = Permᴰ.refl (x ∷ l)
swap_included false true x y l = Permᴰ.refl (y ∷ l)
swap_included false false x y l = Permᴰ.refl l

decode_included-Permᴰ :
    (top nested : Option ℕ) (decode : Signal → CanSignalTimestamped) {ss ts : List Signal}
    → Permᴰ ss ts
    → Permᴰ (decode_included top nested decode ss) (decode_included top nested decode ts)
unfolding decode_included
decode_included-Permᴰ top nested decode Permᴰ.nil = Permᴰ.nil
decode_included-Permᴰ top nested decode (Permᴰ.cons {a = s} {b = t} e d) =
    let rest = decode_included-Permᴰ top nested decode d in
    rw (sym e) (elim (Bool-cases (included top nested s)) [
      | inl i ↦ rw i (Permᴰ.cons refl rest)
      | inr o ↦ rw o rest
    ])
decode_included-Permᴰ top nested decode (Permᴰ.swap {a = s} {b = t} {l} e f) =
    rw (sym e, sym f)
      (swap_included (included top nested s) (included top nested t) (decode s) (decode t)
        (decode_included top nested decode l))
decode_included-Permᴰ top nested decode (Permᴰ.trans d e) =
    Permᴰ.trans (decode_included-Permᴰ top nested decode d)
      (decode_included-Permᴰ top nested decode e)

-- At most one switch at the top, and at most one nested switch for each of its values.
pub record IsUnambiguous (ss : List Signal) : Type 0 where
  pub one_top : count is_top ss ≤ 1
  pub one_nested : (value : ℕ) → count (is_nested value) ss ≤ 1

module _ (lookup : List Message → ℕ → Option Message)
    (unmarshal_unsigned unmarshal_physical : Signal → Bytes → ℕ) where
  nested_under-Permᴰ :
      {ss ts : List Signal} (top : Option ℕ) (bs : Bytes)
      → Permᴰ ss ts
      → IsUnambiguous ss
      → nested_under lookup unmarshal_unsigned unmarshal_physical top ss bs
        ≡ nested_under lookup unmarshal_unsigned unmarshal_physical top ts bs
  nested_under-Permᴰ none bs d u = refl
  nested_under-Permᴰ (some value) bs d u =
      ap (λ (o : Option Signal). value_of lookup unmarshal_unsigned unmarshal_physical o bs)
        (find_first-Permᴰ (is_nested value) d (u.one_nested value))

  -- If a message has at most one switch at the top and at most one nested switch for each of its
  -- values, the signals decoded from a frame are the same up to their order, in whatever order the
  -- message lists its signals.
  pub parse_message-Perm :
      (m : Message) (ts : List Signal) (msg : CanMessageTimestamped)
      → Perm m.signals ts
      → IsUnambiguous m.signals
      → Perm (parse_message lookup unmarshal_unsigned unmarshal_physical m msg) (
          parse_message lookup unmarshal_unsigned unmarshal_physical
            (record m { signals = ts })
            msg)
  unfolding parse_message
  parse_message-Perm m ts msg d u = ∥∥₁_elim d Perm-prop (λ e.
      rw
        (
          sym (find_first-Permᴰ is_top e u.one_top),
          sym (
              nested_under-Permᴰ
                (value_of lookup unmarshal_unsigned unmarshal_physical (find_first is_top m.signals)
                  (can_data msg.bytes))
                (can_data msg.bytes) e u),
        )
        (∣ decode_included-Permᴰ _ _ _ e ∣₁))
