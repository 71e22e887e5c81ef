-- ===== src/Client/SignalFilter/Syntax.antt =====
-- The texts that give a rule: three parts, of which only the last may hold a colon.
use cantou.Common.{
  ℕ, suc, ◌≡◌, ◌≢◌, refl, sym, ap, ◌∙◌, ◌↔◌, ◌⊎◌, inl, inr, List, [], ◌∷◌, ◌++◌, Bytes, codes,
  equal, equal_iff, to_lower, All, arith, Bool-cases, Option-cases, some, ◌==◌,
}
use cantou.Client.SignalFilter.{
  Field, field_signal, field_message, Op, op_eq, op_not_eq, op_contains, op_not_contains,
  op_starts_with, op_not_starts_with, op_ends_with, op_not_ends_with, Rule, colon, split_n,
  parse_field, parse_op, parse_parts, parse_rule,
}

abbrev pub field_name : Field → Bytes
field_name field_signal = codes "signal"
field_name field_message = codes "message"

abbrev pub op_name : Op → Bytes
op_name op_eq = codes "eq"
op_name op_not_eq = codes "neq"
op_name op_contains = codes "contains"
op_name op_not_contains = codes "notcontains"
op_name op_starts_with = codes "startswith"
op_name op_not_starts_with = codes "notstartswith"
op_name op_ends_with = codes "endswith"
op_name op_not_ends_with = codes "notendswith"

parse_field-field_name : (f : Field) → parse_field (field_name f) ≡ some f
unfolding parse_field equal
parse_field-field_name field_signal = refl
parse_field-field_name field_message = refl

parse_op-op_name : (o : Op) → parse_op (op_name o) ≡ some o
unfolding parse_op equal
parse_op-op_name op_eq = refl
parse_op-op_name op_not_eq = refl
parse_op-op_name op_contains = refl
parse_op-op_name op_not_contains = refl
parse_op-op_name op_starts_with = refl
parse_op-op_name op_not_starts_with = refl
parse_op-op_name op_ends_with = refl
parse_op-op_name op_not_ends_with = refl

parse_field_sound : (s : Bytes) (f : Field) → parse_field s ≡ some f → s ≡ field_name f
unfolding parse_field
parse_field_sound s f h =
    ground (arith, h, equal_iff s (codes "signal"), equal_iff s (codes "message"))

parse_op_sound : (s : Bytes) (o : Op) → parse_op s ≡ some o → s ≡ op_name o
unfolding parse_op
parse_op_sound s o h = ground (
  arith,
  h,
  equal_iff s (codes "eq"),
  equal_iff s (codes "neq"),
  equal_iff s (codes "contains"),
  equal_iff s (codes "notcontains"),
  equal_iff s (codes "startswith"),
  equal_iff s (codes "notstartswith"),
  equal_iff s (codes "endswith"),
  equal_iff s (codes "notendswith"),
)

NoColon : Bytes → Type 0
NoColon = All (λ b. b ≢ colon)

NoColon-to_lower : (s : Bytes) → NoColon (to_lower s) → NoColon s
unfolding NoColon
NoColon-to_lower [] h = h
NoColon-to_lower (b ∷ s) (h, hs) = (ground (arith, h), NoColon-to_lower s hs)

split_n-colon :
    (n : ℕ) (s rest : Bytes)
    → NoColon s
    → split_n (suc (suc n)) (s ++ (colon ∷ rest)) ≡ s ∷ split_n (suc n) rest
unfolding NoColon split_n
split_n-colon n [] rest h = refl
split_n-colon n (b ∷ s) rest (h, hs) = ground (arith, h, split_n-colon n s rest hs)

split_n_cases :
    (n : ℕ) (s : Bytes)
    → (split_n (suc (suc n)) s ≡ s ∷ [])
      ⊎ ((part : Bytes) × ((rest : Bytes) × ((s ≡ part ++ (colon ∷ rest))
              × (split_n (suc (suc n)) s ≡ part ∷ split_n (suc n) rest))))
unfolding split_n
split_n_cases n [] = inl refl
split_n_cases n (b ∷ s) = elim (Bool-cases (b == colon)) [
  | inl e ↦ inr ([], (s, (ground (arith, e), ground (arith, e))))
  | inr e ↦ elim (split_n_cases n s) [
    | inl h ↦ inl (ground (arith, e, h))
    | inr (part, (rest, (h, k))) ↦ inr (b ∷ part, (rest, (ap (λ t. b ∷ t) h, ground (arith, e, k))))
  ]
]

-- The rules that a text stands for.
abbrev pub Spells : Bytes → Rule → Type 0
Spells s r =
    (field : Bytes) × ((op : Bytes) × ((s ≡ field ++ (colon ∷ (op ++ (colon ∷ r.value))))
        × ((to_lower field ≡ field_name r.field) × (to_lower op ≡ op_name r.op))))

field_name-NoColon : (f : Field) → NoColon (field_name f)
unfolding NoColon
field_name-NoColon field_signal = omega arith
field_name-NoColon field_message = omega arith

op_name-NoColon : (o : Op) → NoColon (op_name o)
unfolding NoColon
op_name-NoColon op_eq = omega arith
op_name-NoColon op_not_eq = omega arith
op_name-NoColon op_contains = omega arith
op_name-NoColon op_not_contains = omega arith
op_name-NoColon op_starts_with = omega arith
op_name-NoColon op_not_starts_with = omega arith
op_name-NoColon op_ends_with = omega arith
op_name-NoColon op_not_ends_with = omega arith

parse_parts_sound :
    (field op value : Bytes) (r : Rule)
    → parse_parts (field ∷ (op ∷ (value ∷ []))) ≡ some r
    → (value ≡ r.value) × ((to_lower field ≡ field_name r.field) × (to_lower op ≡ op_name r.op))
unfolding parse_parts
parse_parts_sound field op value r h = elim (Option-cases (parse_field (to_lower field))) [
  | inl e ↦ absurd (ground (arith, e, h))
  | inr (f, e) ↦ elim (Option-cases (parse_op (to_lower op))) [
    | inl k ↦ absurd (ground (arith, e, k, h))
    | inr (o, k) ↦
        let same : record { field = f; op = o; value = value } ≡ r = ground (arith, e, k, h) in
        (
          ap Rule.value same,
          (
            parse_field_sound _ f e ∙ ap (λ (x : Rule). field_name x.field) same,
            parse_op_sound _ o k ∙ ap (λ (x : Rule). op_name x.op) same,
          ),
        )
  ]
]

no_short_list :
    (parts : List Bytes) (part : Bytes) (r : Rule) → parts ≡ part ∷ [] → parse_parts parts ≢ some r
unfolding parse_parts
no_short_list parts part r h = rw h (ground arith)

no_two_parts :
    (parts : List Bytes) (part part' : Bytes) (r : Rule)
    → parts ≡ part ∷ (part' ∷ [])
    → parse_parts parts ≢ some r
unfolding parse_parts
no_two_parts parts part part' r h = rw h (ground arith)

parse_rule_sound : (s : Bytes) (r : Rule) → parse_rule s ≡ some r → Spells s r
unfolding parse_rule split_n
parse_rule_sound s r h = elim (split_n_cases 1 s) [
  | inl one ↦ absurd (no_short_list (split_n 3 s) s r one h)
  | inr (field, (rest, (s-eq, more))) ↦ elim (split_n_cases 0 rest) [
    | inl one ↦ absurd (no_two_parts (split_n 3 s) field rest r (more ∙ ap (λ p. field ∷ p) one) h)
    | inr (op, (value, (rest-eq, two))) ↦
        let whole : split_n 3 s ≡ field ∷ (op ∷ (value ∷ [])) = more ∙ ap (λ p. field ∷ p) two in
        let (same, names) = parse_parts_sound field op value r (sym (ap parse_parts whole) ∙ h) in
        (
          field,
          (
            op,
            (
              s-eq ∙ ap (λ t. field ++ (colon ∷ t)) (rest-eq ∙ ap (λ v. op ++ (colon ∷ v)) same),
              names,
            ),
          ),
        )
  ]
]

parse_rule_complete : (s : Bytes) (r : Rule) → Spells s r → parse_rule s ≡ some r
unfolding parse_rule parse_parts split_n
parse_rule_complete s r (field, (op, (s-eq, (f-eq, o-eq)))) =
    let no_colon : NoColon field = NoColon-to_lower field (rw f-eq (field_name-NoColon r.field)) in
    let no_colon' : NoColon op = NoColon-to_lower op (rw o-eq (op_name-NoColon r.op)) in
    let whole : split_n 3 s ≡ field ∷ (op ∷ (r.value ∷ [])) =
      ap (split_n 3) s-eq
      ∙ split_n-colon 1 field (op ++ (colon ∷ r.value)) no_colon
      ∙ ap (λ p. field ∷ p) (split_n-colon 0 op r.value no_colon') in
    rw whole (ground (arith, f-eq, o-eq, parse_field-field_name r.field, parse_op-op_name r.op))

-- A text parses to a rule exactly if it consists of the name of the rule's field, that of its
-- operator, both in any case, and its value, parted by colons; the value may hold colons of its
-- own.
pub parse_rule_iff : (s : Bytes) (r : Rule) → (parse_rule s ≡ some r) ↔ Spells s r
parse_rule_iff s r = (parse_rule_sound s r, parse_rule_complete s r)
