-- ===== src/Client/SignalFilter/Groups.antt =====
-- The texts that give a group of rules.
use cantou.Common.{
  ◌≡◌, refl, sym, ◌↔◌, List, [], ◌∷◌, arith, Bytes, to_lower, some, inl, inr, Option-cases,
  Bool-cases, codes, equal, equal_iff, some-injective,
}
use mathlib.Core.Path.{subst}
use cantou.Client.SignalFilter.{
  Rule, Group, GroupOp, group_op_and, group_op_or, Mode, mode_exclude, mode_include, parse_rule,
  parse_rules, parse_group_op, parse_mode, parse_group,
}
use cantou.Client.SignalFilter.Syntax.{Spells, parse_rule_iff}

-- As many texts as rules, each a text of its rule.
abbrev pub AllSpell : List Bytes → List Rule → Type 0
AllSpell [] [] = Unit
AllSpell (s ∷ ss) (r ∷ rs) = Spells s r × AllSpell ss rs
AllSpell _ _ = ⊥

parse_rules_sound : (ss : List Bytes) (rs : List Rule) → parse_rules ss ≡ some rs → AllSpell ss rs
unfolding parse_rules
parse_rules_sound [] [] h = tt
parse_rules_sound [] (r ∷ rs) h = absurd (ground (arith, h))
parse_rules_sound (s ∷ ss) rs h = elim (Option-cases (parse_rule s)) [
  | inl e ↦ absurd (ground (arith, e, h))
  | inr (r, e) ↦ elim (Option-cases (parse_rules ss)) [
    | inl k ↦ absurd (ground (arith, e, k, h))
    | inr (rest, k) ↦
        let same : r ∷ rest ≡ rs = ground (arith, e, k, h) in
        rw (sym same) ((parse_rule_iff s r).0 e, parse_rules_sound ss rest k)
  ]
]

parse_rules_complete :
    (ss : List Bytes) (rs : List Rule) → AllSpell ss rs → parse_rules ss ≡ some rs
unfolding parse_rules
parse_rules_complete [] [] h = refl
parse_rules_complete [] (r ∷ rs) h = absurd h
parse_rules_complete (s ∷ ss) [] h = absurd h
parse_rules_complete (s ∷ ss) (r ∷ rs) (h, hs) =
    ground (arith, (parse_rule_iff s r).1 h, parse_rules_complete ss rs hs)

-- The words for an operator and a mode, in lower case; no word stands for the first of each.
pub data NamesOp : Bytes → GroupOp → Type 0 where
  no_op : NamesOp [] group_op_and
  and_op : NamesOp (codes "and") group_op_and
  or_op : NamesOp (codes "or") group_op_or

pub data NamesMode : Bytes → Mode → Type 0 where
  no_mode : NamesMode [] mode_exclude
  exclude_mode : NamesMode (codes "exclude") mode_exclude
  include_mode : NamesMode (codes "include") mode_include

parse_group_op_sound : (s : Bytes) (op : GroupOp) → parse_group_op s ≡ some op → NamesOp s op
unfolding parse_group_op
parse_group_op_sound [] op h = subst (NamesOp []) (some-injective h) no_op
parse_group_op_sound (b ∷ s) op h = elim (Bool-cases (equal (b ∷ s) (codes "and"))) [
  | inl e ↦
      let same : group_op_and ≡ op = some-injective (rw e at h) in
      rw ((equal_iff (b ∷ s) (codes "and")).0 e) (subst (NamesOp (codes "and")) same and_op)
  | inr other ↦ elim (Bool-cases (equal (b ∷ s) (codes "or"))) [
    | inl e ↦
        let same : group_op_or ≡ op = some-injective (rw (other, e) at h) in
        rw ((equal_iff (b ∷ s) (codes "or")).0 e) (subst (NamesOp (codes "or")) same or_op)
    | inr neither ↦ absurd (cc (rw (other, neither) at h))
  ]
]

parse_group_op_complete : (s : Bytes) (op : GroupOp) → NamesOp s op → parse_group_op s ≡ some op
unfolding parse_group_op equal
parse_group_op_complete _ _ no_op = refl
parse_group_op_complete _ _ and_op = refl
parse_group_op_complete _ _ or_op = refl

parse_mode_sound : (s : Bytes) (mode : Mode) → parse_mode s ≡ some mode → NamesMode s mode
unfolding parse_mode
parse_mode_sound [] mode h = subst (NamesMode []) (some-injective h) no_mode
parse_mode_sound (b ∷ s) mode h = elim (Bool-cases (equal (b ∷ s) (codes "exclude"))) [
  | inl e ↦
      let same : mode_exclude ≡ mode = some-injective (rw e at h) in
      rw ((equal_iff (b ∷ s) (codes "exclude")).0 e)
        (subst (NamesMode (codes "exclude")) same exclude_mode)
  | inr other ↦ elim (Bool-cases (equal (b ∷ s) (codes "include"))) [
    | inl e ↦
        let same : mode_include ≡ mode = some-injective (rw (other, e) at h) in
        rw ((equal_iff (b ∷ s) (codes "include")).0 e)
          (subst (NamesMode (codes "include")) same include_mode)
    | inr neither ↦ absurd (cc (rw (other, neither) at h))
  ]
]

parse_mode_complete : (s : Bytes) (mode : Mode) → NamesMode s mode → parse_mode s ≡ some mode
unfolding parse_mode equal
parse_mode_complete _ _ no_mode = refl
parse_mode_complete _ _ exclude_mode = refl
parse_mode_complete _ _ include_mode = refl

-- What the three arguments have to say for a group.
abbrev pub SpellsGroup : List Bytes → Bytes → Bytes → Group → Type 0
SpellsGroup rule_strs op_str mode_str g =
    AllSpell rule_strs g.rules
    × (NamesOp (to_lower op_str) g.op × NamesMode (to_lower mode_str) g.mode)

parse_group_sound :
    (rule_strs : List Bytes) (op_str mode_str : Bytes) (g : Group)
    → parse_group rule_strs op_str mode_str ≡ some g
    → SpellsGroup rule_strs op_str mode_str g
unfolding parse_group
parse_group_sound rule_strs op_str mode_str g h =
    elim (Option-cases (parse_group_op (to_lower op_str))) [
      | inl e ↦ absurd (ground (arith, e, h))
      | inr (op, e) ↦ elim (Option-cases (parse_mode (to_lower mode_str))) [
        | inl k ↦ absurd (ground (arith, e, k, h))
        | inr (mode, k) ↦ elim (Option-cases (parse_rules rule_strs)) [
          | inl l ↦ absurd (ground (arith, e, k, l, h))
          | inr (rules, l) ↦
              let same : record { rules = rules; op = op; mode = mode } ≡ g =
                ground (arith, e, k, l, h) in
              rw (sym same) (
                parse_rules_sound rule_strs rules l,
                (
                  parse_group_op_sound (to_lower op_str) op e,
                  parse_mode_sound (to_lower mode_str) mode k,
                ),
              )
        ]
      ]
    ]

-- The arguments parse to a group exactly if the texts of the rules are, one by one, texts of its
-- rules, and the two words are, in any case, `and` or `or` for its operator and `exclude` or `include`
-- for its mode, where no word says `and` and `exclude`; a single bad rule refuses them all.
pub parse_group_iff :
    (rule_strs : List Bytes) (op_str mode_str : Bytes) (g : Group)
    → (parse_group rule_strs op_str mode_str ≡ some g) ↔ SpellsGroup rule_strs op_str mode_str g
unfolding parse_group
parse_group_iff rule_strs op_str mode_str g = (
  parse_group_sound rule_strs op_str mode_str g,
  λ (rules, (op, mode)). ground (
    arith,
    parse_group_op_complete (to_lower op_str) g.op op,
    parse_mode_complete (to_lower mode_str) g.mode mode,
    parse_rules_complete rule_strs g.rules rules,
  ),
)
