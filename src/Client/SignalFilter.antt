-- ===== src/Client/SignalFilter.antt =====
-- internal/client/signal-filter/filter.go: rules on decoded signals, and the text that gives them.
use cantou.Common.{
  ℕ, zero, suc, Bool, true, false, not, List, [], ◌∷◌, ◌==◌, if◌then◌else◌, Bytes, codes, equal,
  has_prefix, has_suffix, contains, to_lower, Option, none, some, ◌>>=◌,
}
use cantou.Models.{CanSignalTimestamped}
pub mod Complement
pub mod Syntax
pub mod Groups

pub data Field : Type 0 where
  field_signal field_message : Field

pub data Op : Type 0 where
  op_eq op_not_eq op_contains op_not_contains op_starts_with op_not_starts_with op_ends_with
        op_not_ends_with :
      Op

pub data GroupOp : Type 0 where
  group_op_and group_op_or : GroupOp

pub data Mode : Type 0 where
  mode_exclude mode_include : Mode

pub record Rule : Type 0 where
  pub field : Field
  pub op : Op
  pub value : Bytes

abbrev pub subject : Field → CanSignalTimestamped → Bytes
subject field_signal sig = sig.signal
subject field_message sig = sig.message

unfoldable pub matches_op : Op → Bytes → Bytes → Bool
matches_op op_eq s value = equal s value
matches_op op_not_eq s value = not (equal s value)
matches_op op_contains s value = contains s value
matches_op op_not_contains s value = not (contains s value)
matches_op op_starts_with s value = has_prefix s value
matches_op op_not_starts_with s value = not (has_prefix s value)
matches_op op_ends_with s value = has_suffix s value
matches_op op_not_ends_with s value = not (has_suffix s value)

unfoldable pub matches : Rule → CanSignalTimestamped → Bool
matches r sig = matches_op r.op (subject r.field sig) r.value

pub record Group : Type 0 where
  pub rules : List Rule
  pub op : GroupOp
  pub mode : Mode

-- The loops over the rules, left at the first rule that decides.
unfoldable pub any_matches : List Rule → CanSignalTimestamped → Bool
any_matches [] sig = false
any_matches (r ∷ rs) sig = if matches r sig then true else any_matches rs sig

unfoldable pub all_match : List Rule → CanSignalTimestamped → Bool
all_match [] sig = true
all_match (r ∷ rs) sig = if not (matches r sig) then false else all_match rs sig

abbrev pub matched : GroupOp → List Rule → CanSignalTimestamped → Bool
matched group_op_or rs sig = any_matches rs sig
matched group_op_and rs sig = all_match rs sig

abbrev pub in_mode : Mode → Bool → Bool
in_mode mode_include b = b
in_mode mode_exclude b = not b

-- `Allow` past its early return for a group without rules.
abbrev pub allow_rules : Group → List Rule → CanSignalTimestamped → Bool
allow_rules g [] sig = true
allow_rules g (r ∷ rs) sig = in_mode g.mode (matched g.op (r ∷ rs) sig)

unfoldable pub allow : Group → CanSignalTimestamped → Bool
allow g sig = allow_rules g g.rules sig

-- strings.SplitN(s, ":", n)
abbrev pub colon : ℕ
colon = b':'

abbrev pub onto_first : ℕ → List Bytes → List Bytes
onto_first b [] = []
onto_first b (part ∷ parts) = (b ∷ part) ∷ parts

unfoldable pub split_n : ℕ → Bytes → List Bytes
split_n zero s = []
split_n (suc zero) s = s ∷ []
split_n (suc (suc n)) [] = [] ∷ []
split_n (suc (suc n)) (b ∷ s) =
    let here = split_n (suc n) s in
    let later = split_n (suc (suc n)) s in if b == colon then [] ∷ here else onto_first b later

unfoldable pub parse_field : Bytes → Option Field
parse_field s =
    if equal s (codes "signal")
    then some field_signal
    else if equal s (codes "message")
    then some field_message
    else none

unfoldable pub parse_op : Bytes → Option Op
parse_op s =
    if equal s (codes "eq")
    then some op_eq
    else if equal s (codes "neq")
    then some op_not_eq
    else if equal s (codes "contains")
    then some op_contains
    else if equal s (codes "notcontains")
    then some op_not_contains
    else if equal s (codes "startswith")
    then some op_starts_with
    else if equal s (codes "notstartswith")
    then some op_not_starts_with
    else if equal s (codes "endswith")
    then some op_ends_with
    else if equal s (codes "notendswith")
    then some op_not_ends_with
    else none

-- Whether a text parses is what an error says; its wording is left out.
unfoldable pub parse_parts : List Bytes → Option Rule
parse_parts (field ∷ (op ∷ (value ∷ []))) = do
  field' ← parse_field (to_lower field)
  op' ← parse_op (to_lower op)
  some (record { field = field'; op = op'; value = value })
parse_parts _ = none

unfoldable pub parse_rule : Bytes → Option Rule
parse_rule s = parse_parts (split_n 3 s)

unfoldable pub parse_group_op : Bytes → Option GroupOp
parse_group_op [] = some group_op_and
parse_group_op (b ∷ s) =
    if equal (b ∷ s) (codes "and")
    then some group_op_and
    else if equal (b ∷ s) (codes "or")
    then some group_op_or
    else none

unfoldable pub parse_mode : Bytes → Option Mode
parse_mode [] = some mode_exclude
parse_mode (b ∷ s) =
    if equal (b ∷ s) (codes "exclude")
    then some mode_exclude
    else if equal (b ∷ s) (codes "include")
    then some mode_include
    else none

unfoldable pub parse_rules : List Bytes → Option (List Rule)
parse_rules [] = some []
parse_rules (s ∷ ss) = do r ← parse_rule s; rs ← parse_rules ss; some (r ∷ rs)

unfoldable pub parse_group : List Bytes → Bytes → Bytes → Option Group
parse_group rule_strs op_str mode_str = do
  group_op ← parse_group_op (to_lower op_str)
  mode ← parse_mode (to_lower mode_str)
  rules ← parse_rules rule_strs
  some (record { rules = rules; op = group_op; mode = mode })
