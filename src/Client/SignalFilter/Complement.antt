-- ===== src/Client/SignalFilter/Complement.antt =====
-- Excluding and including are two ways to say one filter.
use cantou.Common.{Bool, not, ◌≡◌, refl, sym, List, [], ◌∷◌, map, Bytes, arith}
use cantou.Models.{CanSignalTimestamped}
use cantou.Client.SignalFilter.{
  Op, op_eq, op_not_eq, op_contains, op_not_contains, op_starts_with, op_not_starts_with,
  op_ends_with, op_not_ends_with, matches_op, Rule, matches, any_matches, all_match, Group, allow,
  mode_include, mode_exclude, Mode, GroupOp, group_op_and, group_op_or, matched, in_mode,
  allow_rules,
}

-- The operator with the opposite sense.
unfoldable pub opposite : Op → Op
opposite op_eq = op_not_eq
opposite op_not_eq = op_eq
opposite op_contains = op_not_contains
opposite op_not_contains = op_contains
opposite op_starts_with = op_not_starts_with
opposite op_not_starts_with = op_starts_with
opposite op_ends_with = op_not_ends_with
opposite op_not_ends_with = op_ends_with

not-not : (b : Bool) → b ≡ not (not b)
not-not b = ground arith

matches_op-opposite :
    (op : Op) (s t : Bytes) → matches_op (opposite op) s t ≡ not (matches_op op s t)
unfolding opposite matches_op
matches_op-opposite op_eq s t = refl
matches_op-opposite op_not_eq s t = not-not _
matches_op-opposite op_contains s t = refl
matches_op-opposite op_not_contains s t = not-not _
matches_op-opposite op_starts_with s t = refl
matches_op-opposite op_not_starts_with s t = not-not _
matches_op-opposite op_ends_with s t = refl
matches_op-opposite op_not_ends_with s t = not-not _

abbrev pub negate : Rule → Rule
negate r = record r { op = opposite r.op }

matches-negate :
    (r : Rule) (sig : CanSignalTimestamped) → matches (negate r) sig ≡ not (matches r sig)
unfolding matches
matches-negate r sig = matches_op-opposite r.op _ _

any_matches-negate :
    (rs : List Rule) (sig : CanSignalTimestamped)
    → any_matches (map negate rs) sig ≡ not (all_match rs sig)
unfolding any_matches all_match
any_matches-negate [] sig = refl
any_matches-negate (r ∷ rs) sig = ground (arith, matches-negate r sig, any_matches-negate rs sig)

all_match-negate :
    (rs : List Rule) (sig : CanSignalTimestamped)
    → all_match (map negate rs) sig ≡ not (any_matches rs sig)
unfolding any_matches all_match
all_match-negate [] sig = refl
all_match-negate (r ∷ rs) sig = ground (arith, matches-negate r sig, all_match-negate rs sig)

abbrev other_mode : Mode → Mode
other_mode mode_exclude = mode_include
other_mode mode_include = mode_exclude

abbrev other_group_op : GroupOp → GroupOp
other_group_op group_op_and = group_op_or
other_group_op group_op_or = group_op_and

-- The filter with every rule, the operator and the mode turned round.
abbrev pub dual : Group → Group
dual g = record { rules = map negate g.rules; op = other_group_op g.op; mode = other_mode g.mode }

dual_matched :
    (op : GroupOp) (rs : List Rule) (sig : CanSignalTimestamped)
    → matched (other_group_op op) (map negate rs) sig ≡ not (matched op rs sig)
dual_matched group_op_and rs sig = any_matches-negate rs sig
dual_matched group_op_or rs sig = all_match-negate rs sig

in_other_mode : (mode : Mode) (b : Bool) → in_mode (other_mode mode) (not b) ≡ in_mode mode b
in_other_mode mode_exclude b = refl
in_other_mode mode_include b = sym (not-not b)

dual_rules :
    (g : Group) (rs : List Rule) (sig : CanSignalTimestamped)
    → allow_rules (dual g) (map negate rs) sig ≡ allow_rules g rs sig
dual_rules g [] sig = refl
dual_rules g (r ∷ rs) sig = rw (dual_matched g.op (r ∷ rs) sig) (in_other_mode g.mode _)

-- Turning round every rule, the operator between them and the mode of a group gives a group
-- that allows the same signals, also for a group without rules.
pub allow-dual : (g : Group) (sig : CanSignalTimestamped) → allow (dual g) sig ≡ allow g sig
unfolding allow
allow-dual g sig = dual_rules g g.rules sig
