-- ===== src/Client/Filters.antt =====
-- internal/client/filter/types.go and internal/models/filter.go: the filters on CAN frames, and
-- internal/client/common/utils.go: the sets of named filters.
use cantou.Common.{
  ℕ, ◌+◌, ◌-◌, Bool, true, false, not, List, [], ◌∷◌, ◌++◌, if◌then◌else◌, ltb, ◌==◌, Bytes, equal,
  Option, some, none, ◌>>=◌, length, get_elem?, take, replicate,
}
use cantou.Models.{CanMessageTimestamped}
pub mod Bytewise
pub mod Sets

pub data CanTransmitFilterStatus : Type 0 where
  tx_and_rx tx_only rx_only : CanTransmitFilterStatus

pub data CanRemoteFilterStatus : Type 0 where
  include_remote exclude_remote remote_only : CanRemoteFilterStatus

pub data CanFilterGroupOperator : Type 0 where
  filter_and filter_or : CanFilterGroupOperator

pub data CanDataLengthOperator : Type 0 where
  length_greater_than length_less_than length_equals length_not_equals : CanDataLengthOperator

pub data CanDataFilterOperator : Type 0 where
  data_greater_than data_less_than data_equals data_not_equals : CanDataFilterOperator

abbrev pub interface_filter : ℕ → CanMessageTimestamped → Bool
interface_filter value m = m.interface == value

abbrev pub transmit_filter : CanTransmitFilterStatus → CanMessageTimestamped → Bool
transmit_filter tx_only m = m.transmit
transmit_filter rx_only m = not m.transmit
transmit_filter tx_and_rx m = true

abbrev pub length_filter : CanDataLengthOperator → ℕ → CanMessageTimestamped → Bool
length_filter length_greater_than value m = ltb value m.length
length_filter length_less_than value m = ltb m.length value
length_filter length_not_equals value m = not (m.length == value)
length_filter length_equals value m = m.length == value

abbrev pub remote_filter : CanRemoteFilterStatus → CanMessageTimestamped → Bool
remote_filter exclude_remote m = not m.remote
remote_filter remote_only m = m.remote
remote_filter include_remote m = true

pub record ByteTest : Type 0 where
  pub byte : ℕ
  pub operator : CanDataFilterOperator
  pub target : ℕ

abbrev pub compare_byte : CanDataFilterOperator → ℕ → ℕ → Bool
compare_byte data_greater_than b target = ltb target b
compare_byte data_less_than b target = ltb b target
compare_byte data_not_equals b target = not (b == target)
compare_byte data_equals b target = b == target

-- The loop of CanDataFilter; `none` stands for the panic of an index out of range.
unfoldable pub filter_values : List ByteTest → Bytes → Option (List Bool)
filter_values [] bytes = some []
filter_values (f ∷ fs) bytes = do
  b ← get_elem? bytes f.byte
  later ← filter_values fs bytes
  some (compare_byte f.operator b f.target ∷ later)

-- slices.Contains
unfoldable pub array_contains_bool : List Bool → Bool → Bool
array_contains_bool [] value = false
array_contains_bool (true ∷ bs) true = true
array_contains_bool (false ∷ bs) false = true
array_contains_bool (true ∷ bs) false = array_contains_bool bs false
array_contains_bool (false ∷ bs) true = array_contains_bool bs true

abbrev pub array_all_true : List Bool → Bool
array_all_true bs = not (array_contains_bool bs false)

abbrev pub array_contains_true : List Bool → Bool
array_contains_true bs = array_contains_bool bs true

abbrev pub combine : CanFilterGroupOperator → List Bool → Bool
combine filter_and bs = array_all_true bs
combine filter_or bs = array_contains_true bs

unfoldable pub data_filter :
    CanFilterGroupOperator → List ByteTest → CanMessageTimestamped → Option Bool
data_filter operator fs m = do values ← filter_values fs m.bytes; some (combine operator values)

-- FilterInterface and CanMessageFilter, as one call sees them; `none` stands for a panic. A filter that
-- keeps a state is Dedupe, outside of this.
abbrev pub FilterInterface : Type 0
FilterInterface = CanMessageTimestamped → Option Bool

-- A set of named filters, in some order; Go ranges over it in any.
abbrev pub FilterSet : Type 0
FilterSet = List (Bytes × FilterInterface)

unfoldable pub has : FilterSet → Bytes → Bool
has [] name = false
has ((n, f) ∷ fs) name = if equal n name then true else has fs name

-- `none` stands for the error that the name is taken.
unfoldable pub add : FilterSet → Bytes → FilterInterface → Option FilterSet
add fs name f = if has fs name then none else some ((name, f) ∷ fs)

-- fs.filters[name] = f
unfoldable pub put : FilterSet → Bytes → FilterInterface → FilterSet
put [] name f = (name, f) ∷ []
put ((n, g) ∷ fs) name f =
    let rest = put fs name f in if equal n name then (n, f) ∷ fs else (n, g) ∷ rest

unfoldable pub from_inputs : FilterSet → List (Bytes × FilterInterface) → FilterSet
from_inputs fs [] = fs
from_inputs fs ((name, f) ∷ inputs) = from_inputs (put fs name f) inputs

abbrev pub new_filter_set_from_inputs : List (Bytes × FilterInterface) → FilterSet
new_filter_set_from_inputs inputs = from_inputs [] inputs

-- The name of the filter that rejects, in the order the range loop takes.
unfoldable pub should_filter : FilterSet → CanMessageTimestamped → Option (Option Bytes)
should_filter [] m = some none
should_filter ((name, f) ∷ fs) m = do
  rejected ← f m
  if rejected then some (some name) else should_filter fs m

unfoldable pub pad_or_trim : Bytes → ℕ → Bytes
pad_or_trim bb size =
    if ltb (length bb) size then bb ++ replicate (size - length bb) 0 else take size bb
