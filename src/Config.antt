-- ===== src/Config.antt =====
-- internal/config: the texts of lists and interfaces in flags.go, and the checks of args.go. The
-- environment, the flag parser and JSON are third-party.
use cantou.Common.{
  ℕ, ◌+◌, Bool, true, false, not, ◌||◌, ◌&&◌, Option, none, some, List, [], ◌∷◌, ◌++◌, map, Bytes,
  codes, drop, if◌then◌else◌, ◌==◌, equal, has_prefix, ltb, length, any, ◌>>=◌,
}
use cantou.Common.Decimal.{format_uint, parse_uint}
use cantou.Common.Split.{join, split_on}
use cantou.Client.SignalFilter.{colon, split_n}
use cantou.Obd.{trim_space, trim_prefix}
pub mod Lists
pub mod Interfaces
mod Tests

unfoldable pub format_uint32_slice : List ℕ → Bytes
format_uint32_slice ids = join b',' (map format_uint ids)

-- The loop over the parts; blank ones are left out.
unfoldable pub parse_ids : List Bytes → Option (List ℕ)
parse_ids [] = some []
parse_ids (p ∷ ps) =
    let rest = parse_ids ps in
    if equal (trim_space p) []
    then rest
    else do v ← parse_uint 32 (trim_space p); vs ← rest; some (v ∷ vs)

unfoldable pub parse_uint32_slice : Bytes → Option (List ℕ)
parse_uint32_slice [] = some []
parse_uint32_slice (c ∷ s) = parse_ids (split_on b',' (c ∷ s))

-- The options of an OBD adapter. `poll_ms` and `port_baud` are not negative.
pub record ObdOptions : Type 0 where
  pub mode : Bytes
  pub protocol : Bytes
  pub hw_filters : List Bytes
  pub pids : List Bytes
  pub poll_ms : ℕ
  pub port_baud : ℕ
  pub response_filter : Option Bool

-- Those of an interface that is read from a flag: the zero value.
abbrev pub no_obd_options : ObdOptions
no_obd_options = record {
  mode = [];
  protocol = [];
  hw_filters = [];
  pids = [];
  poll_ms = 0;
  port_baud = 0;
  response_filter = none;
}

-- CanInterfaceOption
pub record CanInterface : Type 0 where
  pub name : Bytes
  pub network : Bytes
  pub uri : Bytes
  pub dbc_files : List Bytes
  pub loop : Bool
  pub signal_filters : List Bytes
  pub signal_filter_op : Bytes
  pub signal_filter_mode : Bytes
  pub obd : ObdOptions

abbrev pub dbc_part : List Bytes → Bool → Bytes
dbc_part files loop = if ltb 0 (length files) || loop then colon ∷ join b',' files else []

abbrev pub loop_part : Bool → Bytes
loop_part loop = if loop then codes ":true" else []

unfoldable pub format_interface : CanInterface → Bytes
format_interface i =
    i.name
    ++ (colon
        ∷ (i.network ++ (colon ∷ (i.uri ++ (dbc_part i.dbc_files i.loop ++ loop_part i.loop)))))

-- strconv.ParseBool
abbrev true_texts : List Bytes
true_texts =
    codes "1" ∷ (codes "t" ∷ (codes "T" ∷ (codes "TRUE" ∷ (codes "true" ∷ (codes "True" ∷ [])))))

abbrev false_texts : List Bytes
false_texts =
    codes "0" ∷ (codes "f" ∷ (codes "F" ∷ (codes "FALSE" ∷ (codes "false" ∷ (codes "False" ∷ [])))))

unfoldable pub parse_bool : Bytes → Option Bool
parse_bool s =
    if any (equal s) true_texts
    then some true
    else if any (equal s) false_texts
    then some false
    else none

abbrev new_interface : Bytes → Bytes → Bytes → List Bytes → Bool → CanInterface
new_interface name network uri files loop = record {
  name = name;
  network = network;
  uri = uri;
  dbc_files = files;
  loop = loop;
  signal_filters = [];
  signal_filter_op = [];
  signal_filter_mode = [];
  obd = no_obd_options;
}

unfoldable pub dbc_files_of : Bytes → List Bytes
dbc_files_of part = if equal part [] then [] else split_on b',' part

unfoldable pub interface_of_parts : List Bytes → Option CanInterface
interface_of_parts (name ∷ (network ∷ (uri ∷ []))) = some (new_interface name network uri [] false)
interface_of_parts (name ∷ (network ∷ (uri ∷ (dbc ∷ [])))) =
    some (new_interface name network uri (dbc_files_of dbc) false)
interface_of_parts (name ∷ (network ∷ (uri ∷ (dbc ∷ (loop ∷ more))))) =
    (parse_bool loop) >>= (λ b. some (new_interface name network uri (dbc_files_of dbc) b))
interface_of_parts _ = none

unfoldable pub parse_interfaces : List Bytes → Option (List CanInterface)
parse_interfaces [] = some []
parse_interfaces (s ∷ ss) = do
  i ← interface_of_parts (split_n 5 s)
  is ← parse_interfaces ss
  some (i ∷ is)

-- What is done to the first interface of a name; nothing without one.
unfoldable pub update_by_name :
    Bytes → (CanInterface → CanInterface) → List CanInterface → Option (List CanInterface)
update_by_name name f [] = none
update_by_name name f (i ∷ is) =
    let later = update_by_name name f is in
    if equal i.name name then some (f i ∷ is) else do is' ← later; some (i ∷ is')

abbrev apply_parts :
    (Bytes → CanInterface → CanInterface)
    → List Bytes
    → List CanInterface
    → Option (List CanInterface)
apply_parts set (name ∷ (value ∷ [])) is = update_by_name name (set value) is
apply_parts set _ is = none

-- The loop of applySignalFilters, applySignalFilterOps and applySignalFilterModes, with what each
-- sets: the text is cut at its first colon.
unfoldable pub apply_each :
    (Bytes → CanInterface → CanInterface)
    → List Bytes
    → List CanInterface
    → Option (List CanInterface)
apply_each set [] is = some is
apply_each set (s ∷ ss) is = do is' ← apply_parts set (split_n 2 s) is; apply_each set ss is'

unfoldable pub apply_signal_filters : List Bytes → List CanInterface → Option (List CanInterface)
apply_signal_filters =
    apply_each (λ rule i. record i { signal_filters = i.signal_filters ++ (rule ∷ []) })

unfoldable pub apply_signal_filter_ops : List Bytes → List CanInterface → Option (List CanInterface)
apply_signal_filter_ops = apply_each (λ op i. record i { signal_filter_op = op })

unfoldable pub apply_signal_filter_modes :
    List Bytes → List CanInterface → Option (List CanInterface)
apply_signal_filter_modes = apply_each (λ mode i. record i { signal_filter_mode = mode })

-- ValidateSimRate, ValidateInterfaces: whether there is no error.
unfoldable pub validate_sim_rate : ℕ → ℕ → Bool
validate_sim_rate rate_min rate_max =
    let min_set = not (rate_min == 0) in
    let max_set = not (rate_max == 0) in (min_set && max_set) || (not min_set && not max_set)

unfoldable pub validate_interfaces : List CanInterface → Bool
validate_interfaces is = not (any (λ i. equal i.name []) is)

abbrev first_or : Bytes → List Bytes → Bytes
first_or other [] = other
first_or other (arg ∷ args) = arg

-- A flag without a value at the end is passed over.
unfoldable pub resolve_config_path : List Bytes → Bytes → Bytes
resolve_config_path [] env_value = env_value
resolve_config_path (a ∷ args) env_value =
    let later = resolve_config_path args env_value in
    if equal a (codes "--config") || equal a (codes "-c")
    then first_or later args
    else if has_prefix a (codes "--config=")
    then trim_prefix a (codes "--config=")
    else if has_prefix a (codes "-c=")
    then trim_prefix a (codes "-c=")
    else later
