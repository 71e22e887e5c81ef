-- ===== src/Config/Tests.antt =====
-- Texts of a configuration, and the theorems about them.
use cantou.Common.{◌≡◌, refl, none, some, true, false, [], ◌∷◌, map, codes, equal, has_prefix}
use cantou.Common.Decimal.{parse_uint, decimal_from}
use cantou.Common.Split.{split_on}
use cantou.Client.SignalFilter.{split_n}
use cantou.Config.{
  CanInterface, new_interface, parse_uint32_slice, parse_ids, parse_interfaces, interface_of_parts,
  format_interface, apply_signal_filters, apply_each, update_by_name, resolve_config_path,
  dbc_files_of,
}
use cantou.Config.Interfaces.{bare, parse_interfaces-format}

list_with_blanks : parse_uint32_slice (codes "1,4294967295") ≡ some (1 ∷ (4294967295 ∷ []))
unfolding parse_uint32_slice parse_ids split_on parse_uint decimal_from equal
list_with_blanks = refl

too_large : parse_uint32_slice (codes "4294967296") ≡ none
unfolding parse_uint32_slice parse_ids split_on parse_uint decimal_from equal
too_large = refl

abbrev playback : CanInterface
playback = new_interface (codes "old") (codes "playback") (codes "a.log") (codes "x.dbc" ∷ []) true

-- A Bluetooth address is cut at its colons.
bluetooth_address :
    parse_interfaces (codes "car:elm327:rfcomm://AA" ∷ [])
    ≡ some (
        new_interface (codes "car") (codes "elm327") (codes "rfcomm") (codes "//AA" ∷ []) false
        ∷ [])
unfolding parse_interfaces interface_of_parts split_n split_on dbc_files_of equal
bluetooth_address = refl

path_after_flag : resolve_config_path (codes "run" ∷ (codes "-c=x" ∷ [])) [] ≡ codes "x"
unfolding resolve_config_path equal has_prefix
path_after_flag = refl

rule_for_interface :
    apply_signal_filters (codes "old:signal:eq:a" ∷ []) (playback ∷ [])
    ≡ some (record playback { signal_filters = codes "signal:eq:a" ∷ [] } ∷ [])
unfolding apply_signal_filters apply_each update_by_name split_n equal
rule_for_interface = refl

parse_interfaces-format_example :
    parse_interfaces (map format_interface (playback ∷ [])) ≡ some (map bare (playback ∷ []))
parse_interfaces-format_example = parse_interfaces-format (playback ∷ []) (
  (
    (refl, (refl, (refl, tt))),
    (refl, (refl, (refl, (refl, (refl, (refl, (refl, (refl, tt)))))))),
    (refl, (refl, (refl, (refl, (refl, tt))))),
    (
      (
        (λ e. cc e),
        (refl, (refl, (refl, (refl, (refl, tt))))),
        (refl, (refl, (refl, (refl, (refl, tt))))),
      ),
      tt,
    ),
  ),
  tt,
)
