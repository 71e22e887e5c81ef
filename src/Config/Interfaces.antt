-- ===== src/Config/Interfaces.antt =====
-- The interface arguments of internal/config/flags.go, read back.
use cantou.Common.{
  ℕ, suc, zero, ◌≡◌, ◌≢◌, refl, ap, ◌∙◌, Bool, true, false, some, List, [], ◌∷◌, ◌++◌, append-nil,
  map, Bytes, codes, arith, All, equal, ltb, length, ◌==◌, All-append,
}
use cantou.Common.Split.{join, split_on-join, IsFreeOf}
use cantou.Client.SignalFilter.{colon, split_n}
use cantou.Config.{
  CanInterface, dbc_part, loop_part, new_interface, no_obd_options, format_interface,
  parse_interfaces, interface_of_parts, dbc_files_of, parse_bool,
}

split_n-separated :
    (n : ℕ) (s rest : Bytes)
    → IsFreeOf colon s
    → split_n (suc (suc n)) (s ++ (colon ∷ rest)) ≡ s ∷ split_n (suc n) rest
unfolding split_n
split_n-separated n [] rest h = refl
split_n-separated n (b ∷ s) rest (h, hs) = ground (arith, h, split_n-separated n s rest hs)

split_n-single : (n : ℕ) (s : Bytes) → IsFreeOf colon s → split_n (suc n) s ≡ s ∷ []
unfolding split_n
split_n-single zero s h = refl
split_n-single (suc n) [] h = refl
split_n-single (suc n) (b ∷ s) (h, hs) = ground (arith, h, split_n-single (suc n) s hs)

-- A file name that a list can hold.
abbrev pub IsFileName : Bytes → Type 0
IsFileName s = (s ≢ []) × IsFreeOf b',' s × IsFreeOf colon s

-- Names and addresses without colons, and file names without commas and colons.
abbrev pub IsPlain : CanInterface → Type 0
IsPlain i =
    IsFreeOf colon i.name
    × IsFreeOf colon i.network
    × IsFreeOf colon i.uri
    × All IsFileName i.dbc_files

-- What the text of an interface says of it.
abbrev pub bare : CanInterface → CanInterface
bare i = record i {
  signal_filters = [];
  signal_filter_op = [];
  signal_filter_mode = [];
  obd = no_obd_options;
}

join-IsFreeOf : (files : List Bytes) → All IsFileName files → IsFreeOf colon (join b',' files)
join-IsFreeOf [] h = tt
join-IsFreeOf (f ∷ []) ((_, _, free), _) = free
join-IsFreeOf (f ∷ (g ∷ files)) ((_, _, free), h) =
    All-append (λ b. (b == colon) ≡ false) f (b',' ∷ join b',' (g ∷ files)) free
      (refl, join-IsFreeOf (g ∷ files) h)

without_commas : (files : List Bytes) → All IsFileName files → All (IsFreeOf b',') files
without_commas [] h = tt
without_commas (f ∷ files) ((_, free, _), h) = (free, without_commas files h)

join-nonempty : (f : Bytes) (files : List Bytes) → f ≢ [] → join b',' (f ∷ files) ≢ []
join-nonempty [] files h e = h refl
join-nonempty (c ∷ f) [] h e = cc e
join-nonempty (c ∷ f) (g ∷ files) h e = cc e

dbc_files_of-join :
    (files : List Bytes) → All IsFileName files → dbc_files_of (join b',' files) ≡ files
unfolding dbc_files_of equal
dbc_files_of-join [] h = refl
dbc_files_of-join (f ∷ files) (h, hs) =
    rw (nonempty (join b',' (f ∷ files)) (join-nonempty f files h.0))
      (split_on-join b',' (f ∷ files) (λ e. cc e) (without_commas (f ∷ files) (h, hs)))
  where
    nonempty : (s : Bytes) → s ≢ [] → equal s [] ≡ false
    nonempty [] h = absurd (h refl)
    nonempty (c ∷ s) h = refl

-- The parts of a text: three, and those behind them.
split_n-interface :
    (name network uri rest : Bytes)
    → IsFreeOf colon name
    → IsFreeOf colon network
    → IsFreeOf colon uri
    → split_n 5 (name ++ (colon ∷ (network ++ (colon ∷ (uri ++ (colon ∷ rest))))))
      ≡ name ∷ (network ∷ (uri ∷ split_n 2 rest))
split_n-interface name network uri rest h k l =
    split_n-separated 3 name _ h
    ∙ ap (◌∷◌ name) (split_n-separated 2 network _ k)
    ∙ ap (λ ps. name ∷ (network ∷ ps)) (split_n-separated 1 uri rest l)

split_n-short :
    (name network uri : Bytes)
    → IsFreeOf colon name
    → IsFreeOf colon network
    → IsFreeOf colon uri
    → split_n 5 (name ++ (colon ∷ (network ++ (colon ∷ (uri ++ [])))))
      ≡ name ∷ (network ∷ (uri ∷ []))
split_n-short name network uri h k l =
    split_n-separated 3 name _ h
    ∙ ap (◌∷◌ name) (split_n-separated 2 network _ k)
    ∙ ap (λ s. name ∷ (network ∷ split_n 3 s)) (append-nil uri)
    ∙ ap (λ ps. name ∷ (network ∷ ps)) (split_n-single 2 uri l)

positive : (n : ℕ) → ltb 0 (suc n) ≡ true
positive n = ground arith

dbc_part-cons :
    (f : Bytes) (files : List Bytes) (loop : Bool)
    → dbc_part (f ∷ files) loop ≡ colon ∷ join b',' (f ∷ files)
dbc_part-cons f files loop = rw (positive (length files)) refl

dbc_part-true : (files : List Bytes) → dbc_part files true ≡ colon ∷ join b',' files
dbc_part-true [] = refl
dbc_part-true (f ∷ files) = dbc_part-cons f files true

interface_of_parts-format :
    (name network uri : Bytes) (files : List Bytes) (loop : Bool)
    → IsFreeOf colon name
    → IsFreeOf colon network
    → IsFreeOf colon uri
    → All IsFileName files
    → interface_of_parts (
        split_n 5 (
          name
          ++ (colon ∷ (network ++ (colon ∷ (uri ++ (dbc_part files loop ++ loop_part loop)))))))
      ≡ some (new_interface name network uri files loop)
unfolding interface_of_parts parse_bool equal
interface_of_parts-format name network uri [] false h k l names =
    ap interface_of_parts (split_n-short name network uri h k l)
interface_of_parts-format name network uri (f ∷ files) false h k l names =
    let dbc = join b',' (f ∷ files) in
    let text : dbc_part (f ∷ files) false ++ [] ≡ colon ∷ dbc =
      append-nil (dbc_part (f ∷ files) false) ∙ dbc_part-cons f files false in
    ap (λ t. interface_of_parts (split_n 5 (name ++ (colon ∷ (network ++ (colon ∷ (uri ++ t)))))))
      text
    ∙ ap interface_of_parts (split_n-interface name network uri dbc h k l)
    ∙ ap (λ ps. interface_of_parts (name ∷ (network ∷ (uri ∷ ps))))
        (split_n-single 1 dbc (join-IsFreeOf (f ∷ files) names))
    ∙ ap (λ fs. some (new_interface name network uri fs false))
        (dbc_files_of-join (f ∷ files) names)
interface_of_parts-format name network uri files true h k l names =
    let dbc = join b',' files in
    let text : dbc_part files true ++ codes ":true" ≡ colon ∷ (dbc ++ codes ":true") =
      ap (λ t. t ++ codes ":true") (dbc_part-true files) in
    ap (λ t. interface_of_parts (split_n 5 (name ++ (colon ∷ (network ++ (colon ∷ (uri ++ t)))))))
      text
    ∙ ap interface_of_parts (split_n-interface name network uri (dbc ++ codes ":true") h k l)
    ∙ ap (λ ps. interface_of_parts (name ∷ (network ∷ (uri ∷ ps))))
        (split_n-separated 0 dbc (codes "true") (join-IsFreeOf files names)
          ∙ ap (◌∷◌ dbc) (split_n-single 0 (codes "true") (refl, (refl, (refl, (refl, tt))))))
    ∙ ap (λ fs. some (new_interface name network uri fs true)) (dbc_files_of-join files names)

-- Interfaces whose names, networks and addresses have no colon, and whose files have non-empty
-- names without commas and colons, are read back from their texts, but for their signal filters and
-- their options of an OBD adapter, which are no part of those.
pub parse_interfaces-format :
    (is : List CanInterface)
    → All IsPlain is
    → parse_interfaces (map format_interface is) ≡ some (map bare is)
unfolding parse_interfaces format_interface
parse_interfaces-format [] h = refl
parse_interfaces-format (i ∷ is) ((name, network, uri, names), hs) =
    rw (interface_of_parts-format i.name i.network i.uri i.dbc_files i.loop name network uri names)
      (rw (parse_interfaces-format is hs) refl)
