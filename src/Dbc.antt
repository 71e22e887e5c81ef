-- ===== src/Dbc.antt =====
-- internal/parser/dbc/dbc.go: the signals that a frame carries, by the messages of a DBC file. The
-- module go.einride.tech/can is not part of the repository: how it looks a message up and how it
-- reads the bits of a signal are parameters; its descriptors are records of what the code uses.
use cantou.Common.{
  ℕ, Bool, true, false, not, ◌&&◌, ◌==◌, Option, none, some, List, [], ◌∷◌, ◌++◌, Bytes,
  if◌then◌else◌, replicate, take,
}
use cantou.Models.{CanMessageTimestamped, CanSignalTimestamped}
pub mod Order
pub mod Definitions
pub mod Compile
pub mod Signals
pub mod Layout
mod Tests

pub record ValueDescription : Type 0 where
  pub value : ℕ
  pub description : Bytes

-- `length` is in bits. Scale and offset, minimum and maximum are the bits of float64 values.
pub record Signal : Type 0 where
  pub name : Bytes
  pub start : ℕ
  pub length : ℕ
  pub is_big_endian : Bool
  pub is_signed : Bool
  pub is_float : Bool
  pub is_multiplexer : Bool
  pub is_multiplexed : Bool
  pub multiplexer_value : ℕ
  pub scale : ℕ
  pub offset : ℕ
  pub min : ℕ
  pub max : ℕ
  pub unit : Bytes
  pub description : Bytes
  pub value_descriptions : List ValueDescription
  pub receiver_nodes : List Bytes
  pub default_value : ℕ

pub record Message : Type 0 where
  pub name : Bytes
  pub id : ℕ
  pub is_extended : Bool
  pub length : ℕ
  pub sender_node : Bytes
  pub signals : List Signal
  pub description : Bytes
  pub send_type : ℕ
  pub cycle_time : ℕ
  pub delay_time : ℕ

pub record Node : Type 0 where
  pub name : Bytes
  pub description : Bytes

pub record Database : Type 0 where
  pub source_file : Bytes
  pub version : Bytes
  pub messages : List Message
  pub nodes : List Node

abbrev pub ParserInterface : Type 0
ParserInterface = CanMessageTimestamped → List CanSignalTimestamped

-- copy(canData[:], msg.Data) into eight zeros
abbrev pub can_data : Bytes → Bytes
can_data bytes = take 8 (bytes ++ replicate 8 0)

-- The loops that look for a switch take the first that fits.
unfoldable pub find_first : (Signal → Bool) → List Signal → Option Signal
find_first p [] = none
find_first p (s ∷ ss) = if p s then some s else find_first p ss

abbrev pub is_top : Signal → Bool
is_top s = s.is_multiplexer && not s.is_multiplexed

abbrev pub is_nested : ℕ → Signal → Bool
is_nested value s = s.is_multiplexer && (s.is_multiplexed && s.multiplexer_value == value)

-- The value of a switch, if there is one, against the value that a signal is for.
abbrev pub selected_by : Option ℕ → Signal → Bool
selected_by none s = false
selected_by (some value) s = s.multiplexer_value == value

-- The last two cases: a leaf is under the nested switch, if one is active, else under the top one.
abbrev pub leaf_included : Option ℕ → Option ℕ → Signal → Bool
leaf_included top none s = selected_by top s
leaf_included top (some value) s = selected_by (some value) s

unfoldable pub included : Option ℕ → Option ℕ → Signal → Bool
included top nested s =
    if not s.is_multiplexed
    then true
    else if s.is_multiplexer
    then selected_by top s
    else leaf_included top nested s

unfoldable pub decode_included :
    Option ℕ → Option ℕ → (Signal → CanSignalTimestamped) → List Signal → List CanSignalTimestamped
unfolding included
decode_included top nested decode [] = []
decode_included top nested decode (s ∷ ss) =
    let rest = decode_included top nested decode ss in
    if included top nested s then decode s ∷ rest else rest

module _ (lookup : List Message → ℕ → Option Message)
    (unmarshal_unsigned unmarshal_physical : Signal → Bytes → ℕ) where
  abbrev pub value_of : Option Signal → Bytes → Option ℕ
  value_of none bs = none
  value_of (some s) bs = some (unmarshal_unsigned s bs)

  abbrev pub top_value : List Signal → Bytes → Option ℕ
  top_value ss bs = value_of (find_first is_top ss) bs

  abbrev pub nested_under : Option ℕ → List Signal → Bytes → Option ℕ
  nested_under none ss bs = none
  nested_under (some value) ss bs = value_of (find_first (is_nested value) ss) bs

  abbrev pub decoded : CanMessageTimestamped → Bytes → Bytes → Signal → CanSignalTimestamped
  decoded msg message bs s = record {
    timestamp = msg.timestamp;
    interface = msg.interface;
    id = msg.id;
    message = message;
    signal = s.name;
    value = unmarshal_physical s bs;
    unit = s.unit;
  }

  unfoldable pub parse_message : Message → CanMessageTimestamped → List CanSignalTimestamped
  unfolding decode_included find_first
  parse_message message msg =
      let bytes = can_data msg.bytes in
      let top = top_value message.signals bytes in
      let nested = nested_under top message.signals bytes in
      decode_included top nested (decoded msg message.name bytes) message.signals

  abbrev parse_found : Option Message → ParserInterface
  parse_found none msg = []
  parse_found (some message) msg = parse_message message msg

  abbrev parse_in : Option Database → ParserInterface
  parse_in none msg = []
  parse_in (some db) msg = parse_found (lookup db.messages msg.id) msg

  -- Before a file is loaded there is no database.
  unfoldable pub parse_signals : Option Database → ParserInterface
  unfolding parse_message
  parse_signals db = parse_in db

-- MultiParser
unfoldable pub parse_all : List ParserInterface → ParserInterface
parse_all [] msg = []
parse_all (p ∷ ps) msg = p msg ++ parse_all ps msg
