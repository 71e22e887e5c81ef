-- ===== src/Dbc/Definitions.antt =====
-- internal/parser/dbc/dbc.go: the definitions of a DBC file that `compile` reads, and what it calls.
use cantou.Common.{ℕ, Bool, Option, List, Bytes}
use cantou.Dbc.{Message, Node}

pub record SignalDef : Type 0 where
  pub name : Bytes
  pub start_bit : ℕ
  pub size : ℕ
  pub is_big_endian : Bool
  pub is_signed : Bool
  pub is_multiplexer_switch : Bool
  pub is_multiplexed : Bool
  pub multiplexer_switch : ℕ
  pub factor : ℕ
  pub offset : ℕ
  pub minimum : ℕ
  pub maximum : ℕ
  pub unit : Bytes
  pub receivers : List Bytes

pub record MessageDef : Type 0 where
  pub name : Bytes
  pub message_id : ℕ
  pub size : ℕ
  pub transmitter : Bytes
  pub signals : List SignalDef

pub data ObjectType : Type 0 where
  object_message object_signal object_network_node object_other : ObjectType

-- The object that a comment or an attribute is about.
pub record ObjectRef : Type 0 where
  pub object_type : ObjectType
  pub message_id : ℕ
  pub signal_name : Bytes
  pub node_name : Bytes

-- The definitions that `compile` reads; all others are skipped. An integer is given as the 64 bits
-- that hold it, and a described value as those of its float64.
pub data Def : Type 0 where
  version_def : Bytes → Def
  message_def : MessageDef → Def
  nodes_def : List Bytes → Def
  comment_def : ObjectRef → Bytes → Def
  value_descriptions_def : ObjectRef → List (ℕ × Bytes) → Def
  signal_value_type_def : ℕ → Bytes → Bool → Def
  attribute_value_def : ObjectRef → Bytes → Bytes → ℕ → Def
  other_def : Def

-- What the code calls of go.einride.tech/can and of Go's library. `sort` is sort.Slice.
pub record Libraries : Type 1 where
  pub independent_signals_message_id : ℕ
  pub to_can : ℕ → ℕ
  pub is_extended : ℕ → Bool
  pub message_at : List Message → ℕ → Option ℕ
  pub signal_at : List Message → ℕ → Bytes → Option (ℕ × ℕ)
  pub node_at : List Node → Bytes → Option ℕ
  pub unmarshal_send_type : Bytes → ℕ → ℕ
  pub float_to_int64 : ℕ → ℕ
  pub text_less : Bytes → Bytes → Bool
  pub sort : (A : Type 0) → (A → A → Bool) → List A → List A
