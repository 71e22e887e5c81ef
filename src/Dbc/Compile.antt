-- ===== src/Dbc/Compile.antt =====
-- internal/parser/dbc/dbc.go: `compile`, which makes the database from the definitions of a DBC
-- file. Its look-ups give the place of what they find, since the code changes that in place.
use cantou.Dbc.Definitions.{
  object_message, object_signal, object_network_node, object_other, version_def, message_def,
  nodes_def, comment_def, value_descriptions_def, signal_value_type_def, attribute_value_def,
  SignalDef, MessageDef, ObjectType, ObjectRef, Def, Libraries,
}
use cantou.Common.{
  ℕ, zero, suc, ◌+◌, ◌*◌, ◌%◌, ◌^◌, Bool, true, false, ◌&&◌, ◌==◌, ltb, Option, none, some, List,
  [], ◌∷◌, ◌++◌, map, Bytes, codes, equal, if◌then◌else◌, ◌>>=◌,
}
use cantou.Dbc.{ValueDescription, Signal, Message, Node, Database}

-- A change in place, at a position; behind the end there is nothing to change.
abbrev pub modify {ℓ} : {A : Type ℓ} → ℕ → (A → A) → List A → List A
modify n f [] = []
modify zero f (x ∷ xs) = f x ∷ xs
modify (suc n) f (x ∷ xs) = x ∷ modify n f xs

abbrev pub new_signal : SignalDef → Signal
new_signal d = record {
  name = d.name;
  start = d.start_bit % 256;
  length = d.size % 256;
  is_big_endian = d.is_big_endian;
  is_signed = d.is_signed;
  is_float = false;
  is_multiplexer = d.is_multiplexer_switch;
  is_multiplexed = d.is_multiplexed;
  multiplexer_value = d.multiplexer_switch;
  scale = d.factor;
  offset = d.offset;
  min = d.minimum;
  max = d.maximum;
  unit = d.unit;
  description = [];
  value_descriptions = [];
  receiver_nodes = d.receivers;
  default_value = 0;
}

abbrev pub new_node : Bytes → Node
new_node name = record { name = name; description = [] }

-- The order in which sort.Slice is asked to put the signals of a message.
unfoldable pub signal_less : Signal → Signal → Bool
signal_less s t = if ltb s.multiplexer_value t.multiplexer_value then true else ltb s.start t.start

-- a < b for numbers held in 64 bits in two's complement
abbrev pub int64_less : ℕ → ℕ → Bool
int64_less a b = ltb ((a + 2 ^ 63) % 2 ^ 64) ((b + 2 ^ 63) % 2 ^ 64)

module _ (libs : Libraries) where
  abbrev pub new_message : MessageDef → Message
  new_message d = record {
    name = d.name;
    id = libs.to_can d.message_id;
    is_extended = libs.is_extended d.message_id;
    length = d.size % 256;
    sender_node = d.transmitter;
    signals = map new_signal d.signals;
    description = [];
    send_type = 0;
    cycle_time = 0;
    delay_time = 0;
  }

  -- The first pass over one definition.
  unfoldable pub collect : Database → Def → Database
  collect db (version_def version) = record db { version = version }
  collect db (message_def d) =
      if d.message_id == libs.independent_signals_message_id
      then db
      else record db { messages = db.messages ++ (new_message d ∷ []) }
  collect db (nodes_def names) = record db { nodes = db.nodes ++ map new_node names }
  collect db _ = db

  unfoldable pub collect_all : Database → List Def → Database
  collect_all db [] = db
  collect_all db (d ∷ ds) = collect_all (collect db d) ds

  abbrev pub modify_found {ℓ} : {A : Type ℓ} → Option ℕ → (A → A) → List A → List A
  modify_found none f xs = xs
  modify_found (some n) f xs = modify n f xs

  abbrev pub with_message : Database → ℕ → (Message → Message) → Database
  with_message db message_id f = record db {
    messages = modify_found (libs.message_at db.messages (libs.to_can message_id)) f db.messages;
  }

  abbrev pub modify_signal : Option (ℕ × ℕ) → (Signal → Signal) → List Message → List Message
  modify_signal none f ms = ms
  modify_signal (some (i, j)) f ms = modify i (λ m. record m { signals = modify j f m.signals }) ms

  abbrev pub with_signal : Database → ℕ → Bytes → (Signal → Signal) → Database
  with_signal db message_id name f = record db {
    messages =
        modify_signal (libs.signal_at db.messages (libs.to_can message_id) name) f db.messages;
  }

  abbrev pub unless_independent : ℕ → Database → Database → Database
  unless_independent message_id db db' =
      if message_id == libs.independent_signals_message_id then db else db'

  abbrev pub comment : Database → ObjectType → ObjectRef → Bytes → Database
  comment db object_message o text =
      unless_independent o.message_id db
        (with_message db o.message_id (λ m. record m { description = text }))
  comment db object_signal o text =
      unless_independent o.message_id db
        (with_signal db o.message_id o.signal_name (λ s. record s { description = text }))
  comment db object_network_node o text = record db {
    nodes =
        modify_found (libs.node_at db.nodes o.node_name) (λ n. record n { description = text })
          db.nodes;
  }
  comment db object_other o text = db

  abbrev pub described : ℕ × Bytes → ValueDescription
  described (value, text) = record { value = libs.float_to_int64 value; description = text }

  abbrev pub describe_values : Database → ObjectType → ObjectRef → List (ℕ × Bytes) → Database
  describe_values db object_signal o vs =
      with_signal db o.message_id o.signal_name
        (λ s. record s { value_descriptions = s.value_descriptions ++ map described vs })
  describe_values db _ o vs = db

  -- time.Duration is held in 64 bits.
  abbrev pub milliseconds : ℕ → ℕ
  milliseconds n = (n * 1000000) % 2 ^ 64

  abbrev pub set_message_attribute : Bytes → Bytes → ℕ → Message → Message
  set_message_attribute name text value m =
      if equal name (codes "GenMsgSendType")
      then record m { send_type = libs.unmarshal_send_type text m.send_type }
      else if equal name (codes "GenMsgCycleTime")
      then record m { cycle_time = milliseconds value }
      else if equal name (codes "GenMsgDelayTime")
      then record m { delay_time = milliseconds value }
      else m

  abbrev pub set_signal_attribute : Bytes → ℕ → Signal → Signal
  set_signal_attribute name value s =
      if equal name (codes "GenSigStartValue") then record s { default_value = value } else s

  abbrev pub set_attribute : Database → ObjectType → ObjectRef → Bytes → Bytes → ℕ → Database
  set_attribute db object_message o name text value =
      with_message db o.message_id (set_message_attribute name text value)
  set_attribute db object_signal o name text value =
      with_signal db o.message_id o.signal_name (set_signal_attribute name value)
  set_attribute db _ o name text value = db

  abbrev pub set_float : Bool → Signal → Signal
  set_float is_float32 s = if is_float32 && s.length == 32 then record s { is_float = true } else s

  -- The second pass over one definition.
  unfoldable pub annotate : Database → Def → Database
  annotate db (comment_def o text) = comment db o.object_type o text
  annotate db (value_descriptions_def o vs) =
      unless_independent o.message_id db (describe_values db o.object_type o vs)
  annotate db (signal_value_type_def message_id name is_float32) =
      with_signal db message_id name (set_float is_float32)
  annotate db (attribute_value_def o name text value) =
      set_attribute db o.object_type o name text value
  annotate db _ = db

  unfoldable pub annotate_all : Database → List Def → Database
  annotate_all db [] = db
  annotate_all db (d ∷ ds) = annotate_all (annotate db d) ds

  abbrev pub sort_descriptions : Signal → Signal
  sort_descriptions s = record s {
    value_descriptions =
        libs.sort ValueDescription (λ v w. int64_less v.value w.value) s.value_descriptions;
  }

  abbrev pub sort_signals : Message → Message
  sort_signals m = record m {
    signals = map sort_descriptions (libs.sort Signal signal_less m.signals);
  }

  unfoldable pub sorted : Database → Database
  sorted db = record db {
    nodes = libs.sort Node (λ n k. libs.text_less n.name k.name) db.nodes;
    messages = map sort_signals (libs.sort Message (λ m k. ltb m.id k.id) db.messages);
  }

  abbrev pub empty : Bytes → Database
  empty source_file = record { source_file = source_file; version = []; messages = []; nodes = [] }

  unfoldable pub compile : Bytes → List Def → Database
  unfolding collect_all annotate_all sorted
  compile source_file ds = sorted (annotate_all (collect_all (empty source_file) ds) ds)

  -- Load; reading the file and its grammar are parameters, `none` an error of theirs.
  unfoldable pub load :
      (Bytes → Option Bytes) → (Bytes → Bytes → Option (List Def)) → Bytes → Option Database
  unfolding compile
  load read_file parse path = do
    bytes ← read_file path
    defs ← parse path bytes
    some (compile path defs)
