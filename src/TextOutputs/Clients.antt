-- ===== src/TextOutputs/Clients.antt =====
-- internal/output/crtd/client.go and internal/output/csv/client.go: the clients that write frames and
-- signals as text. The two have the same loops; the text of a record, its line end included, and the
-- writers that a configuration opens are what they differ in.
use cantou.Common.{
  ℕ, Bool, Option, none, some, List, [], ◌∷◌, ◌++◌, Bytes, equal, if◌then◌else◌, ◌>>=◌,
}
use cantou.Models.{CanMessageTimestamped, CanSignalTimestamped}
use cantou.Client.Filters.{FilterSet, FilterInterface, should_filter, add}
use cantou.Config.{CanInterface}
use cantou.TextOutputs.{crtd_can_line, crtd_signal_line, csv_can_row, csv_signal_row, name_or_nil}
use cantou.TextOutputs.Files.{
  FileWriter, newline, write, flush, close, open_file, new_crtd_can_writer, new_csv_writer,
  can_headers, signal_headers,
}

pub record TextClient : Type 0 where
  pub can_writer : Option FileWriter
  pub signal_writer : Option FileWriter
  pub filters : FilterSet

-- What a goroutine meets: a value from its channel or a tick of its timer; the channel is closed at
-- the end of the list.
pub data Event {ℓ} (A : Type ℓ) : Type ℓ where
  received : A → Event A
  tick : Event A

-- A refusal keeps the writer of frames that had been opened and is closed again.
pub data NewClient : Type 0 where
  created : TextClient → NewClient
  refused : Option FileWriter → NewClient

abbrev on_writer : (FileWriter → FileWriter) → Option FileWriter → Option FileWriter
on_writer f none = none
on_writer f (some w) = some (f w)

-- Opening gives what a file holds, or fails.
module _ (opens : Bytes → Option Bytes) (can_writer signal_writer : Bytes → FileWriter) where
  abbrev with_signals : Option FileWriter → Option Bytes → NewClient
  with_signals can none = refused (on_writer close can)
  with_signals can (some old) =
      created (record { can_writer = can; signal_writer = some (signal_writer old); filters = [] })

  unfoldable pub new_client_signals : Bytes → Option FileWriter → NewClient
  new_client_signals signal_path can =
      if equal signal_path []
      then created (record { can_writer = can; signal_writer = none; filters = [] })
      else with_signals can (opens signal_path)

  abbrev with_frames : Bytes → Option Bytes → NewClient
  with_frames signal_path none = refused none
  with_frames signal_path (some old) = new_client_signals signal_path (some (can_writer old))

  -- NewClient, by the paths of the two files.
  unfoldable pub new_client : Bytes → Bytes → NewClient
  unfolding new_client_signals
  new_client can_path signal_path =
      if equal can_path []
      then new_client_signals signal_path none
      else with_frames signal_path (opens can_path)

-- `none` stands for the error that the name is taken.
abbrev pub add_filter : TextClient → Bytes → FilterInterface → Option TextClient
add_filter c name f = do filters ← add c.filters name f; some (record c { filters = filters })

module _ (passed_on : Bytes → ℕ) where
  module _ (can_text : CanMessageTimestamped → Bytes) where
    abbrev unless_filtered :
        TextClient → CanMessageTimestamped → FileWriter → Option Bytes → TextClient
    unless_filtered c m w none = record c { can_writer = some (write passed_on w (can_text m)) }
    unless_filtered c m w (some name) = c

    abbrev handle_with : TextClient → CanMessageTimestamped → Option FileWriter → Option TextClient
    handle_with c m none = some c
    handle_with c m (some w) = do
      filtered ← should_filter c.filters m
      some (unless_filtered c m w filtered)

    -- `none` when a filter panics.
    unfoldable pub handle_can_message : TextClient → CanMessageTimestamped → Option TextClient
    handle_can_message c m = handle_with c m c.can_writer

    unfoldable pub handle_can_event : TextClient → Event CanMessageTimestamped → Option TextClient
    unfolding handle_can_message flush
    handle_can_event c (received m) = handle_can_message c m
    handle_can_event c tick = some (record c { can_writer = on_writer flush c.can_writer })

    unfoldable pub handle_can_events :
        TextClient → List (Event CanMessageTimestamped) → Option TextClient
    handle_can_events c [] = some c
    handle_can_events c (e ∷ es) = do c' ← handle_can_event c e; handle_can_events c' es

    -- At the end the loop flushes, and the deferred function closes.
    unfoldable pub handle_can_message_channel :
        TextClient → List (Event CanMessageTimestamped) → Option TextClient
    unfolding flush close
    handle_can_message_channel c es = do
      c' ← handle_can_events c es
      some (record c' { can_writer = on_writer close (on_writer flush c'.can_writer) })

  module _ (signal_text : CanSignalTimestamped → Bytes) where
    unfoldable pub handle_signal_event : TextClient → Event CanSignalTimestamped → TextClient
    unfolding flush
    handle_signal_event c (received s) = record c {
      signal_writer = on_writer (λ w. write passed_on w (signal_text s)) c.signal_writer;
    }
    handle_signal_event c tick = record c { signal_writer = on_writer flush c.signal_writer }

    unfoldable pub handle_signal_events :
        TextClient → List (Event CanSignalTimestamped) → TextClient
    handle_signal_events c [] = c
    handle_signal_events c (e ∷ es) = handle_signal_events (handle_signal_event c e) es

    unfoldable pub handle_signal_channel :
        TextClient → List (Event CanSignalTimestamped) → TextClient
    unfolding flush close handle_signal_events
    handle_signal_channel c es =
        let c' = handle_signal_events c es in
        record c' { signal_writer = on_writer close (on_writer flush c'.signal_writer) }

-- The texts of the CRTD output.
abbrev pub crtd_can_text : CanMessageTimestamped → Bytes
crtd_can_text m = crtd_can_line m.timestamp m.interface m.id m.transmit m.bytes ++ (newline ∷ [])

abbrev pub crtd_signal_text : (ℕ → Bytes) → CanSignalTimestamped → Bytes
crtd_signal_text format_float s = crtd_signal_line format_float s.interface s ++ (newline ∷ [])

-- Those of the CSV output; the quoting of a row is encoding/csv's.
abbrev pub csv_can_text : (List Bytes → Bytes) → (ℕ → Option Bytes) → CanMessageTimestamped → Bytes
csv_can_text encode_row resolver m = encode_row (csv_can_row (name_or_nil (resolver m.interface)) m)

abbrev pub csv_signal_text :
    (List Bytes → Bytes) → (ℕ → Bytes) → (ℕ → Option Bytes) → CanSignalTimestamped → Bytes
csv_signal_text encode_row format_float resolver s =
    encode_row (csv_signal_row format_float (name_or_nil (resolver s.interface)) s)

module _ (opens : Bytes → Option Bytes) (passed_on : Bytes → ℕ) where
  unfoldable pub new_crtd_client : List CanInterface → Bytes → Bytes → NewClient
  unfolding new_client new_crtd_can_writer
  new_crtd_client interfaces = new_client opens (new_crtd_can_writer passed_on interfaces) open_file

  unfoldable pub new_csv_client : (List Bytes → Bytes) → Bool → Bytes → Bytes → NewClient
  unfolding new_client new_csv_writer
  new_csv_client encode_row include_headers =
      new_client opens (new_csv_writer passed_on encode_row can_headers include_headers)
        (new_csv_writer passed_on encode_row signal_headers include_headers)
