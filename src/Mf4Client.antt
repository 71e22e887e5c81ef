-- ===== src/Mf4Client.antt =====
-- internal/output/mf4/client.go: the goroutines that append frames and signals to MDF4 files, and
-- what they leave on disk. Opening a file, the filters and the bits of a time as a float64 are
-- parameters; what the loop receives is the list of frames until its channel is closed.
use cantou.Common.{
  ℕ, Bool, true, false, Option, none, some, List, [], ◌∷◌, Bytes, equal, if◌then◌else◌, ◌>>=◌,
}
use cantou.Models.{CanMessageTimestamped, CanSignalTimestamped}
use cantou.Client.Filters.{FilterSet, FilterInterface, should_filter, add}
use cantou.Mf4.Metadata.{layout_can, layout_signal}
use cantou.Mf4.Writer.{
  Writer, Appended, new_writer, append_can, append_signal, close, close_unfinalized,
}
pub mod Recording
mod Tests

pub record Mf4LogConfig : Type 0 where
  pub can_output_file : Bytes
  pub signal_output_file : Bytes
  pub finalize : Bool

pub record Client : Type 0 where
  pub can_writer : Option Writer
  pub signal_writer : Option Writer
  pub finalize : Bool
  pub filters : FilterSet

-- A refusal keeps the writer of frames that had been opened and is closed again.
pub data NewClient : Type 0 where
  created : Client → NewClient
  refused : Option Writer → NewClient

abbrev pub close_opened : Option Writer → Option Writer
close_opened none = none
close_opened (some w) = some (close w)

module _ (opens : Bytes → Bool) where
  -- The signal file, behind the file for frames.
  unfoldable pub new_client_signals : Mf4LogConfig → Option Writer → NewClient
  new_client_signals cfg can_writer =
      if equal cfg.signal_output_file []
      then created (record {
        can_writer = can_writer;
        signal_writer = none;
        finalize = cfg.finalize;
        filters = [];
      })
      else if opens cfg.signal_output_file
      then created (record {
        can_writer = can_writer;
        signal_writer = some (new_writer layout_signal);
        finalize = cfg.finalize;
        filters = [];
      })
      else refused (close_opened can_writer)

  unfoldable pub new_client : Mf4LogConfig → NewClient
  unfolding new_client_signals
  new_client cfg =
      if equal cfg.can_output_file []
      then new_client_signals cfg none
      else if opens cfg.can_output_file
      then new_client_signals cfg (some (new_writer layout_can))
      else refused none

-- `none` stands for the error that the name is taken.
abbrev pub add_filter : Client → Bytes → FilterInterface → Option Client
add_filter c name f = do filters ← add c.filters name f; some (record c { filters = filters })

module _ (float_bits : ℕ → ℕ) where
  abbrev write_can : Client → CanMessageTimestamped → Writer → Client
  write_can c m w = record c {
    can_writer = some (append_can w (float_bits m.timestamp) m.id m.transmit m.bytes).0;
  }

  -- Behind the filters; an append that fails is logged.
  abbrev unless_filtered : Client → CanMessageTimestamped → Writer → Option Bytes → Client
  unless_filtered c m w none = write_can c m w
  unless_filtered c m w (some name) = c

  abbrev handle_with : Client → CanMessageTimestamped → Option Writer → Option Client
  handle_with c m none = some c
  handle_with c m (some w) = do
    filtered ← should_filter c.filters m
    some (unless_filtered c m w filtered)

  -- `none` when a filter panics.
  unfoldable pub handle_can_message : Client → CanMessageTimestamped → Option Client
  handle_can_message c m = handle_with c m c.can_writer

  unfoldable pub handle_can_messages : Client → List CanMessageTimestamped → Option Client
  handle_can_messages c [] = some c
  handle_can_messages c (m ∷ ms) = do c' ← handle_can_message c m; handle_can_messages c' ms

  abbrev write_signal : Client → CanSignalTimestamped → Option Writer → Client
  write_signal c s none = c
  write_signal c s (some w) = record c {
    signal_writer =
        some
          (append_signal w (float_bits s.timestamp) s.id s.interface s.value s.message s.signal
            s.unit).0;
  }

  unfoldable pub handle_signal : Client → CanSignalTimestamped → Client
  handle_signal c s = write_signal c s c.signal_writer

  unfoldable pub handle_signals : Client → List CanSignalTimestamped → Client
  handle_signals c [] = c
  handle_signals c (s ∷ ss) = handle_signals (handle_signal c s) ss

-- How a writer is left, by the flag.
abbrev pub closed_by : Bool → Writer → Writer
closed_by true w = close w
closed_by false w = close_unfinalized w

abbrev closed_option : Bool → Option Writer → Option Writer
closed_option finalize none = none
closed_option finalize (some w) = some (closed_by finalize w)

-- The client without its writer, and the file that the writer leaves.
unfoldable pub close_can : Client → Client × Option Writer
close_can c = (record c { can_writer = none }, closed_option c.finalize c.can_writer)

unfoldable pub close_signal : Client → Client × Option Writer
close_signal c = (record c { signal_writer = none }, closed_option c.finalize c.signal_writer)

module _ (float_bits : ℕ → ℕ) where
  unfoldable pub handle_can_message_channel :
      Client → List CanMessageTimestamped → Option (Client × Option Writer)
  unfolding close_can
  handle_can_message_channel c ms = do c' ← handle_can_messages float_bits c ms; some (close_can c')

  unfoldable pub handle_signal_channel : Client → List CanSignalTimestamped → Client × Option Writer
  unfolding close_signal handle_signals
  handle_signal_channel c ss = close_signal (handle_signals float_bits c ss)
