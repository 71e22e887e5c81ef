-- ===== src/Mf4Client/Tests.antt =====
-- A session of the client, and the theorem at it.
use cantou.Common.{
  ℕ, ◌≡◌, refl, ◌%◌, ◌^◌, equal, Bool, true, false, some, none, List, [], ◌∷◌, map, arith, Bytes,
  codes, length, replicate,
}
use cantou.Models.{CanMessageTimestamped}
use cantou.Client.Filters.{FilterSet, should_filter, remote_filter, CanRemoteFilterStatus}
use cantou.Common.Words.{put_le}
use cantou.Mf4.Outcome.{ok}
use cantou.Mf4.Metadata.{layout_can, layout_signal}
use cantou.Mf4.Writer.{Writer, new_writer, close}
use cantou.Mf4.Record.{can_frame, id_bytes}
use cantou.Mf4.Reader.{parse, rebase}
use cantou.Mf4.Decode.{entry}
use cantou.Mf4Client.{Mf4LogConfig, Client, refused, new_client, handle_can_message_channel}
use cantou.Mf4Client.Recording.{frame_of, kept, handle_can_message_channel-parse}

-- stand for the bits of a float64 and for the number read from them
abbrev as_bits : ℕ → ℕ
as_bits n = n % 2 ^ 64

abbrev as_integer : ℕ → ℕ
as_integer n = n

abbrev writable : Bytes → Bool
writable path = true

abbrev cfg : Mf4LogConfig
cfg = record {
  can_output_file = codes "can.mf4";
  signal_output_file = codes "s.mf4";
  finalize = true;
}

abbrev client : Client
client = record {
  can_writer = some (new_writer layout_can);
  signal_writer = some (new_writer layout_signal);
  finalize = true;
  filters = [];
}

abbrev frame : ℕ → Bool → Bytes → CanMessageTimestamped
frame id remote bytes = record {
  timestamp = 1000;
  interface = 0;
  id = id;
  transmit = false;
  remote = remote;
  length = length bytes;
  bytes = bytes;
}

abbrev remotes : FilterSet
remotes = (codes "remote", λ m. some (remote_filter CanRemoteFilterStatus.remote_only m)) ∷ []

abbrev session : List CanMessageTimestamped
session =
    frame 1 false (1 ∷ 2 ∷ [])
    ∷ frame 2 true []
    ∷ frame 3 false (replicate 65 0)
    ∷ frame 4 false []
    ∷ []

session-kept : kept remotes session ≡ frame 1 false (1 ∷ 2 ∷ []) ∷ frame 4 false [] ∷ []
unfolding should_filter
session-kept = refl

-- Without the file for signals there is no client, and the file for frames is closed again.
signal_file_refused :
    new_client (equal cfg.can_output_file) cfg ≡ refused (some (close (new_writer layout_can)))
unfolding new_client equal
signal_file_refused = refl

handle_can_message_channel-parse_example :
    (w : Writer) × (handle_can_message_channel as_bits (record client { filters = remotes }) session
      ≡ some (record client { filters = remotes; can_writer = none }, some w))
    × (parse as_integer 2 w.file
        ≡ ok (rebase (map (entry as_integer) (map (frame_of as_bits) (kept remotes session)))))
handle_can_message_channel-parse_example =
    handle_can_message_channel-parse as_bits as_integer writable cfg client remotes 0 session
      (unfold new_client equal in refl) (λ e. cc) (λ n. omega arith) (omega arith)
      (unfold should_filter in ((λ e. cc), ((λ e. cc), ((λ e. cc), ((λ e. cc), tt)))))
      (unfold should_filter put_le can_frame id_bytes in omega arith)
