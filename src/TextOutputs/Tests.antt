-- ===== src/TextOutputs/Tests.antt =====
-- Records and sessions of the text outputs, and the theorems at them.
use cantou.Common.{ℕ, ◌≡◌, refl, some, none, true, false, List, [], ◌∷◌, ◌++◌, Bytes, codes, length}
use cantou.Common.Decimal.{format_uint}
use cantou.Common.HexUint.{format_upper_hex}
use cantou.Common.Split.{join}
use cantou.Models.{CanMessageTimestamped}
use cantou.Client.Filters.{FilterSet, should_filter, interface_filter}
use cantou.TextOutputs.{crtd_can_line}
use cantou.TextOutputs.Files.{FileWriter, newline, new_crtd_can_writer}
use cantou.TextOutputs.Clients.{
  TextClient, Event, received, tick, handle_can_message_channel, csv_can_text,
}
use cantou.TextOutputs.Written.{passed, texts, handle_can_message_channel-written}

extended_line :
    crtd_can_line 1500000000 1 0x18DAF110 false (2 ∷ (255 ∷ []))
    ≡ codes "1.500000 1R29 18DAF110 02 FF"
unfolding crtd_can_line format_uint format_upper_hex
extended_line = refl

abbrev frame : ℕ → ℕ → Bytes → CanMessageTimestamped
frame interface id bytes = record {
  timestamp = 1500000999;
  interface = interface;
  id = id;
  transmit = false;
  remote = false;
  length = length bytes;
  bytes = bytes;
}

-- Frames of interface 1 are filtered out.
abbrev filters : FilterSet
filters = (codes "one", λ m. some (interface_filter 1 m)) ∷ []

abbrev events : List (Event CanMessageTimestamped)
events =
    received (frame 0 0x7E8 (2 ∷ (255 ∷ [])))
    ∷ (tick ∷ (received (frame 1 2 []) ∷ (received (frame 0 3 []) ∷ [])))

events-passed : passed filters events ≡ frame 0 0x7E8 (2 ∷ (255 ∷ [])) ∷ (frame 0 3 [] ∷ [])
unfolding should_filter
events-passed = refl

-- stands for how much the library passes on early
abbrev passed_on : Bytes → ℕ
passed_on s = 3

-- stands for the quoting of a row
abbrev encode_row : List Bytes → Bytes
encode_row row = join b',' row ++ (newline ∷ [])

abbrev a_writer : FileWriter
a_writer = record { file = codes "old"; buffer = codes "er"; opened = true }

handle_can_message_channel-written_example :
    handle_can_message_channel passed_on
      (csv_can_text encode_row (λ i. none))
      (record { can_writer = some a_writer; signal_writer = none; filters = filters })
      events
    ≡ some (record {
      can_writer = some (record {
        file = codes "older" ++ texts (csv_can_text encode_row (λ i. none)) (passed filters events);
        buffer = [];
        opened = false;
      });
      signal_writer = none;
      filters = filters;
    })
handle_can_message_channel-written_example =
    handle_can_message_channel-written passed_on (csv_can_text encode_row (λ i. none)) none filters
      a_writer events refl (unfold should_filter in ((λ e. cc), (tt, ((λ e. cc), ((λ e. cc), tt)))))

abbrev client : TextClient
client = record {
  can_writer = some (new_crtd_can_writer passed_on [] []);
  signal_writer = none;
  filters = [];
}
