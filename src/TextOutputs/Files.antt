-- ===== src/TextOutputs/Files.antt =====
-- internal/parser/crtd/writer.go and internal/parser/csv/writer.go: the buffered writers of the text
-- outputs, and what they open their files with. A write to the file system succeeds. How much of its
-- buffer the library passes on early is a parameter; the rest waits for a flush.
use cantou.Common.{
  ℕ, ◌+◌, Bool, true, false, List, [], ◌∷◌, ◌++◌, Bytes, codes, take, drop, if◌then◌else◌,
}
use cantou.Common.Decimal.{format_uint}
use cantou.Common.Split.{join}
use cantou.Config.{CanInterface}

-- `file` is what is on disk, `buffer` what has not been passed on; closing forgets the file pointer.
pub record FileWriter : Type 0 where
  pub file : Bytes
  pub buffer : Bytes
  pub opened : Bool

abbrev pub newline : ℕ
newline = 10

-- The CXX line of one interface.
abbrev interface_line : ℕ → CanInterface → Bytes
interface_line index i =
    codes "0.000000 CXX Info Type:'interface'; ID:'"
    ++ (format_uint index
        ++ (codes "'; Name:'"
            ++ (i.name
                ++ (codes "'; URI:'"
                    ++ (i.uri
                        ++ (codes "'; Network:'"
                            ++ (i.network
                                ++ (codes "'; DBC:'"
                                    ++ (join b',' i.dbc_files
                                        ++ (codes "';" ++ (newline ∷ [])))))))))))

unfoldable pub interface_lines : ℕ → List CanInterface → Bytes
interface_lines index [] = []
interface_lines index (i ∷ is) = interface_line index i ++ interface_lines (index + 1) is

unfoldable pub crtd_header : List CanInterface → Bytes
unfolding interface_lines
crtd_header is =
    codes "0.000000 CXX CRTD file created by cantou" ++ (newline ∷ interface_lines 0 is)

module _ (passed_on : Bytes → ℕ) where
  unfoldable pub write : FileWriter → Bytes → FileWriter
  write w s =
      let all = w.buffer ++ s in
      record w { file = w.file ++ take (passed_on all) all; buffer = drop (passed_on all) all }

unfoldable pub flush : FileWriter → FileWriter
flush w = record w { file = w.file ++ w.buffer; buffer = [] }

-- Safe to call more than once.
unfoldable pub close : FileWriter → FileWriter
unfolding flush
close w = if w.opened then record (flush w) { opened = false } else w

-- The file is opened for appending to what it holds.
abbrev pub open_file : Bytes → FileWriter
open_file old = record { file = old; buffer = []; opened = true }

module _ (passed_on : Bytes → ℕ) where
  -- NewCANWriter of the CRTD output flushes its header, that of the CSV output does not.
  unfoldable pub new_crtd_can_writer : List CanInterface → Bytes → FileWriter
  unfolding write flush crtd_header
  new_crtd_can_writer is old = flush (write passed_on (open_file old) (crtd_header is))

  unfoldable pub new_csv_writer : (List Bytes → Bytes) → List Bytes → Bool → Bytes → FileWriter
  unfolding write
  new_csv_writer encode_row headers include_headers old =
      if include_headers
      then write passed_on (open_file old) (encode_row headers)
      else open_file old

abbrev pub can_headers : List Bytes
can_headers =
    codes "timestamp"
    ∷ (codes "id"
        ∷ (codes "interface"
            ∷ (codes "remote" ∷ (codes "transmit" ∷ (codes "length" ∷ (codes "data" ∷ []))))))

abbrev pub signal_headers : List Bytes
signal_headers =
    codes "timestamp"
    ∷ (codes "interface"
        ∷ (codes "message" ∷ (codes "signal" ∷ (codes "value" ∷ (codes "unit" ∷ [])))))
