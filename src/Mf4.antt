-- ===== src/Mf4.antt =====
-- internal/parser/mf4 and internal/connection/playback/mf4.go: ASAM MDF4 files, written and read.
pub mod Outcome
pub mod Blocks
pub mod Record
pub mod Metadata
pub mod Writer
pub mod FileBlocks
pub mod Vlsd
pub mod Reader
pub mod Stream
pub mod Collect
pub mod Decode
pub mod RoundTrip
pub mod Loops
pub mod BlockRoundTrip
pub mod TextRoundTrip
pub mod Appending
pub mod Faults
mod Tests
