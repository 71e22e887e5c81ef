-- ===== src/Obd/Rfcomm.antt =====
-- internal/obd/sdp.go, transport_rfcomm_linux.go and transport.go: finding the channel of a Bluetooth
-- adapter and opening a transport to it. What a system call comes to is an input; the calls that are
-- made are a list.
use mathlib.Core.List.{reverse}
use cantou.Common.{
  ℕ, ◌+◌, ◌*◌, ◌/◌, ◌%◌, Bool, true, false, ◌&&◌, ◌||◌, ◌==◌, ltb, Option, none, some, List, [],
  ◌∷◌, ◌++◌, Bytes, if◌then◌else◌, ◌>>=◌, length, drop,
}
use cantou.Obd.Target.{Target, target_serial, target_rfcomm, bdaddr, parse_uri}
pub mod Calls
mod Tests

-- binary.BigEndian.PutUint16
abbrev pub big_endian16 : ℕ → Bytes
big_endian16 n = (n / 256 % 256) ∷ (n % 256 ∷ [])

abbrev search_pattern : Bytes
search_pattern = 0x35 ∷ (3 ∷ (0x19 ∷ (0x11 ∷ (0x01 ∷ []))))

abbrev attribute_list : Bytes
attribute_list = 0x35 ∷ (3 ∷ (0x09 ∷ (0 ∷ (0x04 ∷ []))))

abbrev params : Bytes
params = search_pattern ++ (0xFF ∷ (0xFF ∷ (attribute_list ++ (0 ∷ []))))

unfoldable pub build_request : ℕ → Bytes
build_request transaction_id =
    0x06 ∷ (big_endian16 transaction_id ++ (big_endian16 (length params) ++ params))

-- The test of one round of the loop, at what is left of the body.
abbrev pub channel_at : Bytes → Option ℕ
channel_at (a ∷ (b ∷ (c ∷ (d ∷ (e ∷ s))))) =
    if a == 0x19 && (b == 0 && (c == 0x03 && d == 0x08)) then some e else none
channel_at _ = none

abbrev or_later : Option ℕ → Option ℕ → Option ℕ
or_later none later = later
or_later (some channel) later = some channel

unfoldable pub scan : Bytes → Option ℕ
scan [] = none
scan (a ∷ s) = or_later (channel_at (a ∷ s)) (scan s)

abbrev starts_with : ℕ → Bytes → Bool
starts_with b [] = false
starts_with b (c ∷ s) = c == b

-- `none` stands for an error.
unfoldable pub parse_rfcomm_channel : Bytes → Option ℕ
parse_rfcomm_channel resp =
    if ltb (length resp) 5 then none else if starts_with 0x07 resp then scan (drop 5 resp) else none

pub data Socket : Type 0 where
  sdp_socket rfcomm_socket : Socket

-- A call on a socket that succeeded, but for `closed`, with what it was given. The read of the reply and the
-- calls that failed are not among them.
pub data Call : Type 0 where
  opened closed : Socket → Call
  connected_sdp : Bytes → Call
  connected_rfcomm : Bytes → ℕ → Call
  timeout_set : Socket → ℕ → Call
  wrote : Bytes → Call

-- What the system calls come to, in the order in which they are made.
pub record Outcomes : Type 0 where
  pub sdp_opens : Bool
  pub sdp_connects : Bool
  pub sdp_takes_timeout : Bool
  pub sdp_writes : Bool
  pub sdp_reply : Option Bytes
  pub rfcomm_opens : Bool
  pub rfcomm_connects : Bool
  pub rfcomm_takes_timeout : Bool

abbrev or_default : ℕ → ℕ → ℕ
or_default default timeout = if timeout == 0 then default else timeout

abbrev parse_reply : Option Bytes → Option ℕ
parse_reply none = none
parse_reply (some resp) = parse_rfcomm_channel resp

-- The calls behind the one that opened the socket; the deferred close is the last.
abbrev sdp_session : Bytes → ℕ → Outcomes → List Call × Option ℕ
sdp_session mac read_timeout o =
    if o.sdp_connects
    then (if o.sdp_takes_timeout
        then (if o.sdp_writes
            then (
              connected_sdp (bdaddr mac)
                  ∷ (timeout_set sdp_socket (2 * or_default 1000000000 read_timeout)
                      ∷ (wrote (build_request 1) ∷ (closed sdp_socket ∷ []))),
              parse_reply o.sdp_reply,
            )
            else (
              connected_sdp (bdaddr mac)
                  ∷ (timeout_set sdp_socket (2 * or_default 1000000000 read_timeout)
                      ∷ (closed sdp_socket ∷ [])),
              none,
            ))
        else (connected_sdp (bdaddr mac) ∷ (closed sdp_socket ∷ []), none))
    else (closed sdp_socket ∷ [], none)

-- Timeouts are in nanoseconds, and 0 stands for all that are not positive.
unfoldable pub discover_spp_channel : Bytes → ℕ → Outcomes → List Call × Option ℕ
unfolding build_request parse_rfcomm_channel
discover_spp_channel mac read_timeout o =
    let session = sdp_session mac read_timeout o in
    if o.sdp_opens then (opened sdp_socket ∷ session.0, session.1) else ([], none)

abbrev or_default_channel : Option ℕ → ℕ
or_default_channel none = 1
or_default_channel (some channel) = channel

abbrev chosen : ℕ → List Call × Option ℕ → List Call × ℕ
chosen channel (calls, found) =
    if channel == 0 then (calls, or_default_channel found) else ([], channel)

abbrev rfcomm_session : Bytes → ℕ → ℕ → Outcomes → List Call × Bool
rfcomm_session mac channel read_timeout o =
    if o.rfcomm_opens
    then (if o.rfcomm_connects
        then (if o.rfcomm_takes_timeout
            then (
              opened rfcomm_socket
                  ∷ (connected_rfcomm (bdaddr mac) channel
                      ∷ (timeout_set rfcomm_socket (or_default 50000000 read_timeout) ∷ [])),
              true,
            )
            else (
              opened rfcomm_socket
                  ∷ (connected_rfcomm (bdaddr mac) channel ∷ (closed rfcomm_socket ∷ [])),
              false,
            ))
        else (opened rfcomm_socket ∷ (closed rfcomm_socket ∷ []), false))
    else ([], false)

-- The calls that are made, and whether there is a transport.
unfoldable pub open_rfcomm : Bytes → ℕ → ℕ → Outcomes → List Call × Bool
unfolding discover_spp_channel
open_rfcomm mac channel read_timeout o =
    let choice = chosen channel (discover_spp_channel mac read_timeout o) in
    let session = rfcomm_session mac choice.1 read_timeout o in (choice.0 ++ session.0, session.1)

-- What a read of the socket comes to, and what the transport makes of it.
pub data SystemRead : Type 0 where
  got : Bytes → SystemRead
  would_block failed : SystemRead

pub data TransportRead : Type 0 where
  bytes_read : Bytes → TransportRead
  nothing end_of_file error : TransportRead

unfoldable pub transport_read : Bool → SystemRead → TransportRead
transport_read is_closed (got []) = end_of_file
transport_read is_closed (got (b ∷ s)) = bytes_read (b ∷ s)
transport_read is_closed would_block = nothing
transport_read true failed = end_of_file
transport_read false failed = error

-- Whether a serial port opens is a parameter.
abbrev open_target : (Bytes → ℕ → ℕ → Bool) → Target → ℕ → ℕ → Outcomes → List Call × Bool
open_target open_serial (target_serial path) baud read_timeout o =
    ([], open_serial path baud (or_default 50000000 read_timeout))
open_target open_serial (target_rfcomm mac text channel) baud read_timeout o =
    open_rfcomm mac channel read_timeout o

-- Open; `none` when the URI is refused.
unfoldable pub open_transport :
    (Bytes → ℕ → ℕ → Bool) → Bytes → ℕ → ℕ → Outcomes → Option (List Call × Bool)
unfolding open_rfcomm
open_transport open_serial uri baud read_timeout o = do
  target ← parse_uri uri
  some (open_target open_serial target baud read_timeout o)
