-- ===== src/Lib.antt =====
-- CANtou, a bridge for CAN buses: it receives frames from interfaces, log files and OBD adapters,
-- passes them through filters and dispatchers to clients, decodes them to signals, and writes frames
-- and signals to files and services. This library models its own logic, in the order a frame
-- takes through it.
--
-- How the parts interact. A connection (internal/connection, internal/obd) yields frames of the type
-- CanMessageTimestamped. The message dispatcher (internal/client/message-dispatch) fans each frame
-- out to the buffered channels of its listeners, under the filters of internal/client/filter. One
-- listener is the signal dispatcher (internal/client/signal-dispatch): a parser decodes each frame to
-- signals, internal/parser/obd2 expands the bitmasks of supported PIDs, the rules of
-- internal/client/signal-filter drop signals, and the rest goes to every listener. Outputs keep sets
-- of named filters (internal/client/common), among them the duplicate filter
-- (internal/client/dedupe). The InfluxDB output (internal/output/influxdb) gathers frames and signals
-- into blocks for its workers. The MDF4 output (internal/parser/mf4) writes files that the playback
-- connection (internal/connection/playback) reads back as frames, as it does text logs. An OBD
-- connection (internal/connection/obdconn) drives an adapter (internal/obd) over a serial transport
-- and connects again when that fails.
--
-- The files.
--   Models: internal/models/can.go.
--   Common: lists, texts, words, maps, parts of texts, and decimal and hexadecimal numbers, with their
--     lemmas.
--   Config: internal/config/flags.go, the texts of identifier lists and interfaces and the signal
--     filters of flags, and args.go, the checks and the path of the configuration file.
--   Client/Filters: internal/client/filter/types.go and internal/client/common/utils.go. A filter is
--     a function of the frame into Option Bool, where none is a panic. A set of filters is an
--     association list whose order stands for the order of Go's range loop.
--   Client/Dedupe: dedupe.go. `filter` is the whole of Filter, with its clock readings as an
--     argument: one for each call of time.Now or time.Since, in whole nanoseconds. FNV-1a is written out.
--   Client/Outlet: the select statement with a default that both dispatchers use to send, and the
--     counter of dropped values, a 64-bit word.
--   Client/MessageDispatch: dispatcher.go. Add, Remove, testFilterGroup, DroppedCount, and
--     `broadcast` for the loop body of one frame. `Step` and `Reachable` are the interleavings of
--     these operations with receives of the clients; a broadcast of one frame is one step.
--   Client/SignalDispatch: dispatcher.go. The three nested loops of Dispatch.
--   Client/SignalFilter: filter.go. Match, Allow, ParseRule, ParseGroup.
--   Obd2: internal/parser/obd2/pids_supported.go.
--   Connections: internal/connection/connection_manager.go, with the type of connections and their
--     methods as parameters.
--   Influx: internal/output/influxdb. Influx/Batches is the select loop, which the code has for frames
--     and for signals; an event is what it receives, or a receive by a worker.
--   Obd: internal/obd/frame.go, canid.go, pid.go and protocol.go; Obd/Device, Obd/Elm327 and Obd/Stn
--     are device.go, elm327.go and stn.go. What a transport reads, in pieces of any size, is a list.
--   Obd/Target and Obd/Rfcomm: uri.go, the target that the text of a URI names, and sdp.go with
--     transport_rfcomm_linux.go, the search for a channel and the sequence of socket calls.
--   ObdConnection: internal/connection/obdconn/connection.go. Its child Link has Open, Close,
--     Discontinue, Receive and the loop of reconnect; an attempt to connect comes to one of four
--     outcomes, and a transport is a number. Polling is one session of that loop, with a driver as a
--     parameter; Steps and Overlap are the loop step by step, with the calls between its steps.
--   Playback: internal/connection/playback/candump.go and parser.go.
--   Mf4: Blocks, Record, Metadata, Writer and, with failing writes, Faults are the writing half of internal/parser/mf4, FileBlocks the
--     reading half; Vlsd and Reader are internal/connection/playback/mf4.go. A file is the list of
--     its bytes. Outcome tells an error from a panic and from a loop that has not ended.
--   Mf4Client: internal/output/mf4/client.go, the handlers of a session and its Close, over the writer.
--   TextOutputs: the records of internal/parser/crtd/writer.go and internal/parser/csv/writer.go;
--     TextOutputs/Files is the buffered files behind them, TextOutputs/Clients the handlers of
--     internal/output/crtd/client.go and internal/output/csv/client.go. A row of CSV is the list of its
--     fields.
--   Dbc: internal/parser/dbc/dbc.go. Parse, ParseAll and the multiplexers; Dbc/Definitions and
--     Dbc/Compile are the loop that compiles a file and the order of its signals.
--   Prometheus, Mqtt: the handlers of internal/output/prometheus/client.go and
--     internal/output/mqtt/client.go with models.go, as the calls they make of the third-party clients.
--   Simulate: internal/connection/simulate/connection.go.
--   App: internal/app/app.go and the loops of cmd/server/main.go that join the interfaces, the
--     dispatchers and the outputs.
--
-- Numbers are natural numbers with the wrap-around of a w-bit word written out. Texts are lists of
-- bytes and ASCII where the code folds case or trims spaces. An error is told from success, its
-- wording is left out.
--
-- Loops are structural recursion, but for those of Mf4/Vlsd and Mf4/Reader. The walks along the chains of data
-- groups and channel groups take fuel, as a file may chain them in a circle; `running` is the result
-- when it is used up; a file of the writer has one data group with two channel groups. The two passes
-- over the records take the length of the data as fuel, since a round takes at least one byte when
-- records have ids.
--
-- A decimal has at most 20 digits and a hexadecimal number at most 16, which is enough for 64 bits; the
-- loop of Prometheus over the digits of a 32-bit identifier takes fuel for 16.
--
-- Parameters: in the signal dispatcher the parser of a frame; in ObdConnection/Polling the driver; in Dbc the look-ups of the package
-- go.einride.tech/can, its reading of bits and how it scales; what the sort of a slice
-- leaves; the conversions of a float64 to int64, to uint32 and to text; the resolver of interface
-- numbers; what the filters answer for a value of a block; the encoding as JSON; how much a buffered
-- writer passes on before it is flushed; the results of system calls; the draws of random
-- numbers; and in Connections the connections themselves.
--
-- Not modelled: logging and throughput reports, the environment, the flag parser and the reading of
-- JSON, the system calls of connections and transports (socketcan, slcan and the serial port), the
-- making of third-party clients, the acknowledgements of MQTT, the HTTP server of Prometheus, and
-- the replay of a log in time. The copy of the listeners that the message dispatcher takes for each frame is the list
-- itself, so Add and Remove wait until the frame is sent to all. ObdConnection/Overlap has Close and
-- Discontinue between the steps of the receive loop of an OBD connection, an attempt to connect being
-- one phase of it; a second Receive during a loop is left out. The result of the write by a worker of
-- InfluxDB is left out, as the code only logs it.
pub mod App
pub mod Client
pub mod Common
pub mod Config
pub mod Connections
pub mod Dbc
pub mod Influx
pub mod Mf4
pub mod Mf4Client
pub mod Models
pub mod Mqtt
pub mod Obd
pub mod Obd2
pub mod ObdConnection
pub mod Playback
pub mod Prometheus
pub mod Simulate
pub mod TextOutputs
