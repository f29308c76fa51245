-- ===== src/Lib.antt =====
-- Courierust: the framing core of a network library in Rust.
--
-- The library carries HTTP/2 and HTTP/3 over its own TLS and QUIC. This development models the
-- parts that turn bytes into frames and back, the state that an HTTP/2 connection keeps for its
-- streams, the integers and the dynamic table of header compression, the frames, masks and text
-- checks of WebSocket, base64, and the buffers between the protocols and a transport.
--
-- A connection reads nine bytes with `decode_header`, parses the payload behind them with
-- `Frame::parse`, and then applies SETTINGS to its `Settings`, moves the windows of `FlowWindow`,
-- and looks up or inserts streams in a `StreamMap`; which stream sends next is the choice of
-- `Scheduler`. The field blocks that frames carry refer to the `DynamicTable` of their direction.
-- A QUIC packet starts with a header, which `parse` reads up to the packet number; its payload is
-- a run of frames, each made of varints and bytes; an HTTP/3 stream carries frames of a varint
-- type, a varint length and a payload. A WebSocket session writes each frame with
-- `StreamSink::write_frame`, which masks the payload in windows and hands them to
-- `Write::write_all`; it feeds the text that arrives to a `Utf8Validator`, and checks the reason of
-- a close frame with it. The protocols read through a `BufReader` and write through a `BufWriter`.
--
-- Files and the code that they model, with the paths from the repository's root:
--   Error             src/courierust_error/mod.rs: ErrorKind, Result, the operator `?`
--   Quic/Varint       src/courierust_quic/varint.rs: encode, decode, read
--   Quic/PacketNumber  src/courierust_quic/packet.rs: encode_pn, decode_pn
--   Quic/Packet       src/courierust_quic/packet.rs: Packet, encode_long, encode_short, parse
--   Quic/StreamId     src/courierust_quic/stream.rs: the type and the index of a stream identifier
--   Quic/Frame        src/courierust_quic/frame.rs: Frame; Encode has Frame::encode and to_bytes,
--                     Cursor the macros varint! and bytes! of Frame::decode, Decode its arms
--   H2/ErrorCode      src/courierust_h2/error.rs: ErrorCode, from_u32, as_u32
--   H2/Flow           src/courierust_h2/flow.rs: FlowWindow
--   H2/Streams        src/courierust_h2/stream.rs: Stream, StreamMap
--   H2/Scheduler      src/courierust_h2/priority.rs: Bucket, Scheduler
--   H2/Settings       src/courierust_h2/settings.rs: Setting, Settings, apply, to_vec, to_wire
--   H2/Frame          src/courierust_h2/frame.rs: Frame; Header has encode_header and decode_header,
--                     Parse the arms of Frame::parse, Encode those of Frame::encode
--   H3/Frame          src/courierust_h3/frame.rs: Frame, to_bytes, decode
--   Hpack/Integer     src/courierust_hpack/mod.rs: read_int, write_int
--   Hpack/DynamicTable  src/courierust_hpack/table.rs: DynamicTable, fnv1a
--   Ws/Frame          src/courierust_ws/frame.rs: OpCode, FrameHeader, parse, write, header_len_hint,
--                     check_reserved
--   Ws/Mask           src/courierust_ws/frame.rs: Mask, new, apply
--   Ws/Sink           src/courierust_ws/frame.rs: StreamSink::write_frame
--   Ws/Close          src/courierust_ws/frame.rs, mod close: the codes, CloseFrame, encode, parse
--   Ws/Utf8           src/courierust_ws/utf8.rs: Utf8Validator
--   Io                src/courierust_io/mod.rs: Read, Write, write_all
--   Io/BufReader      src/courierust_io/mod.rs: BufReader
--   Io/BufWriter      src/courierust_io/mod.rs: BufWriter
--   Crypto/Base64     src/courierust_crypto/base64.rs: the encoders, decode_core and its callers
--   Base              lists, tests, bits, bytes and signed numbers over the native numbers
--   Tests             runs at fixed inputs
-- The other files hold proofs, and are named for what they prove.
--
-- How the code is represented. A byte buffer is a list of numbers, and a word keeps its wrap-
-- around in the definition. A method on `&mut self` returns the new state, with its result beside
-- it. An error is a value of `Result`; its text is left out. A panic is `none`. An `i64` is an
-- integer with the saturating operations written out. The `BTreeMap` of streams is a list in
-- ascending order, a `VecDeque` a list from its front. `usize` has 64 bits. Loops are structural
-- recursion, over a list or over a count that was read. The others count their rounds: eviction
-- from the dynamic table takes an entry away in each round, and is given as many rounds as there
-- are entries; the octets of an HPACK integer take seven bits off a u64 in each round, and are
-- given nine; the settings of an HTTP/3 frame are counted down from the limit on them that the
-- code has; the loops over a transport or over the windows of a payload, and the bulk check of
-- UTF-8, take a byte away in each round that goes on, and are given as many rounds as there are
-- bytes. A loop that ran out of rounds gives `none`; the theorems on it say that it does not.
--
-- A transport is a parameter, a record of the operations Read and Write with what the traits
-- promise: a read gives at most the bytes asked for, a write takes a prefix of what it is given and
-- appends it to what the peer sees. Further parameters are the order of the bytes in a word of the
-- machine, the capacity that a growing buffer gets, and the answers of the `before_read` callback.
-- `core::str::from_utf8` is written out by Unicode's table of well-formed sequences.
--
-- Not modelled: the connection that calls these parts (src/courierust_h2/connection.rs), the
-- static table, the strings and the codec of HPACK, QPACK, the runtimes, TLS, the hash functions,
-- the WebSocket sessions, the clients and servers, and sockets. Of WebSocket frames, apply_into is
-- apply with another destination, the shared sink adds a lock, and failure_code looks into the text
-- of an error; of the buffers, SliceReader, VecWriter and Scratch are plain lists. Of stream.rs,
-- get_mut and the iterators hand out references and have no counterpart; of priority.rs, the parser
-- of the priority field is left out. The debug assertion of Frame::encode against DATA padding is
-- off in a release build.
pub mod Base
pub mod Crypto
pub mod Error
pub mod H2
pub mod H3
pub mod Hpack
pub mod Io
pub mod Quic
pub mod Tests
pub mod Ws
