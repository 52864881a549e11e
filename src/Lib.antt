-- ===== src/Lib.antt =====
-- PaceTun's tunnel core: the queues that order IP packets, and the records that carry them.
--
-- A packet read from the TUN device is put into a flow by its key (Flow, detail::packet_flow of
-- cdn/include/pacetun/flow_scheduler.hpp). The two schedulers of that file share their turn rules
-- (Turns): two interactive turns, then a bulk one. schedule_packet_batch orders one batch (Batch);
-- FlowQueue is the bounded queue in front of a lane, a FIFO per flow (FlowQueue). A packet taken from
-- the queue becomes a numbered, authenticated record of cdn/src/record.cpp (Record/Encode), and the
-- decoder of the other side finds the records in the bytes that arrive (Record/Decode). What it delivers of
-- bytes of any origin is described in Record/Genuine.
--
-- Base: numbers are the native ones; size_t and uint64_t counters wrap by add64 and sub64; a byte is a
-- number, an ASCII text the list of its codes.
--
-- Turns, Batch, FlowQueue: a vector of flows is a list, an iterator its index. `scan` is the loop of the
-- closure `take`, run for as many visits as there are flows; `drain` is the loop of schedule_packet_batch
-- with the number of packets not yet ordered as its bound. The FIFO of a key is `view` in
-- FlowQueue/Refine, the invariant IsValid in FlowQueue/Invariant.
--
-- Record: `Crypto` stands for HMAC-SHA256 and ChaCha20-Poly1305, `CryptoLaws` for what OpenSSL documents
-- of them, `Random` for RAND_bytes. An exception is the error of a `Result`. feed returns the list of
-- calls of its callback; the callback is outside. The fuel of feed_loop is the length of the buffer and
-- one more, since each record takes 32 bytes at least.
--
-- Keys: the hexadecimal texts, tokens and session keys of cdn/src/record.cpp, over HMAC and SHA-256 as
-- parameters.
--
-- Pool: the table of PoolAffinity (cdn/include/pacetun/pool.hpp) is a list, in the order of its iterators.
-- It gives a packet to a lane of the pool; each lane has a FlowQueue and its own records.
-- Runs of its calls are those of Pool/Run.
--
-- Traffic: ReplyWatchdog, RecoveryBackoff, LatencyRenewal and BurstShaper (Traffic/Shaper) of
-- cdn/include/pacetun/traffic.hpp; times are microseconds in 64 bits. Telemetry: RttHistory of cdn/include/pacetun/telemetry.hpp, in microseconds.
-- Edge: edge_address_index of cdn/include/pacetun/edge_selection.hpp.
--
-- Admission: the server of cdn/src/admission.cpp as a step relation; each step is what a thread does under
-- the lock, and the result of a handshake is an argument of the step behind it.
--
-- WebSocket (cdn/src/websocket.cpp, cdn/include/pacetun/websocket.hpp): Frame is make_frame and the frame
-- parser of websocket_read_messages; Send is queue_frame and websocket_flush, where each answer of the
-- socket is an element of a list; Receive is websocket_read_messages: the reads (a list), the loop over the
-- frames on fuel, one more than the bytes buffered, which is enough since a frame has two bytes or more,
-- one function per opcode, and the end of file. The mask that RAND_bytes gives and the time are arguments.
-- Delivery joins the sender and the reader. Http is the request and response of the upgrade with the
-- checks of both sides; Upgrade is the negotiation behind it: client_hello and client_keys are the parts
-- of websocket_client_upgrade before and behind the reply, server_answer is that of
-- websocket_server_upgrade. OpenSSL is a parameter there.
--
-- Config (cdn/src/config.cpp, cdn/include/pacetun/config.hpp): a text file becomes a list of keys and values
-- (Lines), load_config is a list of assignments run in order (Load), and validate_config is the list of its
-- checks, of which the first that fails is the exception (Validate). An int is a signed number and
-- a size_t a natural number. The sums of ints in validate_config are those of the numbers, where the sum of
-- a huge mtu or padding is undefined in C++; such a value is refused in any case, by its range. Six
-- members that load_config uses and struct Config does not
-- declare are fields of the record, their initial values arguments.
--
-- Runtime (cdn/src/runtime.cpp): the transmit queue of the TLS tunnel with its counters, the size of a batch
-- and the reasons of a reconnect; an int of the checked configuration is read as a natural number. Tun
-- (cdn/src/platform/linux/tun_linux.cpp): the checks of the inputs of a TUN device and the arguments it
-- gives to ip; inet_pton is a parameter.
--
-- Main (cdn/src/main.cpp): the command line, which loads the configuration, checks the device's inputs and
-- ends in an action.
--
-- Not modelled: the waits for the socket and the loops of the key confirmation and the trial in
-- websocket.cpp, effective_config, carrier.cpp, the texts of logging.hpp, the PTT3 format, X25519,
-- the padding budgets, which are floating-point,
-- the loops and threads of the runtime, and sockets, TLS, clocks and the TUN device. The adapter in
-- Go, the website and the scripts are outside.
pub mod Base
pub mod Flow
pub mod Turns
pub mod Batch
pub mod FlowQueue
pub mod Record
pub mod Keys
pub mod WebSocket
pub mod Pool
pub mod Traffic
pub mod Telemetry
pub mod Edge
pub mod Admission
pub mod Config
pub mod Runtime
pub mod Tun
pub mod Main
pub mod Tests
