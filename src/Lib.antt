-- ===== src/Lib.antt =====
-- netmon: the engine of the network monitor, core-rs/core; the library around it that the user
-- interface loads, core-rs/core-ffi; its link to the analytics service, core-rs/core-grpc; and
-- the command line, core-rs/cli, which generates captures and replays them.
--
-- A captured frame goes to `Engine::process`: the parser makes a packet of it, the counters and the
-- flow table take note of the packet, and the rules may raise alerts about it. The library feeds the
-- engine with the frames of a capture, keeps the alerts in a bounded queue, which the user interface
-- polls, and exports the flows over the link; the scores that come back become alerts too.
--
-- The files and the code they model:
--   Prelude              numbers, lists, words and outcomes that all parts share
--   Net                  `IpAddr` of the standard library, with its order
--   ParseError           core-rs/core/src/error.rs
--   Packet               core-rs/core/src/packet/mod.rs; Packet/Header and Packet/Bytes hold its types
--                        and its helpers, and Packet/Ethernet, Ipv4, Ipv6, Tcp, Udp, Icmp and Dns the
--                        files of these names; Packet/Totality, Packet/Shape, Packet/Ipv6/Walk
--                        and Packet/Dns/Names hold proofs
--   Lru                  the crate `lru` as an interface: operations, and laws from its documentation;
--                        Lru/Reference is a cache that meets it
--   Flow                 core-rs/core/src/flow.rs: keys and statistics; Flow/Table has the operations
--                        of the table, and Flow/Table/Contents, Expiry, Order and Ends their proofs;
--                        Flow/Table/Top is `top_by_bytes`, and Flow/Table/Top/Ranking its
--                        theorem
--   Alert, Float         core-rs/core/src/alert.rs, and `f64` as an interface
--   Rules                core-rs/core/src/rules/mod.rs; Rules/Window, Rules/Spec and Rules/Compiled are
--                        window.rs, loader.rs and engine.rs beside it; Rules/Entropy is the entropy of
--                        engine.rs
--   Engine               core-rs/core/src/engine.rs; Engine/Accounting, Engine/Flows and Engine/Run
--                        hold its invariants, over a frame and over a sequence of frames
--   Engine/Snapshot      `snapshot` of the same file
--   Link                 core-rs/core-grpc/src/link.rs; its proofs are in Link/Soundness, Accounting,
--                        Backoff and Shutdown
--   Ffi/Types, Ffi/Cstr  core-rs/core-ffi/src/types.rs
--   Ffi/Sniffer          core-rs/core-ffi/src/sniffer.rs, over an interface of the C library
--   Ffi/Analytics        core-rs/core-ffi/src/analytics.rs; Cooldowns, Orientation and Exports below it
--                        hold its proofs
--   Ffi/Shared           `Shared` of core-rs/core-ffi/src/core.rs; Ffi/Shared/Queue and below are the
--                        proofs on the queue of alerts
--   Ffi/Core             `NcCore` of the same file: opening a capture; Ffi/Core/Control and Reports have
--                        the other operations, Ffi/Core/Opening, Installing and Capturing the
--                        proofs
--   Ffi/Api              core-rs/core-ffi/src/lib.rs; Ffi/Api/Calls and Polls have the functions,
--                        Ffi/Api/Codes proofs; Ffi/Api/Demo is `core_write_demo_pcap`, and its proof
--   FileSystem           the file system of the standard library as an interface
--   Pcap                 core-rs/core/src/pcap.rs; Pcap/RoundTrip and Pcap/Files hold its proofs
--   Cli                  core-rs/cli/src/args.rs; Cli/Options and Cli/Replay hold its proofs
--   Synth                core-rs/core/src/synth.rs: the frames; Synth/Hosts has its constants,
--                        Synth/Scenarios the scenarios, and Synth/Traffic the packets and `generate`;
--                        the other children are proofs
--   Cli/Main             core-rs/cli/src/main.rs; Cli/Main/Sessions has the two commands together, and
--                        Cli/Main/Returning the end of `replay`
--   Tests                the theorems at concrete inputs
--
-- Conventions. A Rust function that changes its receiver returns the new state. A result is an
-- `Outcome`: a value, an error, a panic of an index or slice expression, or, for a loop on fuel, that
-- the fuel ran out. Bytes and words are numbers; sums of machine integers wrap as in a release build
-- and `saturating_add` saturates; `usize` is a number without a bound, since the lengths of buffers in
-- memory stay below it. The bytes of a buffer may be any numbers. Strings are lists of bytes.
-- The hash map of a window is an association list. The arms of `match` that the code leaves by
-- `return` are functions of their own.
--
-- Fuel: the loop over VLAN tags has 3 rounds, for at most two tags and the round that leaves it; the
-- loop of `read_name` has 270, since a round either lengthens a name of at most 253 characters or
-- follows one of at most 16 pointers; the loop of `expire` has one more than there are flows; the
-- loop that fills a header of a capture file has 3, since bytes in memory come in one read; the loop
-- that adds the carries of a checksum has 2, for a sum of 32 bits; the loop of `replay` has one more
-- than there are bytes, of which every record takes some. That these are enough is proved. The walk
-- over IPv6 extension headers is a `for` loop of 8 rounds.
--
-- A capture file is bytes in memory: a read gives what is asked for or all that is left, and fails only
-- where the bytes end too early.
--
-- Parameters: the crate `lru`, for the flow table and for the sources of a rule; `serde_yaml`, as a
-- function from a text to a rule file; `f64`; the file system. An alert's message is kept as the
-- values that `format!` prints.
--
-- The C library of captures is an interface whose calls take the state of the world and give the next;
-- how an address is printed and read, which texts are UTF-8, what a file holds and whether a thread or
-- a link can be started are parameters of the functions that ask for it.
--
-- Threads. The link's worker is a state machine: tokio, the service and the client choose the next
-- event among those that are possible. The capture, the exporter and the caller use the shared state
-- under its locks, so their uses come one after the other, in any order.
--
-- Not modelled: the texts of `Display`, but for a layer's name, and what the command line prints; the
-- parsing of an endpoint and the runtime behind it; the sniffer in C, the user
-- interface in C# and the service in Python.
pub mod Alert
pub mod Cli
pub mod Engine
pub mod Ffi
pub mod FileSystem
pub mod Float
pub mod Flow
pub mod Link
pub mod Lru
pub mod Net
pub mod Packet
pub mod ParseError
pub mod Pcap
pub mod Prelude
pub mod Rules
pub mod Synth
mod Tests
