-- ===== src/Lib.antt =====
-- yojimbo-rs: messages over channels between a client and a server
--
-- A program hands messages to a connection (src/connection.rs), which has a list of channels
-- (src/channel.rs). A channel is reliable and ordered (src/channel/reliable.rs) or unreliable and
-- unordered (src/channel/unreliable.rs). For each packet the connection asks every channel for the
-- messages that it wants to send, within the bits that are left, and writes them as channel packet
-- data (src/channel/channel_packet_data.rs). The other side reads the packet and hands the data to
-- its channels, from which the program takes the messages. A reliable channel keeps a message until
-- a packet that carried it is acked, and finds the messages by sequence numbers that wrap around,
-- in sequence buffers (src/channel/sequence_buffer.rs). The network simulator
-- (src/network_simulator.rs) stands between an endpoint and the network and delays, drops and
-- doubles packets.
--
-- A client (src/client.rs) has one connection, a server (src/server.rs) has one for each client. Both
-- drive two C libraries: netcode.io carries packets between them and says who is connected, and
-- reliable.io numbers the packets, splits them and says which ones arrived. The program calls
-- `advance_time`, `send_packets` and `receive_packets` in turn; the libraries call back with the
-- packets to send (`transmit_packet`), the packets received (`process_packet`), and the clients that
-- come and go.
--
-- The files:
--   Word             u16 arithmetic, `sequence_greater_than` and `sequence_less_than`
--   SequenceBuffer   `SequenceBuffer`; below it the map that a buffer stands for (View), the sliding
--                    window (Window) that insertions implement (Refine), and what each operation
--                    does to the map (Sound, Fresh, Taken)
--   Message          the trait `NetworkMessage`, `MeasureSink`
--   Config           `ChannelType`, `ChannelConfig`, `ConnectionConfig`, `ClientServerConfig`, the
--                    configuration of an endpoint of reliable.io, the header sizes
--   Wire             little-endian numbers through `Cursor` and `byteorder`
--   Packet           `ChannelPacketData`; Packet/Serialize its `serialize` and `deserialize`
--   Reliable         `Reliable`; Reliable/Send `packet_data` and its parts, Reliable/Receive
--                    `process_packet_data`, Reliable/Ack `process_ack` and
--                    `update_oldest_unacked_message_id`. Oldest, Accepts, Gathering, Budget, Loop
--                    with Due and Rising, Rounds with Packs, Removes, and Receiving with InWindow and
--                    Awaited are about one operation each; Ready and Uses are about all of them. History, Traffic, Acked, Arrived,
--                    Delivered and Sent relate each operation to the list of all messages sent;
--                    Progress takes one packet from channel to channel, and Session, Agreement and
--                    InOrder any number of them
--   Deque            `VecDeque`, for the unreliable channel and the network simulator
--   Unreliable       `Unreliable`; Fill its packets, Taking what it receives
--   ErrorLevel       `ChannelErrorLevel`, `ConnectionErrorLevel`
--   Processor        the calls through `dyn Processor`
--   Channel          `Channel`, `ChannelCounters`; Latch its error state
--   ConnectionPacket `ConnectionPacket`
--   Connection       `Connection`; Errors its error state, Carries its packets
--   NetworkSimulator `NetworkSimulator`; Room its capacity, Delivery what it hands out, Quiet its
--                    settings
--   Foreign          what the code calls of reliable.io and netcode.io; Strings its C strings
--   ClientState      `ClientState` and the states of netcode.io; Known the documented ones
--   Client           `Client`, its messages, `disconnect` and `create_client`; Client/Traffic its
--                    packets, Client/Lifecycle `insecure_connect` and `advance_time`. Valid says
--                    which parts exist together, Keeps and Keeps/Packets what messages and packets
--                    leave alone, Connects and Connects/Outcome are about `insecure_connect`,
--                    Advance and Advance/Time about `advance_time`, Receives and Transmits about
--                    the packets, and Steps puts all operations together
--   Server           `Server`, `ServerRuntime` and the messages; Server/Start `start`, `stop` and
--                    the connect and disconnect of clients, Server/Traffic its packets,
--                    Server/Advance `advance_time` and `disconnect_client`. Keeps and its children
--                    and Runs say what every operation leaves alone, Begins is about `start`,
--                    Steps about all operations, Lines and Indexed about the endpoints, Spares
--                    and Isolation about one client and the others
--   NetworkInfo      `NetworkInfo`
--   NetcodeAddress   `NetcodeAddress` (src/bindings.rs)
--   Int              the i32 results of the C libraries
--   Run, Result      panics and Rust's `Result` as values
--   Float            what the code uses of f64 and f32
--   Prelude          shared names, and lists measured by native numbers
--   Tests            runs on small inputs
--
-- A function of the code with `&mut self` is a function from the record to the record, under the
-- name of the method. It returns a `Run`, which is a panic for what panics in the code: assertions,
-- `unwrap`, an index out of bounds, a remainder by zero and an overflow. The model is of a build
-- with overflow checks and debug assertions. Sizes and bit counts are natural numbers: additions and
-- products of `usize` are taken not to overflow, which holds for sizes below 2^60; subtractions of
-- `usize` panic below 0. The u16 numbers wrap around.
--
-- The loops over a list or a range are recursion on it. The loop of
-- `update_oldest_unacked_message_id` has no bound in the code; it has fuel for 65536 rounds, as many
-- as there are u16 numbers, after which it has met the stop. The loops of `receive_packets` end when
-- netcode has no packet left, which is the library's doing: their fuel is an argument, and one more
-- than the packets that wait is enough.
--
-- Parameters: the floating-point numbers (Float), the user's messages (NetworkMessage), the draws of
-- `rand` (Draws, where `gen_range` may panic), and the C libraries (Foreign): an endpoint, a netcode client and a netcode server
-- are values of any types, and each call is any function to the next value. A callback runs inside a
-- call; since no callback calls the library whose call it stands in, the model runs it after the
-- call, with the arguments that the call gives. `reliable_endpoint_receive_packet` is in two parts,
-- before and after its callback, whose result it reads. A null pointer is `none`, and a call with
-- one is the panic `null_pointer`. IsDocumented is what is taken for granted of netcode's states, and
-- KeepsIndex that an endpoint of reliable.io has the index of its configuration for good: this index
-- is what the server's callbacks get, and by which they find the connection. The
-- Cargo feature `serialize_check` is the argument `check`; the feature `soak_debugging_asserts` is
-- off. A `VecDeque` has the capacity that it was made with until a push onto a full one doubles it.
--
-- Not modelled: the start, the end and the log level of the C libraries (src/lib.rs), the generated
-- bindings, log lines and `Debug` output.
pub mod Prelude
pub mod Run
pub mod Word
pub mod SequenceBuffer
pub mod Float
pub mod Result
pub mod Message
pub mod Config
pub mod Wire
pub mod Packet
pub mod Reliable
pub mod Deque
pub mod Unreliable
pub mod ErrorLevel
pub mod Processor
pub mod Channel
pub mod ConnectionPacket
pub mod Connection
pub mod NetworkSimulator
pub mod Tests
pub mod Int
pub mod NetcodeAddress
pub mod Server
pub mod Client
pub mod ClientState
pub mod Foreign
pub mod NetworkInfo
