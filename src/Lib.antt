-- ===== src/Lib.antt =====
-- Ignition Transport: nodes that publish, subscribe and call services across processes.
--
-- The program. A client makes nodes (src/Node.cc). The nodes of a process share one state
-- (src/NodeShared.cc): the handlers of subscriptions, services and requests, the connections to other
-- processes, the remote subscribers, and a thread that receives data, control messages, requests and
-- responses from 0MQ sockets. A process owns one discovery service (src/Discovery.cc). It registers
-- the topics and services that the process's nodes offer in two storages (src/TopicStorage.cc), one for topics and
-- one for services, and sends a datagram to the multicast group for each call of `Advertise`,
-- `Unadvertise` and `Discover` and for each heartbeat. The datagrams are laid out by src/Packet.cc.
-- What arrives from other processes goes through `DispatchDiscoveryMsg`, which reads the header,
-- notes that the sender is alive, and registers, deletes or answers. A timer forgets the processes
-- that were silent for too long. Names of topics are checked and completed by src/TopicUtils.cc;
-- the callbacks of nodes are kept by include/ignition/transport/HandlerStorage.hh.
--
-- The files.
--   Base and its children: booleans, options, lists over native numbers, texts as lists of bytes,
--     and maps as association lists in the order of the keys, which is the iteration order of
--     `std::map`.
--   TransportTypes: include/ignition/transport/TransportTypes.hh. A `Scope` that a cast made from a
--     byte without an enumerator is `unnamed`.
--   Packet: src/Packet.cc. Packet.Bytes has the sequences of `memcpy` calls as readers and writers
--     over a memory of known length, where a read or write past the end is `none`; numbers are
--     little-endian. Packet.Header, Packet.Subscription, Packet.Advertise.Base, .Msg and .Srv have
--     the classes, with `pack`, `unpack`, `unpack_body` and `get_msg_length`; a null pointer is the
--     absent buffer, and the `int` that `GetHeaderLength` returns wraps as the code's does. All but
--     Base have a RoundTrip, Base has Laws, Packet.Header an Overrun, and Packet.Stays is about the
--     bounds of the buffers.
--   TopicUtils: src/TopicUtils.cc, with Validity, Names and FullNames.
--   TopicStorage: src/TopicStorage.cc. Spec compares it with a function from topic and process to
--     the list of publishers; Invariant has its well-formedness, Queries the operations that read.
--   HandlerStorage: include/ignition/transport/HandlerStorage.hh, over any type of handlers, with
--     the same division into Laws and Invariant.
--   Discovery: the state of src/Discovery.cc. Discovery.Send has `SendMsg`, Discovery.Local
--     `Advertise`, `Unadvertise` and `Discover`, Discovery.Dispatch `DispatchDiscoveryMsg`,
--     Discovery.Tasks one round of `RunActivityTask` and of `RunHeartbeatTask`, Discovery.Reception
--     one of `RunReceptionTask`, with its buffer, and the destructor. A call is a
--     function from the state to the state after it and the events it showed: datagrams that were
--     sent and callbacks that were called; `none` is undefined behaviour or an exception. Calls
--     hold the lock, so an interleaving is a sequence of calls, and Discovery.Reachable has those
--     sequences. Discovery.Settings has the accessors. Discovery.Protocol, Discovery.Answers
--     and Discovery.Withdrawal follow a datagram from one process to another.
--   NetUtils: src/NetUtils.cc; what the system's calls give is an argument. Uuid: src/Uuid.cc, over
--     the bytes that libuuid makes.
--   Zmq: the calls of 0MQ as data. Whether a call returns or throws is a parameter of the code that
--     makes it, and the frames that wait at a socket are an argument of the code that receives.
--   Handlers: include/ignition/transport/SubscriptionHandler.hh, RepHandler.hh and ReqHandler.hh. The
--     type of messages, their parsing and their serialization are parameters, as they are protobuf's.
--   NodeShared: the state of src/NodeShared.cc. A function of it is an action: from the state to the
--     state after it and its effects, the calls of 0MQ that returned, what clients see, and the
--     datagrams of discovery; `none` is an exception that leaves the function, undefined behaviour,
--     or a `recv` that waits for a frame. NodeShared.Receive has `Publish`, `RecvMsgUpdate` and
--     `RecvControlUpdate`, NodeShared.Services the service requests, NodeShared.Connections the
--     callbacks that discovery calls, NodeShared.Callbacks the discovery service with them, and
--     NodeShared.Reception a round of `RunReceptionTask`. Their children follow messages from one
--     process to another; NodeShared.Invariant and NodeShared.Progress are about all of them.
--   Node: src/Node.cc and the templates of include/ignition/transport/Node.hh. A call gets the node
--     and the shared state and returns both. Node.Services has the calls about services, Node.Lists
--     the lists of names, Node.Lifetime the destructor. Node.Handshake follows `Advertise` to
--     another process and back. Node.Running has the sequences of calls and
--     messages that a process can see.
--   Tests: runs at concrete inputs.
--
-- Bounds. Lengths and types have the widths of the code and wrap as it does. The round trips ask
-- for messages shorter than 2 ^ 31 bytes, the range of the `int` that the lengths pass through. All
-- loops are structural recursions over the containers that they walk, so they have no fuel. The
-- arithmetic of doubles in Discovery.Elapsed looks for a power of two: of the ten doublings for an
-- integer, and the 83 for a quotient by 10 ^ 9, an `int64_t` needs no more.
--
-- Not modelled: sockets, threads, mutexes and the wait of a timed request, text output, the times when
-- the timer runs, the branches of src/NetUtils.cc and src/Uuid.cc for other systems than those with
-- `getifaddrs` and libuuid, and the command line tool. A callback of a client has no
-- effect on the state of the library: it does not call a node from inside. Addresses hold no NUL byte,
-- so that `c_str()` is the whole text, and the pointers to handlers are not null. The order of an
-- `unordered_set` of names is not specified; that of the model is the order of the names.
-- Of the C++ standard library `std::stoi`, `std::to_string` and the casts of `std::chrono` are written
-- out, in Base.Decimal and Discovery.Elapsed; they are no code of the repository.
pub mod Base
pub mod TransportTypes
pub mod Packet
pub mod TopicUtils
pub mod TopicStorage
pub mod HandlerStorage
pub mod NetUtils
pub mod Uuid
pub mod Discovery
pub mod Zmq
pub mod Handlers
pub mod NodeShared
pub mod Node
pub mod Tests
