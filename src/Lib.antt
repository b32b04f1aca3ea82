-- ===== src/Lib.antt =====
-- acktor is an actor library in Rust with a companion that carries messages between processes. The
-- crate `acktor` has the actor itself: a task that takes messages from a mailbox, calls the
-- actor's handlers, and walks through the states of its life under the eye of a supervisor. The
-- crate `acktor-ipc` has the node, an actor that owns the listeners and the sessions of a process,
-- the manager of the actors that other nodes can reach, and the map with two keys that the node
-- keeps its sessions in. This library models these parts and proves what makes them correct.
--
-- Parts, files and code:
--   * Base, Base/Tests, Base/Results, Base/Lists, Base/Eq: shared names, Boolean tests, `Result`,
--     computations that may panic, lists, and the bound `K: Eq`.
--   * HashMap, HashMap/Laws: the standard hash map as an association list in some order.
--   * DoubleMap (acktor-ipc/src/double_map.rs and double_map/errors.rs), with Remove for the
--     removals and `retain`, and Entry, Entry/Occupied and Entry/Vacant for double_map/entry.rs.
--     A method that changes the map returns the new map. `expect` and `unreachable!` are panics.
--     Sync has the invariant; Lookup, Insertion, Assignment, Remove/Lookups, Remove/Linked,
--     Remove/Retention, Remove/Kept, Entry/Laws and Entry/Calls have what the operations do, Trace
--     any sequence of them. Iteration is double_map/iter.rs, and Comparison the equality of
--     two maps.
--   * Actor, Actor/Codes, Actor/Index: the enumerations of acktor/src/actor.rs,
--     acktor/src/signal.rs and acktor/src/cron.rs with their codes, and acktor/src/actor/index.rs.
--   * Mailbox: the tokio channel under acktor/src/channel/mpsc.rs and
--     acktor/src/address/mailbox.rs, as an interface. Drain: acktor/src/drain.rs.
--   * Context (acktor/src/context.rs and the provided methods of `ActorContext`), Context/Hooks
--     (what user code may do, and the built-in handlers of acktor/src/signal.rs and
--     acktor/src/supervisor.rs), Context/Loop (`run_loop`), Context/Run (`run` and `spawn` of
--     acktor/src/actor.rs), and Context/Laws.
--   * Registry (acktor-ipc/src/remote/registry.rs) over an interface of the dashmap crate, and
--     ActorMgr (acktor-ipc/src/node/actor_mgr.rs).
--   * Observer (acktor/src/observer.rs).
--   * Node (acktor-ipc/src/node.rs), Node/Context (acktor-ipc/src/node/context.rs), and what they
--     keep: Node/Sessions, Node/Listeners, Node/Serving. Node/Forwarding has the requests that the
--     node passes on to a session.
--   * Session, Session/Requests, Session/Answers (acktor-ipc/src/session.rs): the requests that a
--     session sends, their tags, and the answers. Session/Proto: the messages between two sessions
--     (acktor-ipc-proto/src/message.rs and utils.rs). Session/Inbound: the requests of the peer, with
--     the tasks that serve them; Session/Context and Session/Loop
--     (acktor-ipc/src/session/context.rs): the loop of a session; Session/Resolve: what the sender of a request awaits. Session/Sends,
--     Session/Served, Session/Balance and Session/Replies follow the answers that the peer is owed,
--     Session/Waiting and Session/Sweeps the sweeps, and Session/Exchange a request through two sessions.
--   * Codec (acktor/src/codec.rs), Errors (acktor/src/error.rs and acktor-ipc/src/error.rs) and
--     BinaryMessage (acktor/src/message/remote.rs): what messages to other processes share.
--   * Address (acktor/src/address/sender.rs): the trait `Sender` and its contract, with
--     Address/Mpsc (the sending half of the tokio channel, an interface), Address/Local (local.rs
--     and permit.rs), Address/Remote and Address/Remote/Recipient (remote.rs), Address/Responses
--     (the tasks that decode responses, and acktor/src/codec/table.rs), Address/Created
--     (recipient.rs) and Address/Dispatch (acktor/src/address.rs). Erased is `std::any::Any`,
--     Envelope is acktor/src/envelope.rs, and Oneshot acktor/src/channel/oneshot.rs.
--     MessageResponse (acktor/src/message.rs, message/result.rs and message/future_result.rs) is how
--     the result of a handler is given to the sender.
--   * RemoteAddressable (acktor-derive/src/remote_addressable.rs): the code that the macro generates
--     for an actor; RemoteAddressable/Tables, Recipients, Delivery and Calls have what it does.
--     Session/Proxy (acktor-ipc/src/session/proxy.rs) is under remote addresses; Session/Sending has
--     the whole way of a message from an address to the mailbox of the session.
--   * Encoding (the traits `Encode` and `Decode`, and what they promise), with Encoding/Numbers,
--     Encoding/Numbers/Vectors, Encoding/Words and Encoding/Tuples (acktor/src/codec/default_codec.rs) and
--     Encoding/Containers (acktor/src/codec/common_codec.rs and protobuf_helper.rs). A buffer has the
--     address where it lies. A number is known by the value of its bytes.
--   * Adaptor: acktor-ipc-proto/src/adaptor.rs.
--   * Cron, Cron/Loop, Cron/Laws (acktor/src/cron.rs): the context with a task that it repeats.
--   * ControlMessage, ControlMessage/Proto, ControlMessage/Signals, ControlMessage/Laws,
--     ControlMessage/Refusals: acktor/src/codec/control_message.rs, and what it uses of
--     acktor/src/codec.rs and acktor-ipc-proto/src/control_message.rs. The bytes of a protobuf
--     message are those of the prost crate, an interface.
--   * Tests, DoubleMap/Tests: concrete values on which the theorems are applied.
--
-- How the parts meet: the context's loop polls the channel, hands an envelope to the actor's
-- handler or to a built-in one, and sends its supervisor what happens. The node is the supervisor
-- of its sessions; it keeps them in a double map by index and label. The manager shares the
-- registry with the node and its sessions.
--
-- The types of messages are known by numbers, as the code knows them by their `TypeId`; a family of
-- types gives the values of each. A response channel is known by a number.
--
-- Choices: user code is a parameter. A hook or a handler answers with the actor it leaves, the
-- calls on its context in order, and whether it returned or panicked. A loop runs along a list of
-- what it meets: one item per turn, so the list is as long as the run that is described, and a
-- theorem about the loop holds for every list. An address, a recipient and a mailbox are known by
-- the index of their actor, which is how the code compares them. Indices are not bounded: the code
-- takes them from a counter of 64 bits. The tag of a session's request keeps its overflow at 2^64.
--
-- Not modelled: the codecs of the prost-codec feature and the codec of whole messages, the
-- connections (acktor-ipc/src/ipc_method) and remote factories, which are input and output, stable
-- type ids and the hasher of type maps, logging, the capacities of maps, the receiving half of the
-- mailbox channel beyond its interface, and the macros that generate code, but for the code that
-- one of them generates.
pub mod Base
pub mod Erased
pub mod HashMap
pub mod DoubleMap
pub mod Actor
pub mod Mailbox
pub mod Drain
pub mod Context
pub mod Registry
pub mod ActorMgr
pub mod Observer
pub mod Node
pub mod Session
pub mod Adaptor
pub mod Cron
pub mod BinaryMessage
pub mod Address
pub mod Envelope
pub mod Oneshot
pub mod MessageResponse
pub mod RemoteAddressable
pub mod Codec
pub mod Encoding
pub mod Errors
pub mod ControlMessage
pub mod Tests
