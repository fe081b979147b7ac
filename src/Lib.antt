-- ===== src/Lib.antt =====
-- The wire formats, the pipes, the routing and the request sockets of libzmq, the core engine of
-- ZeroMQ.
--
-- A socket sends a message by handing its parts to one of its pipes or to several (routing), a pipe is
-- a pair of lock-free queues between the thread of the socket and that of an engine, and the engine
-- turns messages into frames on the wire and back (codec), after a handshake in which the peers tell
-- each other their metadata (mechanism). On the routing stand the sockets that send requests and replies
-- in turn (socket). A publisher keeps the subscriptions of a socket in a trie; the timers stand beside
-- all this.
--
-- Base            shared names, Boolean tests and lists on the native numbers
-- Message         src/msg.hpp, src/msg.cpp: type, flags and body of msg_t
-- Wire, Errno     src/wire.hpp; the error numbers
-- Codec.Decoder   src/decoder.hpp: decoder_base_t::decode over the steps of a protocol
-- Codec.Encoder   src/encoder.hpp: encoder_base_t::encode and load_msg over a layout of the header
-- Codec.Storage   src/msg.cpp: init_size and init (data, ...)
-- Codec.V2        src/v2_decoder.cpp, src/v2_encoder.cpp, src/v2_protocol.hpp
-- Codec.V31       src/v3_1_encoder.cpp
-- Codec.V1        src/v1_decoder.cpp, src/v1_encoder.cpp
-- Codec.Ws        src/ws_decoder.cpp, src/ws_encoder.cpp, src/ws_protocol.hpp
-- Ypipe           src/ypipe.hpp: ypipe_t, and Ypipe.Spec, what it promises
-- Pipe            src/pipe.cpp, src/pipe.hpp: one end of a pipe, pipe_t; Pipe.Terminate, its termination
-- Pipe.Handshake  the two ends of a pipe and the commands that terminate it (src/object.cpp);
--                 Pipe.Handshake.Hiccup, the command that replaces a queue
-- Mechanism       src/mechanism.cpp: the metadata of the handshake, and the socket types
-- Trie            src/trie.cpp, src/trie.hpp: trie_t, and Trie.Run, the multiset that it keeps
-- Timers          src/timers.cpp: timers_t
-- Z85             src/zmq_utils.cpp: zmq_z85_encode and zmq_z85_decode
-- Routing.Array   src/array.hpp: array_t, whose items know their position
-- Routing.Pipes   what the routing asks of pipes, as an interface
-- Routing.Dist    src/dist.cpp: dist_t
-- Routing.Ring    what src/fq.cpp and src/lb.cpp have in common
-- Routing.Fq      src/fq.cpp: fq_t
-- Routing.Lb      src/lb.cpp: lb_t
-- Socket.Session  src/req.cpp: req_session_t, and push_msg of src/session_base.cpp
-- Socket.Dealer   src/dealer.cpp: dealer_t
-- Socket.Req      src/req.cpp: req_t, over an interface of the dealer
-- Socket.Router   src/router.cpp: sending, receiving and rollback of router_t; Socket.Router.Ops, the
--                 router and the dealer as the interfaces that req_t and rep_t ask for
-- Socket.Network  two pipes with queues to read from, for the tests of the sockets
-- Socket.Rep      src/rep.cpp: rep_t, over an interface of the router
--
-- State is passed explicitly. The members of a class are the fields of a record under their names
-- without the underscore, a method is a function of the same name, and an object that another one
-- points to is a number, its address or its position. A failed assertion is an outcome of its own
-- (`aborted`, or `none` in Pipe, Trie and Mechanism), but for that of the router's xsend, which is the
-- predicate Settled of Socket.Router.Route. Memory that may run out, the pipes of the routing and the
-- queue that a hiccup brings along are parameters.
--
-- Fuel: `settle` has two rounds, because a step that ends a header and one on a message of no bytes are
-- all that follow each other; `decode_loop` has one for each byte; `encode_loop` has four, for the rest
-- of the header, the body, the end and the full buffer; the loops over pipes have one for each active or
-- matching pipe, and those over a queue one for each item, and one more; `parse_loop` has one for each
-- byte; `execute` of Timers is given its fuel, since it does not end where an interval is 0. The loops of
-- the sockets are given theirs, more than the parts that can be read; without it they answer `hung`.
--
-- Machine integers: a size on the wire has 64 bits, and so has size_t; the counters of a pipe wrap
-- around at 64 bits, and the number of a request at 32. A negative limit on the size of messages is
-- `none`, and a high water mark that is not positive is 0. The reference counts of the trie wrap around
-- at 32 bits, the count of its live nodes at 16, and times in milliseconds at 64. The counters of Z85 wrap
-- around at 32 bits, and the index into the mask of a WebSocket frame is an int, which must not overflow.
--
-- Not modelled: who owns the bytes of a message and how its references are counted, conflating pipes,
-- how a router identifies its peers, its options and the termination of its pipes, the other sockets
-- above the routing, the engines, the rest of the sessions, the transports, the mechanisms but for their
-- metadata, handlers of timers that call the timers themselves, and the operating system. Of the two ends
-- of a pipe only the states, the queues and the commands that terminate it are followed, with a flag for
-- the delimiter in place of its way through the queue: nothing is said about when their termination is
-- over. The random mask of a WebSocket frame is a parameter, and the bytes of a request id stand in the order of a host
-- that stores the lowest first.
pub mod Base
pub mod Message
pub mod Mechanism
pub mod Timers
pub mod Trie
pub mod Wire
pub mod Errno
pub mod Codec
pub mod Ypipe
pub mod Pipe
pub mod Z85
pub mod Routing
pub mod Socket
