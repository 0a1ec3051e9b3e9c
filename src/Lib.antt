-- ===== src/Lib.antt =====
-- DNS++: a broker for spatial publish and subscribe over UDP, with optional matching on blinded
-- values.
--
-- The program. A datagram is one TLV message (src/protocol/TlvMessage.h and .cpp): a header of eight
-- bytes, fields of type, length and value, and a payload. The broker (src/broker/broker.h and .cpp)
-- reads a datagram, parses it and runs one handler, which changes its tables and sends messages to
-- subscribers, to child brokers and to its parent. Where a message lies on the map decides who gets
-- it (src/utils/geo.h). In encrypted mode publishers and subscribers blind the hash of a service
-- name (src/crypto/Heps.cpp, on src/crypto/Paillier.cpp), and the broker tests two blinded values
-- for equality without the key (`executeMatch`).
--
-- The files.
-- + Base: the names shared by all. Base.Memory has the outcome of C++ code: a value, a fault (a read
--   outside a buffer, a division by zero, a failed assertion, an uncaught exception) or a loop out of
--   fuel. Base.Bytes reads and writes numbers in network order, Base.Table has maps, Base.Integers
--   the integers of `mpz_class`, Base.Modular lemmas on congruence.
-- + Tlv: TlvMessage in Tlv.Message (`parse` is the constructor, `find_tlv` is findTlv), its builder in
--   Tlv.Builder. Tlv.Frame is the specification, an abstract message and its encoding. Tlv.Parse,
--   Accept, Fields, Build and Total are the proofs.
-- + Crypto: Paillier and Heps after their classes; Threshold has the two tests of executeMatch.
--   Residues and Cipher are the algebra of ciphertexts, Blinding, Matching and Discovery the proofs
--   on matching, Generation, Loading and Agreement the ones on keyGen, loadState and match.
-- + Geo: src/utils/geo.h.
-- + Broker: State (broker.h), Brake (getQuadrant, brakeAllows), Match (executeMatch,
--   hashServiceName), Send (messages to the parent), Subscribe (handleSubscribe), Publication and
--   Publish (handlePublish), Membership (updateMyRegion, handleHeartbeat, handleHello,
--   handleRegionUpdate, handleStatsRequest), Service (cleanupExpired and the loop of start).
--   Startup is the constructor and initCrypto, Keys the proofs on them; Config is parseConfig of
--   src/main.cpp, Setters and Settings the proofs.
--   EventLoop is the whole of start, on a list of what epoll_wait answers. Program is main and the
--   constructor that it calls.
--   Valid is the invariant, Safety its proofs; Window, Isolation, Expiry, Delivery, Descent, Nearest,
--   Coverage, Refusals and Forwards are proofs on single operations. Freshness is on the age of the
--   groups through the handlers and the loop. Links puts two brokers together: what one sends, as the
--   other one receives it. Arrival follows a publication to the parent, the children and subscribers,
--   Relay has the messages that go to other brokers as frames.
-- + Logger: src/logger/logger.cpp as a machine of two threads in Logger.Steps. Order, Drain and
--   Lifetime are its proofs.
--
-- How the code is read. A handler is a function from the state to the outcome and the next state; what
-- it sends joins the `outbox` of the state. A byte is a number; a `float` is its 32-bit pattern;
-- doubles with their operations, GMP, std::hash and inet_ntoa are parameters, and the theorems name
-- the documented behaviour that they use. The clock of a datagram is an argument, read once for each
-- handler. Unordered maps and sets are lists in the order of insertion. Counters wrap at 2^64, lengths
-- at their width. The lines that only print are left out.
--
-- Fuel. The loop of `build` has the length of the buffer as fuel: every field takes four bytes or more.
-- The loop of `encrypt` that draws until the draw is not zero has its fuel as an argument, and the
-- theorems ask for a draw that is not zero within it. The loops of keyGen count their attempts in the
-- code itself.
--
-- The broker can end itself at start-up: that is the result `none` of `init_crypto` and
-- of `parse_config`.
--
-- Not modelled: the sockets and epoll themselves, the modes of the key files, the clients, the tests and
-- the benchmarks.
pub mod Base
pub mod Tlv
pub mod Crypto
pub mod Geo
pub mod Logger
pub mod Broker
