-- ===== src/Lib.antt =====
-- PPoSE: peers exchange encrypted messages over UDP, through relays, onion hops and a rendezvous
-- service.
--
-- How the parts interact. Two endpoints make a session (src/session.rs) with the three messages of
-- Noise XX (src/crypto/noise.rs). The session cuts a message into frames with the ARQ
-- (src/reliability/arq.rs, src/reliability/frame.rs), seals each frame and sends it as the body of a
-- packet (src/network/packet.rs, src/network/udp.rs). A packet may travel inside the forward wrapper of a relay (src/relay.rs,
-- src/network/forward.rs) or inside nested onion layers (src/onion.rs); both kinds of node keep a
-- replay cache (src/network/replay.rs). Peers find each other by tokens (src/rendezvous.rs), and
-- signed invitations say whom to trust (src/admission.rs).
--
-- Which module models what:
--   Wire          src/lib.rs: the constants; socket addresses, what `recv_from` gives, and the shape
--                 of a node's step: its new state, the datagrams it sends and its result.
--   Packet        src/network/packet.rs: `encode_outer`, `encode_datagram`, `decode_outer`.
--   Forward       src/network/forward.rs: `encode_forward_body`, `decode_forward_body`.
--   Frame         src/reliability/frame.rs: `encode_data`, `encode_ack`, `decode_inner`.
--   Arq           src/reliability/arq.rs: the state; `enqueue`, `take_new_sends` and
--                 `take_retransmits` in Send, `mark_received`, `on_data` and `pop_delivered` in
--                 Receive, `on_ack`, `acked` and `take_ack` in Acknowledge, `ingest` in Ingest. Exchange
--                 puts a sender and a receiver together.
--   Replay        src/network/replay.rs: `accept` and `expire`.
--   Relay         src/relay.rs: `step`, `run_until` on the turns that it makes.
--   Crypto        src/crypto/keys.rs and src/crypto/aead.rs: thin wrappers of the primitives.
--   Onion         src/onion.rs: `wrap_route`, `wrap_layer`, `peel_layer`, `OnionRelay::step`.
--   Rendezvous    src/rendezvous.rs: `step`, `encode_register`, `encode_lookup`, `decode_reply`.
--   Admission     src/admission.rs: `issue`, `verify`, `encode`, `decode`, `ingest`, `trust_depth`.
--   Cover         src/cover.rs and src/config.rs.
--   Noise         src/crypto/noise.rs: `new`, `write_handshake`, `read_handshake`, `maybe_finish`,
--                 `seal`, `open` (here `open_sealed`), `remote_static`, `pin_remote`. Machine has the
--                 three phases of a session, Pin the pinned key; Exchange and Ordered say what the
--                 package does, for a handshake and for a transport.
--   Udp           src/network/udp.rs, and the host: the clock, the socket, the random generator.
--   Session       src/session.rs. Framing: `decode_incoming` and the paths of `send_inner`. Link:
--                 `send_inner`, `recv_inner`, `set_outbound_onion`. Transfer: `seal_data`, `flush`,
--                 `maybe_cover`, `handle_incoming`. Loops: `recv`, `wait_acked`, `send_timeout`.
--                 Handshake: `connect_initiator_pinned`, `accept_ex` and the calls that go to them.
--                 Channel, Round and Delivery put two sessions together, over a network that
--                 loses nothing; Loss is about one that does.
--   Common        the names and lemmas that the modules share; Tests has runs on concrete inputs.
-- A module's children hold its theorems and, for the ARQ, its halves.
--
-- The model. Bytes and machine integers are natural numbers, with the wrap-around written out; times
-- are milliseconds, and seconds in invitations. A `BTreeMap` is a list in ascending order of the
-- keys, a `HashMap` a list with distinct keys: what the code does in the order of a `HashMap` is done
-- here in the order of the list. A panic of `expect` is `none`. A method that changes its object
-- takes the state and gives the new one. A step of a node takes what the socket received, the clock,
-- and whether sending succeeds. The buffer of a socket keeps the first 1200 bytes of a datagram.
--
-- A method of a session is an Action (Common.Action): a state in, a state and a result out, and what
-- was written before an error stays written. The state has the socket in it, which counts how many of
-- the host's answers are used up and keeps what was given to `send_to`; the host is a parameter. An
-- onion that cannot be wrapped is taken to use a draw for each hop.
--
-- Fuel. `recv` and `wait_acked` take a unit for each pass; a reading of the clock that has reached the
-- deadline bounds the passes (Session.Termination). `chunk_loop` has as much as the message is long,
-- since a chunk takes a byte at least; the loop of `mark_received` has 64 rounds, since each drops one
-- of 64 bits.
--
-- Parameters. The packages for BLAKE3, X25519, XChaCha20-Poly1305 and Ed25519 are records of
-- functions (Crypto.Primitives, Admission.Signatures, `hash` of the replay cache); what they document
-- is in the records IsSound, which theorems take as a hypothesis. The package `snow` is Noise.Snow, and
-- what it documents is in Noise.Ordered.IsOrdered and Noise.Exchange.Exchange. The texts of its errors
-- are left out, and so are its limits of 65535 bytes for a message, which is more than a datagram
-- here can hold, and of 2 ^ 64 - 1 for the numbers of messages. Randomness is a stream of draws.
--
-- Not modelled: `bind_loopback`, `local_addr` and the command line, which only call the system; the
-- `Display` of the errors; key generation.
pub mod Common
pub mod Wire
pub mod Packet
pub mod Forward
pub mod Frame
pub mod Arq
pub mod Replay
pub mod Relay
pub mod Crypto
pub mod Noise
pub mod Onion
pub mod Udp
pub mod Session
pub mod Rendezvous
pub mod Admission
pub mod Cover
pub mod Tests
