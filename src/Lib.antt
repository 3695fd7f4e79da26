-- ===== src/Lib.antt =====
-- Verification of ire, an I2P router.
--
-- The program. Messages from peers come in over transports (src/transport) and are distributed to
-- the network database (src/netdb), to the tunnel participant and to the listener for tunnel build
-- requests (src/tunnel). The participant checks each TunnelData message for its tunnel against the
-- previous hop and a duplicate filter (src/util.rs), and spawns a hop processor, which encrypts the
-- message (src/tunnel/encryption.rs) and gives it to the transports for the next hop. The
-- transports keep a session, or frames that wait for one, for each peer (src/transport/session.rs).
-- The network database stores RouterInfos and LeaseSets, expires them, and answers lookups.
--
-- The files, and the code that they model.
--   Bloom: DecayingBloomFilter of src/util.rs (`new`, `feed`, `decay`). Bloom/Exact is an instance of
--     the crate's filter for the examples.
--   Crypto, Data, I2np: the types of src/crypto/mod.rs, src/data/mod.rs and src/i2np/mod.rs, with
--     the codes of signature types and certificates. Data/LeaseSet: src/data/dest.rs.
--   Tunnel/Hop: the types of src/tunnel.rs. Tunnel/Encryption: LayerCipher of
--     src/tunnel/encryption.rs and Aes256 of src/crypto/mod.rs. Tunnel/Participant: Participant of
--     src/tunnel/processor.rs, one iteration of the loop in `poll` as `turn`. Tunnel/Processor:
--     HopProcessor of the same file, one iteration as `step`.
--   Tunnel/BuildRequest, Tunnel/Acceptor, Tunnel/Listener: src/tunnel/acceptor.rs, the checks and the
--     answer of a build request, HopAcceptor with one iteration as `step`, and Listener.
--     Tunnel/Acceptor/Reply describes the answer apart from the code.
--   Tunnel/Fragment: the fragments of src/tunnel.rs and their lengths. Tunnel/Frame: how
--     src/tunnel/frame.rs writes and reads them, and the tunnel message that it writes.
--   Wire: what the formats share. Wire/Nom and Wire/Cookie are the crates nom and cookie_factory as
--     records of combinators with laws; Wire/Reads and Wire/Writes have a rule for each of them, for
--     parsers that read exactly the bytes of a value and generators that write them.
--     Wire/Reference is an instance of both records for the examples.
--   Crypto/Frame: src/crypto/frame.rs, the codes and plain keys. Crypto/Lengths: the lengths of
--     SigType. Data/Frame: src/data/frame.rs up to certificates.
--     Data/Frame/RouterInfo: gen_router_info of that file as far as its first field.
--   I2np/Records: the build records of src/i2np/frame.rs. I2np/Frame: its payloads but garlic, with
--     `Parse` and `Generate` for the source, and `Layout` for the layout that both are compared to.
--     I2np/Framing: headers, the match on the type, garlic, and the two frames of a message.
--   Netdb: LocalNetworkDatabase of src/netdb/mod.rs, the stores and expiry. Netdb/Lookup: its
--     lookups. Netdb/Metric and Netdb/Closest: XorMetric and select_closest_ff.
--   Netdb/Engine: Engine of the same file, one pass over the three states of `poll` as `turn`, and
--     Query::handle of src/netdb/client.rs.
--   Transport/Session: SessionState and SessionContext of src/transport/session.rs.
--   HashMap: the standard library's map as an association list with one entry for a key.
--   Prelude: names of the libraries passed on, Boolean tests on numbers and byte strings, results.
--   A module called Tests holds examples of the modules beside it.
--
-- The state and the outside. A handler is a function from its state and its input to the state
-- after it and what it did. A parser takes bytes to what is left and a value, a generator a
-- buffer and a position to the next ones. Clocks, timers, channels, the thread pool and random
-- numbers are input. A time counts from the Unix epoch, in milliseconds, but in nanoseconds in
-- Tunnel/BuildRequest, Tunnel/Acceptor and for the expiry of hops. A byte is a number below 256.
-- Panics (`unwrap`, `assert_eq!`, `unimplemented!`) are values: `none`, or a constructor
-- `panicked`. A run is a list of inputs, so no fuel is needed; every loop is structural
-- recursion. Only the parser of messages has fuel, the depth to which garlic is nested, and runs
-- out of it with a panic; the theorems ask for no more fuel than the depth of the message.
--
-- Parameters. The crates bloom_filter_rs, aes, cbc, nom, cookie_factory, sha2, chrono, flate2 and futures
-- are not defined here. The first three, nom and cookie_factory are records of operations with
-- laws that state their documented behaviour, each with a concrete instance; the others are
-- functions or inputs. The lengths that elliptic_curve and ed25519_dalek define are the record
-- `CurveSizes`. What the network database asks of a RouterInfo is the interface `RouterInfoOps`;
-- a RouterInfo is a type parameter.
--
-- Not modelled: logging, the formats of identities, router infos, lease sets, mappings and
-- signatures (of a RouterInfo only that it starts with the public key), reading a compressed
-- RouterInfo, the parser of a whole tunnel message, the handshakes and codecs of both transports,
-- the choice among transports, the client of the network database, the iteration of a lookup over
-- peers, reseeding, the big-number cryptography, configuration and the command line.
mod Prelude
pub mod HashMap
pub mod Bloom
pub mod Crypto
pub mod Data
pub mod I2np
pub mod Tunnel
pub mod Netdb
pub mod Transport
pub mod Wire
