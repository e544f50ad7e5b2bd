-- ===== src/Lib.antt =====
-- Human network: a network of nodes that multiplies curve points by a secret that no node knows.
--
-- The program. Nodes generate a secret together, each keeping a share of it, and hand it to a new
-- quorum from time to time. A client sends a masked point; some of the nodes multiply it by their
-- shares, with a proof each; the client checks the proofs, combines the answers by Lagrange
-- coefficients and removes the mask. The contract's events about finished tasks are stored by an
-- ingester, from which the operators' points are computed.
--
-- The files, and the code each is about:
--   Prelude      Boolean tests, lists, maps and the outcome of a fallible call (value, error, panic)
--   Field        the trait `ff::PrimeField`, as an interface; Field.Laws: its algebra, for automation
--   Curve        network/crates/cryptography/src/curve.rs, the traits as an interface
--   Cryptography.Polynomial     network/crates/cryptography/src/polynomial.rs: evaluation, Lagrange
--                coefficients at zero, Feldman's sharing and its verification
--   Cryptography.Dleq           network/crates/cryptography/src/lib.rs: the proofs of equal discrete
--                logarithms and the oblivious evaluation between client and server
--   Cryptography.Reconstruct    network/crates/cryptography/src/reconstruct.rs; Checked: the
--                check of every proof
--   Cryptography.Dkg            network/crates/cryptography/src/dkg.rs: nodes, networks, three rounds
--   Cryptography.Resharing      network/crates/cryptography/src/resharing.rs; Key: the group's key; Honest:
--                round 2 after an honest round 1
--   Cryptography.Schnorr        network/crates/cryptography/src/schnorrsig.rs
--   Cryptography.Encryption     network/crates/cryptography/src/encryption.rs: ElGamal encryption to
--                the key of the network
--   Cryptography.NodeSelection  network/crates/cryptography/src/node_selection.rs
--   Actors.DkgEngine            network/crates/actors/src/dkg_engine_actor.rs: the operations on a
--                node's state that the rounds need, where the curve is a parameter; State: the engine over
--                both curves; Handlers: its set-up and the rounds
--   Actors.AppState             network/crates/actors/src/app_state_actor.rs: the state of a relay and
--                of a prover; Proofs: the collection of proofs up to the threshold; Quorum: the shares
--                and keys of the quorum; Monitor: the watch over its formation; Saved: the database, JSON
--                under texts, and the rollback; Requests: the requests of users
--   Actors.Election             network/crates/actors/src/election_actor.rs: Reelection: the elections and
--                what an elected node does; Reports: the announcement of the rounds
--   Actors.GossipEngine         network/crates/actors/src/gossip_engine_actor.rs: the gossiped messages
--   Messages.Drand              network/crates/messages/src/drand.rs, and its use by the election
--   Messages.ActorType          network/crates/messages/src/actor_type.rs
--   Messages.NetworkUtils       network/crates/messages/src/network_utils.rs: requests, signatures, credits
--   Ingester.TaskMonitor        network/crates/ingester/src/task_monitor.rs
--   Examples     concrete inputs: the field of seven elements, a group on it, and runs
--
-- The correspondence. Functions and types keep their names; a loop of a function is a function named
-- after what it does. A `HashMap` is an association list in the order in which it is iterated, so what
-- is stated for every list holds for every order. `assert!`, `unwrap` and an index out of bounds are
-- the outcome `panic`. Numbers are natural; arithmetic on `u128`, and casts, wrap as in a release
-- build. All loops run over a list or a number of rounds, so no fuel is needed; the monitor's loop runs
-- over the turns that its timer and its cancellation give it.
--
-- Outside code. The field and the curve are interfaces with the laws of a prime field and of a group
-- of that order. For Baby Jubjub these laws are those of its subgroup of prime order without 0: there
-- `encode` panics at 0 and `from_encoded` admits other points, so that what is stated of every point is
-- stated of secp256k1, and of Baby Jubjub only where no such point comes up. Hashes, random draws, RSA,
-- floating-point numbers, the databases, the decoders and the answers of the contracts and of other
-- nodes are arguments, with named hypotheses where a theorem relies on them.
--
-- Not modelled: logging and telemetry, HTTP, RPC and libp2p, the command line, the observer and the
-- clients of outside services, which are input and output around the parts above; the events of the
-- swarm, the pings of the election, the handlers of the resharing's own rounds and of round 3, and the
-- earlier programs under network/crates/v0_nodes. The handlers of answers are modelled for both curves;
-- the results on the point that a relay publishes are about secp256k1 alone.
pub mod Prelude
pub mod Field
pub mod Curve
pub mod Cryptography
pub mod Actors
pub mod Ingester
pub mod Messages
pub mod Examples
