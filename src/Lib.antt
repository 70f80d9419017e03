-- ===== src/Lib.antt =====
-- Private currency: a service on the Exonum blockchain whose balances and transfers are Pedersen
-- commitments. Wallets, their histories and their cached past balances live in the tables of
-- src/storage.rs; the transactions of src/transactions.rs create wallets, send transfers and accept
-- them; a transfer that is not accepted in time is refunded at the end of a block (`do_rollback`,
-- called by `before_commit` of src/lib.rs).
--
-- Modules and code:
--   * Config: the constants of src/lib.rs.
--   * Crypto: src/crypto/proofs.rs. Crypto.Suite is a parameter for the crates that it calls
--     (curve25519-dalek, bulletproofs, byteorder) with the laws relied on; Crypto.Opening,
--     Crypto.Commitment and Crypto.RangeProof are the three types; Crypto.Sample is an instance.
--     Crypto.Serialization is src/crypto/serialization.rs: Buffers and RoundTrip are about its two
--     forms, those in the buffers of messages and in JSON.
--   * Transactions: src/transactions.rs: Messages (the three transactions), Errors (`Error`, and
--     how an operation ends), Execute (`verify` and `execute` of each transaction).
--   * Exonum: a parameter for the framework's messages, hashes and indexes, with their laws;
--     Exonum.Sample is an instance over lists.
--   * Storage: src/storage.rs: Wallet (`Wallet` and `Event`), State (`Schema` and its readers),
--     Schema (the operations of transactions), Rollback (the refunds), Exec (a fork that is
--     written, with errors and panics).
--   * Debug: src/debug.rs: `check_invariants`, the probe that runs before a commit, and the channel that
--     the debugger reads, to which the probe sends after a commit; `Service::debug` of src/lib.rs.
--   * Service: `before_commit` of src/lib.rs and how Exonum runs transactions and blocks, as a step
--     relation with the states that it reaches.
--   * Consistency: the invariant of the tables and its preservation, by the kinds of change. Outcome
--     lists the ways in which a transaction can end; Commit and Money go through them, the one for
--     the invariant, the other for the supply of money, which Supply, Transit, Conservation and
--     Refunded are about (with the sums of Crypto.Sums). Growth is about what stays as the chain
--     goes on, Repaid about what the refunds give to whom, Authority about who can change a
--     balance, Paid about the executions of transfers, Handlers about those of acceptances and
--     creations, and Settled about transfers that do not wait any more.
--   * TrustAnchor: src/utils.rs; Quorum describes an accepted block proof, Overlap two of them.
--   * Secrets: src/secrets.rs: the secret state of an owner, over a parameter for the boxes of
--     sodiumoxide (Crypto.Enc, src/crypto/enc.rs), with an instance in Crypto.EncSample. Sign has
--     what it signs; Follow, Create and Honest join it to the tables and the transactions.
--   * Api: src/api.rs: Merkle (a parameter for Exonum's proofs of indexes and blocks, with the law
--     that proofs made from an index check, and what it means that a proof is not forged), Events
--     (`FullEvent`), Errors (`VerifyError`), WalletProof (how a node makes an answer and how a client
--     checks it), Endpoints (the two HTTP endpoints); Loading, Answer and Complete are about honest
--     answers, Genuine, Sound and Withheld about those that pass the check; Api.Sample is an instance.
--   * Client: examples/clients/client.rs: the state of a client and how it polls; Env (the keys that
--     the clients share and how they are launched), Run (what it sends, and its loop); Step, Follow
--     and Poll join it to Api and Secrets, Spend is about its transfers, Accepts about its
--     acceptances, Peers about the choice of a peer, and Continue and Turn about a whole turn,
--     Later about what a client has followed when the chain has gone on, and Turns about its loop
--     meanwhile.
--   * Demo: examples/clients/main.rs: Validators and Options (its options; floating-point numbers,
--     the parsers of the standard library and what clap has matched are parameters), Accepted and
--     Launch (what the program starts with them).
--   * Scenario and Tests: a small chain over the instances.
--
-- Numbers: keys and hashes are 32-byte values that are only compared, and are natural numbers. A sum
-- on `u64` wraps. `HasRoom` states that a height and the histories are away from 2^64: delays are
-- below 1000, and a block adds at most one event to a history for each transfer that is due and for
-- the transaction. No operation needs fuel: the loops run over lists, that of `random_peer` over the
-- keys that it draws. Panics are values, so that their absence is stated, those of
-- `debug_assert` too. A request of the example client that cannot be sent, or whose answer cannot be
-- parsed, is a panic, and another status than success is not; a loop of `random_peer` that has not
-- ended with the keys that were drawn leaves the turn without a result.
--
-- Not modelled: the wiring of the endpoints, the conversion of raw messages and the configuration of
-- the node, which are the framework's, as is the serialization of messages; the threads, pauses and
-- logging of the example clients; the generators of the commitments, which are constants of the
-- crates. The framework discards the writes of a failed transaction; that rule is part of the model
-- of the chain.
pub mod Prelude
pub mod Config
pub mod Crypto
pub mod Transactions
pub mod Exonum
pub mod Storage
pub mod Debug
pub mod Service
pub mod Consistency
pub mod TrustAnchor
pub mod Secrets
pub mod Api
pub mod Client
pub mod Demo
pub mod Scenario
mod Tests
