-- ===== src/Lib.antt =====
-- The chains and the transport of the Interplanetary Asynchronous Ledger Protocol: three domains
-- (Earth, Moon, Mars), each a chain of its own, that move value and governance decisions between them
-- without waiting for each other.
--
-- How the parts interact. A transfer puts the sender's funds on hold on the source chain and stores
-- an export. When the epoch ends, the epochs pallet asks the other pallets for the Merkle roots of
-- the epoch's exports, finalized imports and governance leaves, and authors a header that carries
-- them and the hash of the header before it. The exporter makes a package of the header, its
-- certificate and inclusion proofs for each domain that something goes to, and submits it to the
-- relay, which holds it back for the delay and the blackouts of the link and delivers it to the
-- importer of the target. There the importer account reports what it verified: an import is observed,
-- then minted once, and the source chain, told of that, burns the hold. Governance proposals travel
-- the same way, and are activated once every target domain has acknowledged them.
--
-- Which file models what:
-- * Prelude and below: the shared helpers. Prelude.Map is a FRAME storage map, Prelude.Outcome a
--   DispatchResult with `?` and `ensure!`, Prelude.Sorting `sort_by`, Prelude.Lists slices and
--   iterators, Prelude.Index a list that is searched by a key, Prelude.Tests the Boolean tests.
-- * Types and below: crates/common-types/src/lib.rs, the data that all parts share. An impl's
--   function stands in the module of its type (Types.Export.from_hash_input is
--   ExportLeaf::from_hash_input, Types.ProposalLeaf and Types.AckLeaf hold the two kinds of
--   governance leaf, Types.Accumulators the running hashes of an epoch).
-- * Merkle and below: the three Merkle families of crates/common-types/src/lib.rs. Merkle.Tree has
--   the loops that they share, over the parent hash; Merkle.Exports, Merkle.Imports and
--   Merkle.Governance the functions of each family; Merkle.Paths and Merkle.Soundness the
--   arithmetic of paths, Merkle.Family what is proved once for all families.
-- * Transfers and below: chain/pallets/transfers/src/lib.rs. Transfers.State is the storage with
--   genesis, Transfers.Calls the four calls, Transfers.Commit what an epoch's end does,
--   Transfers.Runs histories of a chain as a step relation. A call is its guards in a do block and
--   a function store_... for what it writes.
-- * Epochs and below: chain/pallets/epochs/src/lib.rs. Epochs.Hooks has on_initialize, on_finalize
--   and their helpers, Epochs.Blocks the blocks of a chain, with the work of the other pallets as a
--   relation. The commitment providers are a record of functions on the other pallets' state.
-- * Governance and below: chain/pallets/governance/src/lib.rs. Governance.Calls and
--   Governance.Imports are the calls, Governance.Activation the scheduling and the hook,
--   Governance.Outbox the leaves and their root, Governance.Votes the votes through histories,
--   Governance.Decision the closing of a vote, Governance.Safety.Histories the step relation.
-- * Domain, the identity that each chain announces: chain/pallets/domain/src/lib.rs.
-- * Runtime and below: chain/runtime/src/lib.rs, the providers that join the three pallets, and the
--   blocks that run them.
-- * Packages, the packages and envelopes of crates/common-types/src/lib.rs that the services send.
-- * Config and below: crates/common-config/src/lib.rs. Config.Transport validates the links,
--   Config.Domains a domain's configuration; Config.Text has strings as lists of code points.
-- * Exporter and below: services/exporter/src/lib.rs, from the leaves of an epoch to the packages and
--   the envelopes. Exporter.Grouping is about the grouping by target, Exporter.Built about the
--   proofs of a package, Exporter.Accepted about what the relay makes of the envelopes.
-- * Relay and below: services/relay/src. Relay.Envelope decides whether an envelope is taken,
--   Relay.Blackout moves a delivery out of the blackout windows, Relay.Store is store.rs with
--   submit_package. Relay.Records has the records that the scheduler writes, Relay.Delivery the
--   scheduling and the attempts, Relay.Scheduler what scheduler_tick does with one record, as
--   functions on the store that return an error beside it. Relay.Scheduler.Transitions has what one
--   visit can make of a record, Relay.Histories the step relation of submissions, visits and
--   restarts.
-- * Examples and below: concrete runs, and the theorems applied to them.
--
-- What is assumed. `encode` and `blake2_256` are outside the repository: a Hasher maps a tuple of
-- SCALE fields to a number; theorems that need more of it say so (IsBinding: no collisions
-- between leaves, between pairs, or between a leaf and a pair; IdsAreDistinct: no collision between
-- two sequence numbers of one domain). The currency is a record of hold, burn_held and
-- mint_into with named laws (Transfers.Config). Account ids are numbers with a codec that decodes what
-- it encoded. A call that fails changes nothing, as FRAME rolls it back. Examples.World meets all of
-- these with concrete functions. The codec of packages is a PackageCodec, whose decoding inverts its
-- encoding where a theorem says so (PackageCodecLaws); Examples.Codec is one. The calendar of chrono
-- is a Chrono, the parser of multiaddresses a function. Files are maps, and writing one succeeds; the
-- hexadecimal text of a hash stands for the hash, and the name of a file for what it is made of. An
-- importer's reply and each reading of the clock are arguments of the relay's steps, and may be
-- anything.
--
-- Numbers and loops. Integers are natural numbers, with the saturation or the wrap-around of the
-- source written out. Block numbers are below 2 ^ 32 and the export counter below 2 ^ 64 - 1 where a
-- step says so; past them the source would saturate. The loops over a Merkle level run on fuel, the
-- number of leaves, which is enough since each round halves the level (Merkle.Paths). The loop of
-- next_delivery_after runs on fuel, one more than the windows, which is enough since each round but
-- the last leaves a window behind for good (Relay.Blackout.Least). All other loops are structural.
--
-- What is not modelled. Weights, storage keys, serde and Display; debug_assert, whose conditions
-- follow from the invariant of Epochs; calls of the balances pallet itself between the calls of the
-- other pallets; the node, which is wiring and RPC; the importer; the store of the exporter; the
-- scenario harness. A step of the relay runs to its end before the next: in the source a submission
-- can come while a delivery waits for the importer, but it writes only the record and the file of a
-- key that is new. A process that dies while it waits leaves what an answer that does not decode
-- leaves.
mod Prelude
pub mod Types
pub mod Domain
pub mod Merkle
pub mod Transfers
pub mod Epochs
pub mod Governance
pub mod Packages
pub mod Config
pub mod Relay
pub mod Exporter
pub mod Runtime
mod Examples
