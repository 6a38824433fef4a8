-- ===== src/Transfers/Invariant.antt =====
-- What holds of the storage between calls: every export record is well formed, the epoch indices and
-- the records agree, and every unresolved export is backed by funds on hold.
pub mod Create
pub mod Resolve
pub mod Marking
pub mod Close
use interplanetary_asynchron.Types.Export
use interplanetary_asynchron.Prelude.{
  ℕ, ◌≤◌, ◌<◌, ◌≡◌, ◌≢◌, true, false, Option, none, some, arith, In, nat_beq, if◌then◌else◌, nat_eq,
  pair_eq,
}
use interplanetary_asynchron.Merkle.Exports.{HasOwnHash}
use interplanetary_asynchron.Prelude.Map.{weight, get}
use interplanetary_asynchron.Transfers.Config.{Accounts, Currency}
use interplanetary_asynchron.Transfers.State.{Storage, genesis, export_ids}
use interplanetary_asynchron.Types.Export.{local_final, export_status_beq, ExportRecord, export_id}
use interplanetary_asynchron.Types.Scale.{
  DomainId, domain_eq, ExportId, AccountId, EpochId, Hasher, u64_max,
}

-- What an account owes to an export: its amount, until the export is resolved.
abbrev pub owed_by : AccountId → Option AccountId → ℕ → ℕ
owed_by a none amount = 0
owed_by a (some sender) amount = if nat_beq sender a then amount else 0

abbrev pub owed : Accounts → AccountId → ExportRecord → ℕ
owed accounts a r =
    if export_status_beq r.status Export.remote_finalized
    then 0
    else owed_by a (accounts.from_bytes r.leaf.sender) r.leaf.amount

-- The bytes of two distinct sequence numbers of one domain do not collide under the hash.
abbrev pub IdsAreDistinct : Hasher → DomainId → Type 0
IdsAreDistinct h d =
    (m n : ℕ) → m ≤ u64_max → n ≤ u64_max → export_id ⦃h = h⦄ d m ≡ export_id ⦃h = h⦄ d n → m ≡ n

module _ (accounts : Accounts) ⦃h : Hasher⦄ (domain_id : DomainId) where
  -- A record under its key, when `next` exports were created and the epoch `current` is open.
  pub record IsRecorded (next : ℕ) (current : EpochId) (k : ExportId) (r : ExportRecord)
      : Type 0 where
    pub id : r.leaf.export_id ≡ k
    pub own_hash : HasOwnHash r.leaf
    pub source : r.leaf.source_domain ≡ domain_id
    pub target : r.leaf.target_domain ≢ domain_id
    pub positive : 0 < r.leaf.amount
    pub sequence : (n : ℕ) × (n < next) × (k ≡ export_id domain_id n)
    pub sender : (a : AccountId) × (accounts.from_bytes r.leaf.sender ≡ some a)
    pub open_epoch :
        export_status_beq r.status local_final ≡ true → r.leaf.source_epoch_id ≡ current
    pub closed_epoch :
        export_status_beq r.status local_final ≡ false → r.leaf.source_epoch_id < current

module _ {B : Type 0} (currency : Currency B) (accounts : Accounts) ⦃h : Hasher⦄
    (domain_id : DomainId) where
  pub record IsSound (current : EpochId) (s : Storage B) : Type 0 where
    pub bounded : s.next_export_sequence ≤ u64_max
    pub recorded :
        (k : ExportId) (r : ExportRecord)
        → get s.exports_by_id k ≡ some r
        → IsRecorded accounts domain_id s.next_export_sequence current k r
    pub listed :
        (k : ExportId) (r : ExportRecord)
        → get s.exports_by_id k ≡ some r
        → In k (export_ids s r.leaf.source_epoch_id)
    pub indexed :
        (e : EpochId) (k : ExportId)
        → In k (export_ids s e)
        → (r : ExportRecord) × (get s.exports_by_id k ≡ some r) × (r.leaf.source_epoch_id ≡ e)
    pub backed :
        (a : AccountId) → currency.on_hold s.balances a ≡ weight (owed accounts a) s.exports_by_id

  -- Before the first call nothing is owed; nothing may be on hold either.
  pub genesis-IsSound :
      (importer : Option AccountId) (balances : B)
      → ((a : AccountId) → currency.on_hold balances a ≡ 0)
      → IsSound 0 (genesis importer balances)
  unfolding get weight
  genesis-IsSound importer balances none_held = record {
    bounded = omega arith;
    recorded = λ k r p. absurd (ground arith);
    listed = λ k r p. absurd (ground arith);
    indexed = λ e k m. absurd m;
    backed = none_held;
  }
