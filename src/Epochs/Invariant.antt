-- ===== src/Epochs/Invariant.antt =====
-- What holds of the pallet's storage while a block is open.
pub mod Staging
pub mod Opening
use interplanetary_asynchron.Prelude.{
  ℕ, zero, suc, ◌+◌, ◌*◌, ◌≤◌, ◌<◌, ◌≡◌, refl, ap, true, Option, none, some, arith, length, nat_eq,
  pair_eq,
}
use interplanetary_asynchron.Epochs.Hooks.{staged_summary_record}
use interplanetary_asynchron.Epochs.State.{
  reserved, PendingBlockObservation, SummarySlotRecord, Storage,
}
use interplanetary_asynchron.Prelude.Map.{Map, get, insert, get-insert_other}
use interplanetary_asynchron.Types.Scale.{
  DomainId, domain_eq, Hash, EpochId, empty_hash, domain, Hasher,
}
use interplanetary_asynchron.Types.Summary.{EpochSummaryHeader, compute_summary_hash}

-- The hash that the header of epoch `e` must point back to.
abbrev pub hash_of : Option EpochSummaryHeader → Hash
hash_of none = empty_hash
hash_of (some header) = header.summary_hash

unfoldable pub prev_hash : Map EpochId EpochSummaryHeader → EpochId → Hash
prev_hash headers zero = empty_hash
prev_hash headers (suc e) = hash_of (get headers e)

module _ ⦃h : Hasher⦄ (domain_id : DomainId) (len : ℕ) where
  -- The header of epoch `e` among all headers.
  pub record IsHeader (headers : Map EpochId EpochSummaryHeader) (e : EpochId)
      (header : EpochSummaryHeader) : Type 0 where
    pub own_hash : header.summary_hash ≡ compute_summary_hash header
    pub epoch : header.epoch_id ≡ e
    pub domain : header.domain_id ≡ domain_id
    pub first_block : header.start_block_height ≡ e * len + 1
    pub last_block : header.end_block_height ≡ e * len + len
    pub chained : header.prev_summary_hash ≡ prev_hash headers e

  -- An epoch that was closed, in its header and its slot.
  abbrev pub IsClosed : Storage → EpochId → Type 0
  IsClosed s e =
      (header : EpochSummaryHeader) × (get s.summary_headers e ≡ some header)
      × IsHeader s.summary_headers e header
      × (staged_summary_record e s
          ≡ some (record { header = header; staged_at_block_number = e * len + len + 1 }))

  -- The open epoch's slot when `n` blocks were opened: all but the open one were observed.
  abbrev pub IsReserved : Storage → ℕ → Type 0
  IsReserved s n =
      (slot : SummarySlotRecord) × (get s.summary_slots s.current_epoch ≡ some slot)
      × (slot.status ≡ reserved)
      × (slot.accumulators.blocks_observed + s.current_epoch * len + 1 ≡ n)

  -- The epochs tile the blocks, and the closed ones are chained.
  pub record IsSchedule (n : ℕ) (s : Storage) : Type 0 where
    pub length : s.epoch_length_blocks ≡ len
    pub ready : s.is_initialized ≡ true
    pub opened : s.current_epoch_start ≡ s.current_epoch * len + 1
    pub after_start : s.current_epoch * len < n
    pub upto : n ≤ s.current_epoch * len + len
    pub count : s.summary_count ≡ s.current_epoch
    pub latest : s.latest_summary_hash ≡ prev_hash s.summary_headers s.current_epoch
    pub closed : (e : EpochId) → e < s.current_epoch → IsClosed s e
    pub future : (e : EpochId) → s.current_epoch ≤ e → get s.summary_headers e ≡ none

  pub record IsOpen (n : ℕ) (s : Storage) : Type 0 where
    pub schedule : IsSchedule n s
    pub slot : IsReserved s n

  -- After the block was finalized its figures are pending.
  pub record IsSound (n : ℕ) (s : Storage) : Type 0 where
    pub as_open : IsOpen n s
    pub pending :
        (observation : PendingBlockObservation) × (s.pending_block_observation ≡ some observation)
        × (observation.block_number ≡ n)

pub prev_hash-insert :
    (headers : Map EpochId EpochSummaryHeader) (c e : EpochId) (header : EpochSummaryHeader)
    → e ≤ c
    → prev_hash (insert headers c header) e ≡ prev_hash headers e
unfolding prev_hash
prev_hash-insert headers c zero header le = refl
prev_hash-insert headers c (suc e) header le =
    ap hash_of (get-insert_other headers c e header (λ same. omega arith))

pub epoch_le_start : (e len : ℕ) → 0 < len → e ≤ e * len
epoch_le_start e len positive = grind arith
