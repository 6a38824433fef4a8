-- ===== src/Epochs/Invariant/Staging.antt =====
-- The invariant when an epoch ends: its header is stored and the next epoch opens.
use mathlib.Core.Option
use interplanetary_asynchron.Prelude.{
  ℕ, zero, suc, ◌+◌, ◌*◌, ◌≤◌, ◌<◌, ◌≡◌, refl, sym, ap, subst, ◌∙◌, some, arith, nat_beq,
  if◌then◌else◌, nat_eq, pair_eq,
}
use interplanetary_asynchron.Epochs.Hooks.{reserve_slot, store_header, staged_summary_record}
use interplanetary_asynchron.Epochs.Invariant.{
  hash_of, prev_hash, IsHeader, IsClosed, IsSchedule, IsOpen, prev_hash-insert, epoch_le_start,
}
use interplanetary_asynchron.Epochs.State.{staged, SummarySlotRecord, Storage}
use interplanetary_asynchron.Prelude.Map.{Map, get, insert, get-insert_self, get-insert_other}
use interplanetary_asynchron.Types.Scale.{
  DomainId, domain_eq, Hash, EpochId, empty_hash, Hasher, u32_max,
}
use interplanetary_asynchron.Types.Summary.{EpochSummaryHeader}
-- A staged record is read from the epoch's slot only.
use native.Mathlib.Decide.{dec_lt}
use interplanetary_asynchron.Prelude.{
  ℕ, zero, suc, ◌+◌, ◌*◌, ◌≤◌, ◌<◌, ◌≡◌, refl, sym, ap, subst, ◌∙◌, some, arith, nat_beq,
  if◌then◌else◌, nat_eq, pair_eq,
}
use interplanetary_asynchron.Epochs.Hooks.{reserve_slot, store_header, staged_summary_record}
use interplanetary_asynchron.Epochs.Invariant.{
  hash_of, prev_hash, IsHeader, IsClosed, IsOpen, prev_hash-insert, epoch_le_start,
}
use interplanetary_asynchron.Epochs.State.{staged, SummarySlotRecord, Storage}
use interplanetary_asynchron.Prelude.Map.{Map, get, insert, get-insert_self, get-insert_other}
use interplanetary_asynchron.Types.Scale.{
  DomainId, domain_eq, Hash, EpochId, empty_hash, Hasher, u32_max,
}
use interplanetary_asynchron.Types.Summary.{EpochSummaryHeader}

pub staged-eq :
    (s t : Storage) (e : EpochId)
    → get s.summary_slots e ≡ get t.summary_slots e
    → staged_summary_record e s ≡ staged_summary_record e t
unfolding staged_summary_record
staged-eq s t e same = rw same refl

-- The hash that the pallet chooses for the new header.
pub chosen-prev_hash :
    (headers : Map EpochId EpochSummaryHeader) (c : EpochId) (latest : Hash)
    → latest ≡ prev_hash headers c
    → (if nat_beq c 0 then empty_hash else latest) ≡ prev_hash headers c
unfolding prev_hash
chosen-prev_hash headers zero latest e = refl
chosen-prev_hash headers (suc c) latest e = ground (arith, e)

module _ ⦃h : Hasher⦄ (domain_id : DomainId) (len n : ℕ) (t : Storage) (slot : SummarySlotRecord)
    (header : EpochSummaryHeader) where
  -- The slot of the epoch that ends.
  abbrev closing : SummarySlotRecord
  closing = record slot {
    end_height = some header.end_block_height;
    staged_at_block_number = some (n + 1);
    last_touched_block = n + 1;
    header = some header;
    status = staged;
  }

  -- The storage once the header is in and epoch `next` is open.
  abbrev pub reopened : EpochId → Storage
  reopened next =
      reserve_slot domain_id next (n + 1) (n + 1)
        (record (store_header t.current_epoch (n + 1) header slot t) {
          current_epoch = next;
          current_epoch_start = n + 1;
        })

  module _ (positive : 0 < len) (room : n < u32_max) (sound : IsSchedule domain_id len n t)
      (ends : n ≡ t.current_epoch * len + len)
      (is_header : IsHeader domain_id len t.summary_headers t.current_epoch header) where
    abbrev headers' : Map EpochId EpochSummaryHeader
    headers' = insert t.summary_headers t.current_epoch header

    kept-IsHeader :
        (e : EpochId) (x : EpochSummaryHeader)
        → e ≤ t.current_epoch
        → IsHeader domain_id len t.summary_headers e x
        → IsHeader domain_id len headers' e x
    kept-IsHeader e x le i = record {
      own_hash = i.own_hash;
      epoch = i.epoch;
      domain = i.domain;
      first_block = i.first_block;
      last_block = i.last_block;
      chained = i.chained ∙ sym (prev_hash-insert t.summary_headers t.current_epoch e header le);
    }

    staged-before :
        (e : EpochId)
        → e < t.current_epoch
        → staged_summary_record e (reopened (suc t.current_epoch)) ≡ staged_summary_record e t
    unfolding reserve_slot store_header
    staged-before e lt = staged-eq (reopened (suc t.current_epoch)) t e (
        get-insert_other _ (suc t.current_epoch) e _ (λ same. omega arith)
        ∙ get-insert_other t.summary_slots t.current_epoch e _ (λ same. omega arith))

    staged-last :
        staged_summary_record t.current_epoch (reopened (suc t.current_epoch))
        ≡ some (record { header = header; staged_at_block_number = n + 1 })
    unfolding reserve_slot store_header staged_summary_record Option.bind
    staged-last =
        staged-eq (reopened (suc t.current_epoch))
          (store_header t.current_epoch (n + 1) header slot t) t.current_epoch
          (get-insert_other _ (suc t.current_epoch) t.current_epoch _ (λ same. omega arith))
        ∙ rw (get-insert_self t.summary_slots t.current_epoch closing) refl

    reopened-closed :
        (e : EpochId)
        → e < suc t.current_epoch
        → IsClosed domain_id len (reopened (suc t.current_epoch)) e
    unfolding reserve_slot store_header
    reopened-closed e lt = elim (dec_lt e t.current_epoch) [
      | yes before ↦
          let (x, found, i, record_) = sound.closed e before in
          (
            x,
            get-insert_other t.summary_headers t.current_epoch e header (λ same. omega arith)
                ∙ found,
            kept-IsHeader e x (omega arith) i,
            staged-before e before ∙ record_,
          )
      | no last ↦
          let same : t.current_epoch ≡ e = omega arith in
          subst (λ k. IsClosed domain_id len (reopened (suc t.current_epoch)) k) same
            (
              header,
              get-insert_self t.summary_headers t.current_epoch header,
              kept-IsHeader t.current_epoch header (omega arith) is_header,
              staged-last
                  ∙ ap (λ k. some (record { header = header; staged_at_block_number = k + 1 }))
                      ends,
            )
    ]

    pub reopened-IsOpen : IsOpen domain_id len (n + 1) (reopened (suc t.current_epoch))
    unfolding reserve_slot store_header prev_hash
    reopened-IsOpen = record {
      schedule = record {
        length = sound.length;
        ready = sound.ready;
        opened = omega (arith);
        after_start = omega arith;
        upto = omega (arith);
        count =
            omega
              (arith, sound.count, epoch_le_start t.current_epoch len positive, sound.after_start);
        latest = sym (ap hash_of (get-insert_self t.summary_headers t.current_epoch header));
        closed = reopened-closed;
        future = λ e le.
            get-insert_other t.summary_headers t.current_epoch e header (λ same. omega arith)
            ∙ sound.future e (omega arith);
      };
      slot = (_, get-insert_self _ (suc t.current_epoch) _, refl, omega (arith));
    }
