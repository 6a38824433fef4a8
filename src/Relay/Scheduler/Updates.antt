-- ===== src/Relay/Scheduler/Updates.antt =====
-- What `update_record` leaves in the index.
use interplanetary_asynchron.Prelude.{◌≡◌, refl, sym, ◌∙◌, ◌≢◌, some, arith, nat_eq, pair_eq}
use interplanetary_asynchron.Prelude.Index.{find_by-put_here, find_by-put_other}
use interplanetary_asynchron.Relay.Delivery.{update_record}
use interplanetary_asynchron.Relay.Store.{
  Key, RelayPackageRecord, key_of, RelayStore, find_record, persist_record, save_index,
}
use interplanetary_asynchron.Types.Scale.{domain_eq}

-- `t` is `s` but for the record under the key of `r`, which is now `current`.
pub record Holds (s : RelayStore) (r current : RelayPackageRecord) (t : RelayStore) : Type 0 where
  pub here : find_record t.packages (key_of r) ≡ some current
  pub same_key : key_of current ≡ key_of r
  pub others : (k : Key) → key_of r ≢ k → find_record t.packages k ≡ find_record s.packages k
  pub payloads : t.payloads ≡ s.payloads
  pub saved : s.saved ≡ s.packages → t.saved ≡ t.packages

pub Holds-refl :
    (s : RelayStore) (r : RelayPackageRecord)
    → find_record s.packages (key_of r) ≡ some r
    → Holds s r r s
Holds-refl s r at = record {
  here = at;
  same_key = refl;
  others = λ k away. refl;
  payloads = refl;
  saved = λ e. e;
}

updated :
    (r current : RelayPackageRecord) (f : RelayPackageRecord → RelayPackageRecord) (t : RelayStore)
    → find_record t.packages (key_of r) ≡ some current
    → update_record r f t ≡ save_index (persist_record (f current) t)
unfolding update_record
updated r current f t at = ground arith

pub Holds-update :
    (s : RelayStore) (r current : RelayPackageRecord) (t : RelayStore)
    (f : RelayPackageRecord → RelayPackageRecord)
    → key_of (f current) ≡ key_of current
    → Holds s r current t
    → Holds s r (f current) (update_record r f t)
unfolding persist_record
Holds-update s r current t f keeps holds =
    let key = keeps ∙ holds.same_key in
    rw (updated r current f t holds.here) (record {
      here = find_by-put_here key_of t.packages (f current) (key_of r) key;
      same_key = key;
      others = λ k away.
          find_by-put_other key_of t.packages (f current) k (λ e. away (sym key ∙ e))
          ∙ holds.others k away;
      payloads = holds.payloads;
      saved = λ _. refl;
    })
