-- ===== src/Transfers/Lifecycle.antt =====
-- What a record may become: its leaf never changes, and its status only moves forward.
pub mod Histories
use interplanetary_asynchron.Types.Export
use interplanetary_asynchron.Types.Import
use interplanetary_asynchron.Prelude.{
  ℕ, ◌≤◌, ◌≡◌, refl, subst, ◌∙◌, none, some, arith, nat_eq, pair_eq,
}
use interplanetary_asynchron.Prelude.Map.{get, Persists, Persists-trans, Persists-insert}
use interplanetary_asynchron.Transfers.Calls.{
  finalized_record, resolved_record, store_export, store_observed, store_finalized, store_resolved,
}
use interplanetary_asynchron.Transfers.Config.{Env, Accounts, Currency}
use interplanetary_asynchron.Transfers.State.{Storage}
use interplanetary_asynchron.Types.Export.{
  local_final, exported, ExportRecord, RemoteFinalizationClaim, export_id,
}
use interplanetary_asynchron.Types.Import.{
  remote_observed, ObservedImportClaim, ObservedImportRecord,
}
use interplanetary_asynchron.Types.Scale.{
  DomainId, domain_eq, ExportId, AccountIdBytes, AccountId, Hasher,
}

abbrev pub rank : Export.ExportStatus → ℕ
rank local_final = 0
rank exported = 1
rank Export.remote_finalized = 2

abbrev pub import_rank : Import.ImportObservationStatus → ℕ
import_rank remote_observed = 0
import_rank Import.remote_finalized = 1

pub record Advances (r q : ExportRecord) : Type 0 where
  pub leaf : q.leaf ≡ r.leaf
  pub status : rank r.status ≤ rank q.status

-- The facts of an observed import that the pallet acts on.
pub record ImportAdvances (r q : ObservedImportRecord) : Type 0 where
  pub amount : q.amount ≡ r.amount
  pub recipient : q.recipient ≡ r.recipient
  pub source : q.source_domain ≡ r.source_domain
  pub target : q.target_domain ≡ r.target_domain
  pub status : import_rank r.status ≤ import_rank q.status

Advances-refl : (r : ExportRecord) → Advances r r
Advances-refl r = record { leaf = refl; status = omega arith }

Advances-trans : (a b c : ExportRecord) → Advances a b → Advances b c → Advances a c
Advances-trans a b c p q = record { leaf = q.leaf ∙ p.leaf; status = omega arith }

ImportAdvances-refl : (r : ObservedImportRecord) → ImportAdvances r r
ImportAdvances-refl r = record {
  amount = refl;
  recipient = refl;
  source = refl;
  target = refl;
  status = omega arith;
}

ImportAdvances-trans :
    (a b c : ObservedImportRecord) → ImportAdvances a b → ImportAdvances b c → ImportAdvances a c
ImportAdvances-trans a b c p q = record {
  amount = q.amount ∙ p.amount;
  recipient = q.recipient ∙ p.recipient;
  source = q.source ∙ p.source;
  target = q.target ∙ p.target;
  status = omega arith;
}

pub record StorageAdvances {B : Type 0} (s t : Storage B) : Type 0 where
  pub exports : Persists Advances s.exports_by_id t.exports_by_id
  pub imports : Persists ImportAdvances s.observed_imports_by_id t.observed_imports_by_id

module _ {B : Type 0} where
  StorageAdvances-refl : (s : Storage B) → StorageAdvances s s
  StorageAdvances-refl s = record {
    exports = λ k v h. (v, h, Advances-refl v);
    imports = λ k v h. (v, h, ImportAdvances-refl v);
  }

  StorageAdvances-trans :
      (s t u : Storage B) → StorageAdvances s t → StorageAdvances t u → StorageAdvances s u
  StorageAdvances-trans s t u p q = record {
    exports =
        Persists-trans Advances Advances-trans s.exports_by_id t.exports_by_id u.exports_by_id
          p.exports q.exports;
    imports =
        Persists-trans ImportAdvances ImportAdvances-trans s.observed_imports_by_id
          t.observed_imports_by_id u.observed_imports_by_id p.imports q.imports;
  }

module _ {B : Type 0} (currency : Currency B) (accounts : Accounts) ⦃h : Hasher⦄ (env : Env)
    (s : Storage B) where
  resolved-advances :
      (who : AccountId) (claim : RemoteFinalizationClaim) (r : ExportRecord) (balances : B)
      → get s.exports_by_id claim.export_id ≡ some r
      → StorageAdvances s (store_resolved accounts env who claim r balances s)
  unfolding store_resolved
  resolved-advances who claim r balances found = record {
    exports =
        Persists-insert Advances Advances-refl s.exports_by_id claim.export_id
          (resolved_record accounts env who claim r)
          (λ v p.
            let same : r ≡ v = ground arith in
            subst (λ x. Advances x (resolved_record accounts env who claim r)) same
              (record { leaf = refl; status = rank_le r.status }));
    imports = λ k v p. (v, p, ImportAdvances-refl v);
  }
    where
      rank_le : (x : Export.ExportStatus) → rank x ≤ 2
      rank_le local_final = omega arith
      rank_le exported = omega arith
      rank_le Export.remote_finalized = omega arith

  finalized-advances :
      (who : AccountId) (id : ExportId) (r : ObservedImportRecord) (balances : B)
      → get s.observed_imports_by_id id ≡ some r
      → StorageAdvances s (store_finalized accounts env who id r balances s)
  unfolding store_finalized
  finalized-advances who id r balances found = record {
    exports = λ k v p. (v, p, Advances-refl v);
    imports =
        Persists-insert ImportAdvances ImportAdvances-refl s.observed_imports_by_id id
          (finalized_record accounts env who r)
          (λ v p.
            let same : r ≡ v = ground arith in
            subst (λ x. ImportAdvances x (finalized_record accounts env who r)) same
              (record {
                amount = refl;
                recipient = refl;
                source = refl;
                target = refl;
                status = rank_le r.status;
              }));
  }
    where
      rank_le : (x : Import.ImportObservationStatus) → import_rank x ≤ 1
      rank_le remote_observed = omega arith
      rank_le Import.remote_finalized = omega arith

  observed-advances :
      (who : AccountId) (claim : ObservedImportClaim)
      → get s.observed_imports_by_id claim.export_id ≡ none
      → StorageAdvances s (store_observed accounts env who claim s)
  unfolding store_observed
  observed-advances who claim fresh = record {
    exports = λ k v p. (v, p, Advances-refl v);
    imports =
        Persists-insert ImportAdvances ImportAdvances-refl s.observed_imports_by_id claim.export_id
          _ (λ v p. absurd (ground arith));
  }

  created-advances :
      (who : AccountId) (target_domain : DomainId) (recipient : AccountIdBytes) (amount : ℕ)
      (balances : B)
      → get s.exports_by_id (export_id env.domain_id s.next_export_sequence) ≡ none
      → StorageAdvances s (store_export accounts env who target_domain recipient amount balances s)
  unfolding store_export
  created-advances who target_domain recipient amount balances fresh = record {
    exports =
        Persists-insert Advances Advances-refl s.exports_by_id
          (export_id env.domain_id s.next_export_sequence) _ (λ v p. absurd (ground arith));
    imports = λ k v p. (v, p, ImportAdvances-refl v);
  }
