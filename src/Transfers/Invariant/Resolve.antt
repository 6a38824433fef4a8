-- ===== src/Transfers/Invariant/Resolve.antt =====
-- An acknowledgement, an observation and a finalization keep the invariant.
use interplanetary_asynchron.Prelude.{
  ◌≡◌, ap, subst, ◌∙◌, inl, inr, true, some, arith, In, nat_beq, nat_beq_iff, Bool-cases, nat_eq,
  pair_eq,
}
use interplanetary_asynchron.Prelude.Map.{weight, get, get-insert, get-insert_cases, weight-insert}
use interplanetary_asynchron.Transfers.Calls.{
  resolved_record, store_observed, store_finalized, store_resolved,
}
use interplanetary_asynchron.Transfers.Config.{Env, Accounts, Currency, CurrencyLaws}
use interplanetary_asynchron.Transfers.Invariant.{owed, IsRecorded, IsSound}
use interplanetary_asynchron.Transfers.State.{Storage, export_ids}
use interplanetary_asynchron.Types.Export.{
  exported, export_status_beq, ExportRecord, RemoteFinalizationClaim,
}
use interplanetary_asynchron.Types.Import.{ObservedImportClaim, ObservedImportRecord}
use interplanetary_asynchron.Types.Scale.{domain_eq, ExportId, AccountId, EpochId, Hasher}

module _ {B : Type 0} (currency : Currency B) (laws : CurrencyLaws currency) (accounts : Accounts)
    ⦃h : Hasher⦄ (env : Env) (s : Storage B)
    (sound : IsSound currency accounts env.domain_id env.current_epoch s) where
  module _ (who : AccountId) (claim : RemoteFinalizationClaim) (r : ExportRecord)
      (sender : AccountId) (balances : B) (found : get s.exports_by_id claim.export_id ≡ some r)
      (committed : export_status_beq r.status exported ≡ true)
      (decoded : accounts.from_bytes r.leaf.sender ≡ some sender)
      (burned : currency.burn_held s.balances sender r.leaf.amount ≡ some balances) where
    abbrev resolved : ExportRecord
    resolved = resolved_record accounts env who claim r

    abbrev t : Storage B
    t = store_resolved accounts env who claim r balances s

    resolved-IsRecorded :
        IsRecorded accounts env.domain_id s.next_export_sequence env.current_epoch claim.export_id
          resolved
    resolved-IsRecorded =
        let i = sound.recorded claim.export_id r found in
        record {
          id = i.id;
          own_hash = i.own_hash;
          source = i.source;
          target = i.target;
          positive = i.positive;
          sequence = i.sequence;
          sender = i.sender;
          open_epoch = λ p. absurd (ground arith);
          closed_epoch = λ _. i.closed_epoch (ground arith);
        }

    t-IsRecorded :
        (k : ExportId) (q : ExportRecord)
        → get t.exports_by_id k ≡ some q
        → IsRecorded accounts env.domain_id s.next_export_sequence env.current_epoch k q
    unfolding store_resolved
    t-IsRecorded k q p = elim (get-insert_cases s.exports_by_id claim.export_id k resolved q p) [
      | inl (e, f) ↦
          subst
            (λ x. IsRecorded accounts env.domain_id s.next_export_sequence env.current_epoch x q) e
            (subst
              (IsRecorded accounts env.domain_id s.next_export_sequence env.current_epoch
                claim.export_id)
              f resolved-IsRecorded)
      | inr (n, old) ↦ sound.recorded k q old
    ]

    t-listed :
        (k : ExportId) (q : ExportRecord)
        → get t.exports_by_id k ≡ some q
        → In k (export_ids s q.leaf.source_epoch_id)
    unfolding store_resolved
    t-listed k q p = elim (get-insert_cases s.exports_by_id claim.export_id k resolved q p) [
      | inl (e, f) ↦
          subst (λ x. In x (export_ids s q.leaf.source_epoch_id)) e
            (subst (λ x. In claim.export_id (export_ids s x)) (ap (λ x. x.leaf.source_epoch_id) f)
              (sound.listed claim.export_id r found))
      | inr (n, old) ↦ sound.listed k q old
    ]

    t-indexed :
        (e : EpochId) (k : ExportId)
        → In k (export_ids s e)
        → (q : ExportRecord) × (get t.exports_by_id k ≡ some q) × (q.leaf.source_epoch_id ≡ e)
    unfolding store_resolved
    t-indexed e k m =
        let (q, p, f) = sound.indexed e k m in
        elim (Bool-cases (nat_beq claim.export_id k)) [
          | inl y ↦ (
            resolved,
            ground (arith, get-insert s.exports_by_id claim.export_id k resolved),
            ground (arith, nat_beq_iff claim.export_id k),
          )
          | inr n ↦ (q, ground (arith, get-insert s.exports_by_id claim.export_id k resolved), f)
        ]

    t-backed :
        (a : AccountId) → currency.on_hold t.balances a ≡ weight (owed accounts a) t.exports_by_id
    unfolding store_resolved
    t-backed a = ground (
      arith,
      sound.backed a,
      laws.burn_held-on_hold s.balances balances sender a r.leaf.amount,
      weight-insert (owed accounts a) s.exports_by_id claim.export_id resolved,
    )

    -- Resolving an export burns what was held for it, and no other hold.
    pub store_resolved-IsSound :
        IsSound currency accounts env.domain_id env.current_epoch
          (store_resolved accounts env who claim r balances s)
    unfolding store_resolved
    store_resolved-IsSound = record {
      bounded = sound.bounded;
      recorded = t-IsRecorded;
      listed = t-listed;
      indexed = t-indexed;
      backed = t-backed;
    }

  pub store_observed-IsSound :
      (who : AccountId) (claim : ObservedImportClaim)
      → IsSound currency accounts env.domain_id env.current_epoch
          (store_observed accounts env who claim s)
  unfolding store_observed
  store_observed-IsSound who claim = record {
    bounded = sound.bounded;
    recorded = sound.recorded;
    listed = sound.listed;
    indexed = sound.indexed;
    backed = sound.backed;
  }

  -- A mint on this chain touches no hold.
  pub store_finalized-IsSound :
      (who : AccountId) (id : ExportId) (r : ObservedImportRecord) (recipient : AccountId)
      (balances : B)
      → currency.mint_into s.balances recipient r.amount ≡ some balances
      → IsSound currency accounts env.domain_id env.current_epoch
          (store_finalized accounts env who id r balances s)
  unfolding store_finalized
  store_finalized-IsSound who id r recipient balances minted = record {
    bounded = sound.bounded;
    recorded = sound.recorded;
    listed = sound.listed;
    indexed = sound.indexed;
    backed = λ a.
        laws.mint_into-on_hold s.balances balances recipient a r.amount minted ∙ sound.backed a;
  }
