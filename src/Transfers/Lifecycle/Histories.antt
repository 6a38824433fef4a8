-- ===== src/Transfers/Lifecycle/Histories.antt =====
-- The life of a record through a whole history, and that nothing is minted or burned twice.
use mathlib.Core.Path.{subst₂}
use interplanetary_asynchron.Types.Export
use interplanetary_asynchron.Types.Import
use interplanetary_asynchron.Prelude.{
  ℕ, ◌≤◌, ◌≡◌, refl, sym, ap, subst, ◌∙◌, ◌≢◌, inl, inr, true, some, arith, Bool-cases, nat_eq,
  pair_eq,
}
use interplanetary_asynchron.Prelude.Map.{get, get-insert_self}
use interplanetary_asynchron.Prelude.Outcome.{ok, after, Ensures-at, after-holds}
use interplanetary_asynchron.Transfers.Accepted.{
  acknowledge-Ensures, finalize-Ensures, observe-Ensures, create-Ensures,
}
use interplanetary_asynchron.Transfers.Calls.{
  finalized_record, resolved_record, store_finalized, store_resolved, finalize_verified_import,
  acknowledge_remote_finalization,
}
use interplanetary_asynchron.Transfers.Commit.{canonical_epoch_exports, commit_epoch_exports}
use interplanetary_asynchron.Transfers.Config.{
  Origin, Env, Accounts, AccountsLaws, Currency, CurrencyLaws,
}
use interplanetary_asynchron.Transfers.Invariant.{IdsAreDistinct, IsSound}
use interplanetary_asynchron.Transfers.Invariant.Close.{named-local_final}
use interplanetary_asynchron.Transfers.Invariant.Create.{next_id-fresh}
use interplanetary_asynchron.Transfers.Invariant.Marking.{
  exported_record, names, get-mark_exported, mark_exported-IsMarking,
}
use interplanetary_asynchron.Transfers.Lifecycle.{
  rank, import_rank, StorageAdvances, Advances-refl, ImportAdvances-refl, StorageAdvances-refl,
  StorageAdvances-trans, resolved-advances, finalized-advances, observed-advances, created-advances,
}
use interplanetary_asynchron.Transfers.Runs.{
  Call, create_call, observe_call, finalize_call, acknowledge_call, Chain, dispatch, Step, calls,
  closes, Reach, start, next, IsSoundChain, Reach-IsSound,
}
use interplanetary_asynchron.Transfers.State.{Storage}
use interplanetary_asynchron.Types.Export.{exported, export_status_beq}
use interplanetary_asynchron.Types.Import.{remote_observed, import_status_beq}
use interplanetary_asynchron.Types.Scale.{DomainId, domain_eq, ExportId, EpochId, Hasher}

module _ {B : Type 0} (currency : Currency B) (laws : CurrencyLaws currency) (accounts : Accounts)
    (codec : AccountsLaws accounts) ⦃h : Hasher⦄ where
  dispatch-advances :
      (env : Env) (call : Call) (s : Storage B)
      → IdsAreDistinct h env.domain_id
      → IsSound currency accounts env.domain_id env.current_epoch s
      → StorageAdvances s (after s (dispatch currency accounts env call s))
  unfolding dispatch
  dispatch-advances env (create_call origin target recipient amount) s distinct sound =
      after-holds (StorageAdvances s) s _
        (create-Ensures currency accounts env {P = StorageAdvances s} origin target recipient amount
          s
          (λ who balances _ _ _.
            created-advances currency accounts env s who target recipient amount balances
              (next_id-fresh currency laws accounts codec env distinct s sound)))
        (StorageAdvances-refl s) (λ t p. p)
  dispatch-advances env (observe_call origin claim) s distinct sound =
      after-holds (StorageAdvances s) s _
        (observe-Ensures accounts env {P = StorageAdvances s} origin claim s
          (λ who _ _ fresh. observed-advances currency accounts env s who claim fresh))
        (StorageAdvances-refl s) (λ t p. p)
  dispatch-advances env (finalize_call origin id) s distinct sound =
      after-holds (StorageAdvances s) s _
        (finalize-Ensures currency accounts env {P = StorageAdvances s} origin id s
          (λ who r recipient balances _ found _ _ _ _.
            finalized-advances currency accounts env s who id r balances found))
        (StorageAdvances-refl s) (λ t p. p)
  dispatch-advances env (acknowledge_call origin claim) s distinct sound =
      after-holds (StorageAdvances s) s _
        (acknowledge-Ensures currency accounts env {P = StorageAdvances s} origin claim s
          (λ who r sender balances _ _ found _ _ _.
            resolved-advances currency accounts env s who claim r balances found))
        (StorageAdvances-refl s) (λ t p. p)

  module _ (d : DomainId) (distinct : IdsAreDistinct h d) where
    commit-advances :
        (current : EpochId) (s : Storage B) (start_block_height end_block_height : ℕ)
        → IsSound currency accounts d current s
        → StorageAdvances s (commit_epoch_exports d current start_block_height end_block_height s).1
    unfolding commit_epoch_exports
    commit-advances current s start_block_height end_block_height sound =
        let leaves = canonical_epoch_exports s current in
        record {
          exports = λ k r found. elim (Bool-cases (names leaves k)) [
            | inl y ↦ (
              exported_record r,
              ground (arith, get-mark_exported current leaves s k),
              record {
                leaf = refl;
                status =
                    ground
                      (arith, named-local_final currency accounts d current s sound k r y found);
              },
            )
            | inr n ↦ (r, ground (arith, get-mark_exported current leaves s k), Advances-refl r)
          ];
          imports = λ k r found. (
            r,
            ap (λ m. get m k) (mark_exported-IsMarking current leaves s).imports ∙ found,
            ImportAdvances-refl r,
          );
        }

    Step-advances :
        {c u : Chain B}
        → Step currency accounts d c u
        → IsSoundChain currency laws accounts codec d distinct c
        → StorageAdvances c.storage u.storage
    Step-advances {c} (calls env call same_domain same_epoch room) sound =
        dispatch-advances env call c.storage
          (subst (λ x. IdsAreDistinct h x) (sym same_domain) distinct)
          (subst₂ (λ x e. IsSound currency accounts x e c.storage) (sym same_domain)
            (sym same_epoch) sound)
    Step-advances {c} (closes start_block_height end_block_height) sound =
        commit-advances c.current c.storage start_block_height end_block_height sound

    -- Through any history from a sound chain, every export keeps its leaf and every observed import
    -- the facts that are acted on, and no status goes back.
    pub Reach-advances :
        {c u : Chain B}
        → Reach currency accounts d c u
        → IsSoundChain currency laws accounts codec d distinct c
        → StorageAdvances c.storage u.storage
    Reach-advances start sound = StorageAdvances-refl _
    Reach-advances (next r st) sound =
        StorageAdvances-trans _ _ _ (Reach-advances r sound)
          (Step-advances st (Reach-IsSound currency laws accounts codec d distinct r sound))

module _ {B : Type 0} (currency : Currency B) (laws : CurrencyLaws currency) (accounts : Accounts)
    (codec : AccountsLaws accounts) ⦃h : Hasher⦄ (d : DomainId) (distinct : IdsAreDistinct h d)
    (env later : Env) (origin origin' : Origin) (s : Storage B) (c u : Chain B)
    (sound : IsSoundChain currency laws accounts codec d distinct c)
    (history : Reach currency accounts d c u) where
  -- An import is minted at most once: after a finalization that left a sound chain, whatever the
  -- chain goes through, no caller finalizes the same import again.
  pub finalize_once :
      (id : ExportId) (v : Storage B)
      → finalize_verified_import currency accounts env origin id s ≡ ok c.storage
      → finalize_verified_import currency accounts later origin' id u.storage ≢ ok v
  finalize_once id v first second =
      Ensures-at
        (finalize-Ensures currency accounts later {P = λ _. ⊥} origin' id u.storage
          (λ who q recipient balances _ found _ observed _ _.
            let (r, at, status) = stored in
            let (q', at', change) =
              (Reach-advances currency laws accounts codec d distinct history sound).imports id r
                at in
            let same : q ≡ q' = ground arith in
            two_ranks r.status q'.status status
              (subst (λ x. import_status_beq x.status remote_observed ≡ true) same observed)
              change.status))
        second
    where
      stored :
          (r : Import.ObservedImportRecord) × (get c.storage.observed_imports_by_id id ≡ some r)
          × (r.status ≡ Import.remote_finalized)
      stored =
          Ensures-at
            (finalize-Ensures currency accounts env
              {P = λ t.
                (r : Import.ObservedImportRecord) × (get t.observed_imports_by_id id ≡ some r)
                × (r.status ≡ Import.remote_finalized)}
              origin id s
              (λ who r recipient balances _ _ _ _ _ _.
                unfold store_finalized in
                (
                  finalized_record accounts env who r,
                  get-insert_self s.observed_imports_by_id id (finalized_record accounts env who r),
                  refl,
                )))
            first

      two_ranks :
          (a b : Import.ImportObservationStatus)
          → a ≡ Import.remote_finalized
          → import_status_beq b remote_observed ≡ true
          → import_rank a ≤ import_rank b
          → ⊥
      two_ranks a b p q le = ground arith

  -- A hold is burned at most once: after an acknowledgement that left a sound chain, whatever the
  -- chain goes through, no claim for the same export is acknowledged again.
  pub acknowledge_once :
      (claim claim' : Export.RemoteFinalizationClaim) (v : Storage B)
      → claim.export_id ≡ claim'.export_id
      → acknowledge_remote_finalization currency accounts env origin claim s ≡ ok c.storage
      → acknowledge_remote_finalization currency accounts later origin' claim' u.storage ≢ ok v
  acknowledge_once claim claim' v same_id first second =
      Ensures-at
        (acknowledge-Ensures currency accounts later {P = λ _. ⊥} origin' claim' u.storage
          (λ who q sender balances _ _ found committed _ _.
            let (r, at, status) = stored in
            let (q', at', change) =
              (Reach-advances currency laws accounts codec d distinct history sound).exports
                claim.export_id r at in
            let same : q ≡ q' = ground arith in
            two_ranks r.status q'.status status
              (subst (λ x. export_status_beq x.status exported ≡ true) same committed)
              change.status))
        second
    where
      stored :
          (r : Export.ExportRecord) × (get c.storage.exports_by_id claim.export_id ≡ some r)
          × (r.status ≡ Export.remote_finalized)
      stored =
          Ensures-at
            (acknowledge-Ensures currency accounts env
              {P = λ t.
                (r : Export.ExportRecord) × (get t.exports_by_id claim.export_id ≡ some r)
                × (r.status ≡ Export.remote_finalized)}
              origin claim s
              (λ who r sender balances _ _ _ _ _ _.
                unfold store_resolved in
                (
                  resolved_record accounts env who claim r,
                  get-insert_self s.exports_by_id claim.export_id
                      (resolved_record accounts env who claim r),
                  refl,
                )))
            first

      two_ranks :
          (a b : Export.ExportStatus)
          → a ≡ Export.remote_finalized
          → export_status_beq b exported ≡ true
          → rank a ≤ rank b
          → ⊥
      two_ranks a b p q le = ground arith
