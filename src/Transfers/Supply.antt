-- ===== src/Transfers/Supply.antt =====
-- The chain's issuance: what finalized imports minted and resolved exports burned accounts for every
-- change of it.
use mathlib.Core.Path.{subst₂}
use interplanetary_asynchron.Types.Export
use interplanetary_asynchron.Types.Import
use interplanetary_asynchron.Prelude.{
  ℕ, ◌+◌, ◌≡◌, refl, sym, subst, arith, if◌then◌else◌, nat_eq, pair_eq,
}
use interplanetary_asynchron.Prelude.Map.{weight, weight-insert}
use interplanetary_asynchron.Prelude.Outcome.{after, after-holds}
use interplanetary_asynchron.Transfers.Accepted.{
  acknowledge-Ensures, finalize-Ensures, observe-Ensures, create-Ensures,
}
use interplanetary_asynchron.Transfers.Calls.{
  new_leaf, new_record, finalized_record, resolved_record, store_export, store_observed,
  store_finalized, store_resolved,
}
use interplanetary_asynchron.Transfers.Commit.{canonical_epoch_exports, commit_epoch_exports}
use interplanetary_asynchron.Transfers.Config.{
  Env, saturated_into_u32, Accounts, AccountsLaws, Currency, CurrencyLaws,
}
use interplanetary_asynchron.Transfers.Invariant.{IdsAreDistinct, IsSound}
use interplanetary_asynchron.Transfers.Invariant.Close.{named-local_final}
use interplanetary_asynchron.Transfers.Invariant.Create.{next_id-fresh}
use interplanetary_asynchron.Transfers.Invariant.Marking.{
  mark_exported-IsMarking, weight-mark_exported,
}
use interplanetary_asynchron.Transfers.Runs.{
  Call, create_call, observe_call, finalize_call, acknowledge_call, Chain, dispatch, Step, calls,
  closes, Reach, start, next, IsSoundChain, Reach-IsSound,
}
use interplanetary_asynchron.Transfers.State.{Storage}
use interplanetary_asynchron.Types.Export.{export_status_beq, ExportRecord, export_id}
use interplanetary_asynchron.Types.Import.{import_status_beq, ObservedImportRecord, from_claim}
use interplanetary_asynchron.Types.Scale.{DomainId, domain_eq, EpochId, Hasher}

abbrev pub burned_by : ExportRecord → ℕ
burned_by r = if export_status_beq r.status Export.remote_finalized then r.leaf.amount else 0

abbrev pub minted_by : ObservedImportRecord → ℕ
minted_by r = if import_status_beq r.status Import.remote_finalized then r.amount else 0

module _ {B : Type 0} (currency : Currency B) where
  -- From `s` to `t` the issuance grew by the new finalized imports and shrank by the new resolved
  -- exports.
  abbrev pub IsAccounted : Storage B → Storage B → Type 0
  IsAccounted s t =
      currency.total_issuance t.balances
        + weight burned_by t.exports_by_id
        + weight minted_by s.observed_imports_by_id
      ≡ currency.total_issuance s.balances
        + weight burned_by s.exports_by_id
        + weight minted_by t.observed_imports_by_id

module _ {B : Type 0} (currency : Currency B) (laws : CurrencyLaws currency) (accounts : Accounts)
    (codec : AccountsLaws accounts) ⦃h : Hasher⦄ where
  dispatch-IsAccounted :
      (env : Env) (call : Call) (s : Storage B)
      → IdsAreDistinct h env.domain_id
      → IsSound currency accounts env.domain_id env.current_epoch s
      → IsAccounted currency s (after s (dispatch currency accounts env call s))
  unfolding dispatch store_export store_observed store_finalized store_resolved
  dispatch-IsAccounted env (create_call origin target recipient amount) s distinct sound =
      after-holds (IsAccounted currency s) s _
        (create-Ensures currency accounts env {P = IsAccounted currency s} origin target recipient
          amount s
          (λ who balances _ _ held.
            let id = export_id env.domain_id s.next_export_sequence in
            let new =
              new_record
                (new_leaf accounts env who target recipient amount s.next_export_sequence) in
            ground (
              arith,
              laws.hold-total_issuance s.balances balances who amount held,
              weight-insert burned_by s.exports_by_id id new,
              next_id-fresh currency laws accounts codec env distinct s sound,
            )))
        refl (λ t p. p)
  dispatch-IsAccounted env (observe_call origin claim) s distinct sound =
      after-holds (IsAccounted currency s) s _
        (observe-Ensures accounts env {P = IsAccounted currency s} origin claim s (λ who _ _ fresh.
          ground (
            arith,
            weight-insert minted_by s.observed_imports_by_id claim.export_id
                (from_claim claim (saturated_into_u32 env.block_number) (accounts.to_bytes who)),
          )))
        refl (λ t p. p)
  dispatch-IsAccounted env (finalize_call origin id) s distinct sound =
      after-holds (IsAccounted currency s) s _
        (finalize-Ensures currency accounts env {P = IsAccounted currency s} origin id s
          (λ who r recipient balances _ found _ observed _ minted. ground (
            arith,
            laws.mint_into-total_issuance s.balances balances recipient r.amount minted,
            weight-insert minted_by s.observed_imports_by_id id
                (finalized_record accounts env who r),
          )))
        refl (λ t p. p)
  dispatch-IsAccounted env (acknowledge_call origin claim) s distinct sound =
      after-holds (IsAccounted currency s) s _
        (acknowledge-Ensures currency accounts env {P = IsAccounted currency s} origin claim s
          (λ who r sender balances _ _ found committed _ burned. ground (
            arith,
            laws.burn_held-total_issuance s.balances balances sender r.leaf.amount burned,
            weight-insert burned_by s.exports_by_id claim.export_id
                (resolved_record accounts env who claim r),
          )))
        refl (λ t p. p)

  module _ (d : DomainId) (distinct : IdsAreDistinct h d) where
    commit-IsAccounted :
        (current : EpochId) (s : Storage B) (start_block_height end_block_height : ℕ)
        → IsSound currency accounts d current s
        → IsAccounted currency s
            (commit_epoch_exports d current start_block_height end_block_height s).1
    unfolding commit_epoch_exports
    commit-IsAccounted current s start_block_height end_block_height sound =
        let leaves = canonical_epoch_exports s current in
        let marking = mark_exported-IsMarking current leaves s in
        rw (marking.balances, marking.imports)
          (rw (
            weight-mark_exported burned_by current leaves s (λ k r y found.
              ground (arith, named-local_final currency accounts d current s sound k r y found))))

    Step-IsAccounted :
        {c u : Chain B}
        → Step currency accounts d c u
        → IsSoundChain currency laws accounts codec d distinct c
        → IsAccounted currency c.storage u.storage
    Step-IsAccounted {c} (calls env call same_domain same_epoch room) sound =
        dispatch-IsAccounted env call c.storage
          (subst (λ x. IdsAreDistinct h x) (sym same_domain) distinct)
          (subst₂ (λ x e. IsSound currency accounts x e c.storage) (sym same_domain)
            (sym same_epoch) sound)
    Step-IsAccounted {c} (closes start_block_height end_block_height) sound =
        commit-IsAccounted c.current c.storage start_block_height end_block_height sound

    -- Through any history from a sound chain, the issuance changes by exactly the amounts of the
    -- imports that were finalized, less the amounts of the exports that were resolved.
    pub Reach-IsAccounted :
        {c u : Chain B}
        → Reach currency accounts d c u
        → IsSoundChain currency laws accounts codec d distinct c
        → IsAccounted currency c.storage u.storage
    Reach-IsAccounted start sound = refl
    Reach-IsAccounted (next r st) sound = omega (
      arith,
      Reach-IsAccounted r sound,
      Step-IsAccounted st (Reach-IsSound currency laws accounts codec d distinct r sound),
    )
