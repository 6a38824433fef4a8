-- ===== src/Transfers/Runs.antt =====
-- Histories of one chain: calls in blocks of the open epoch, and the closing of epochs.
use mathlib.Core.Path.{subst₂}
use interplanetary_asynchron.Prelude.{ℕ, ◌+◌, ◌<◌, ◌≡◌, sym, subst, nat_eq, pair_eq}
use interplanetary_asynchron.Prelude.Outcome.{Outcome, after, after-holds}
use interplanetary_asynchron.Transfers.Accepted.{
  acknowledge-Ensures, finalize-Ensures, observe-Ensures, create-Ensures,
}
use interplanetary_asynchron.Transfers.Calls.{
  observe_verified_import, create_cross_domain_transfer, finalize_verified_import,
  acknowledge_remote_finalization,
}
use interplanetary_asynchron.Transfers.Commit.{commit_epoch_exports}
use interplanetary_asynchron.Transfers.Config.{
  Origin, Env, Accounts, AccountsLaws, Currency, CurrencyLaws,
}
use interplanetary_asynchron.Transfers.Invariant.{IdsAreDistinct, IsSound}
use interplanetary_asynchron.Transfers.Invariant.Close.{commit_epoch_exports-IsSound}
use interplanetary_asynchron.Transfers.Invariant.Create.{store_export-IsSound}
use interplanetary_asynchron.Transfers.Invariant.Resolve.{
  store_resolved-IsSound, store_observed-IsSound, store_finalized-IsSound,
}
use interplanetary_asynchron.Transfers.State.{DispatchError, Storage}
use interplanetary_asynchron.Types.Export.{RemoteFinalizationClaim}
use interplanetary_asynchron.Types.Import.{ObservedImportClaim}
use interplanetary_asynchron.Types.Scale.{
  DomainId, domain_eq, ExportId, AccountIdBytes, EpochId, Hasher, u64_max,
}

pub data Call : Type 0 where
  create_call : Origin → DomainId → AccountIdBytes → ℕ → Call
  observe_call : Origin → ObservedImportClaim → Call
  finalize_call : Origin → ExportId → Call
  acknowledge_call : Origin → RemoteFinalizationClaim → Call

-- A chain: the open epoch and the storage.
pub record Chain (B : Type 0) : Type 0 where
  pub current : EpochId
  pub storage : Storage B

module _ {B : Type 0} (currency : Currency B) (accounts : Accounts) ⦃h : Hasher⦄ where
  unfoldable pub dispatch : Env → Call → Storage B → Outcome DispatchError (Storage B)
  dispatch env (create_call origin target_domain recipient amount) s =
      create_cross_domain_transfer currency accounts env origin target_domain recipient amount s
  dispatch env (observe_call origin claim) s = observe_verified_import accounts env origin claim s
  dispatch env (finalize_call origin id) s =
      finalize_verified_import currency accounts env origin id s
  dispatch env (acknowledge_call origin claim) s =
      acknowledge_remote_finalization currency accounts env origin claim s

  -- A call that fails changes nothing. The sequence counter is assumed not to have reached the end
  -- of its 64 bits, where `saturating_add` would hand out its last identifier again.
  pub data Step (d : DomainId) (c : Chain B) : Chain B → Type 0 where
    calls :
        (env : Env) (call : Call)
        → env.domain_id ≡ d
        → env.current_epoch ≡ c.current
        → c.storage.next_export_sequence < u64_max
        → Step d c (record c { storage = after c.storage (dispatch env call c.storage) })
    closes :
        (start_block_height end_block_height : ℕ)
        → Step d c (record {
          current = c.current + 1;
          storage =
              (commit_epoch_exports d c.current start_block_height end_block_height c.storage).1;
        })

  pub data Reach (d : DomainId) (c : Chain B) : Chain B → Type 0 where
    start : Reach d c c
    next : {t u : Chain B} → Reach d c t → Step d t u → Reach d c u

module _ {B : Type 0} (currency : Currency B) (laws : CurrencyLaws currency) (accounts : Accounts)
    (codec : AccountsLaws accounts) ⦃h : Hasher⦄ where
  -- Each call keeps the invariant, whether it succeeds or fails.
  pub dispatch-IsSound :
      (env : Env) (call : Call) (s : Storage B)
      → IdsAreDistinct h env.domain_id
      → s.next_export_sequence < u64_max
      → IsSound currency accounts env.domain_id env.current_epoch s
      → IsSound currency accounts env.domain_id env.current_epoch
          (after s (dispatch currency accounts env call s))
  unfolding dispatch
  dispatch-IsSound env (create_call origin target recipient amount) s distinct room sound =
      after-holds (IsSound currency accounts env.domain_id env.current_epoch) s _
        (create-Ensures currency accounts env
          {P = IsSound currency accounts env.domain_id env.current_epoch} origin target recipient
          amount s
          (λ who balances positive away held.
            store_export-IsSound currency laws accounts codec env distinct s sound who target
              recipient amount balances room positive away held))
        sound (λ t p. p)
  dispatch-IsSound env (observe_call origin claim) s distinct room sound =
      after-holds (IsSound currency accounts env.domain_id env.current_epoch) s _
        (observe-Ensures accounts env
          {P = IsSound currency accounts env.domain_id env.current_epoch} origin claim s
          (λ who _ _ _. store_observed-IsSound currency laws accounts env s sound who claim))
        sound (λ t p. p)
  dispatch-IsSound env (finalize_call origin id) s distinct room sound =
      after-holds (IsSound currency accounts env.domain_id env.current_epoch) s _
        (finalize-Ensures currency accounts env
          {P = IsSound currency accounts env.domain_id env.current_epoch} origin id s
          (λ who r recipient balances _ _ _ _ _ minted.
            store_finalized-IsSound currency laws accounts env s sound who id r recipient balances
              minted))
        sound (λ t p. p)
  dispatch-IsSound env (acknowledge_call origin claim) s distinct room sound =
      after-holds (IsSound currency accounts env.domain_id env.current_epoch) s _
        (acknowledge-Ensures currency accounts env
          {P = IsSound currency accounts env.domain_id env.current_epoch} origin claim s
          (λ who r sender balances _ _ found committed decoded burned.
            store_resolved-IsSound currency laws accounts env s sound who claim r sender balances
              found committed decoded burned))
        sound (λ t p. p)

  module _ (d : DomainId) (distinct : IdsAreDistinct h d) where
    abbrev pub IsSoundChain : Chain B → Type 0
    IsSoundChain c = IsSound currency accounts d c.current c.storage

    Step-IsSound : {c u : Chain B} → Step currency accounts d c u → IsSoundChain c → IsSoundChain u
    Step-IsSound {c} (calls env call same_domain same_epoch room) sound =
        subst₂
          (λ x e.
            IsSound currency accounts x e
              (after c.storage (dispatch currency accounts env call c.storage)))
          same_domain same_epoch
          (dispatch-IsSound env call c.storage
            (subst (λ x. IdsAreDistinct h x) (sym same_domain) distinct) room
            (subst₂ (λ x e. IsSound currency accounts x e c.storage) (sym same_domain)
              (sym same_epoch) sound))
    Step-IsSound {c} (closes start_block_height end_block_height) sound =
        commit_epoch_exports-IsSound currency accounts d c.current c.storage sound
          start_block_height end_block_height

    -- Through any history of calls and closed epochs from a sound chain, if the identifiers of the
    -- domain's exports do not collide, every record is well formed, the epoch indices list exactly
    -- the records, and each account's hold is the sum of its unresolved exports.
    pub Reach-IsSound :
        {c u : Chain B} → Reach currency accounts d c u → IsSoundChain c → IsSoundChain u
    Reach-IsSound start sound = sound
    Reach-IsSound (next r st) sound = Step-IsSound st (Reach-IsSound r sound)
