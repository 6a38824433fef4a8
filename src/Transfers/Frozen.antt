-- ===== src/Transfers/Frozen.antt =====
-- The leaves of a closed epoch never change again.
use mathlib.Core.Option
use interplanetary_asynchron.Prelude.{
  ℕ, ◌<◌, ◌≡◌, refl, ap, ◌∙◌, ◌≢◌, some, [], arith, In, filter_map-cong, nat_eq, pair_eq,
}
use interplanetary_asynchron.Merkle.Exports.{sort_export_leaves}
use interplanetary_asynchron.Prelude.Map.{or_default, get, get-insert_other}
use interplanetary_asynchron.Prelude.Outcome.{after, after-holds}
use interplanetary_asynchron.Transfers.Accepted.{
  acknowledge-Ensures, finalize-Ensures, observe-Ensures, create-Ensures,
}
use interplanetary_asynchron.Transfers.Calls.{
  store_export, store_observed, store_finalized, store_resolved,
}
use interplanetary_asynchron.Transfers.Commit.{canonical_epoch_exports, commit_epoch_exports}
use interplanetary_asynchron.Transfers.Config.{Env, Accounts, AccountsLaws, Currency, CurrencyLaws}
use interplanetary_asynchron.Transfers.Invariant.{IsSound, IdsAreDistinct}
use interplanetary_asynchron.Transfers.Invariant.Marking.{mark_exported-IsMarking}
use interplanetary_asynchron.Transfers.Lifecycle.{StorageAdvances}
use interplanetary_asynchron.Transfers.Lifecycle.Histories.{Reach-advances}
use interplanetary_asynchron.Transfers.Runs.{
  start, Call, create_call, observe_call, finalize_call, acknowledge_call, Chain, dispatch, Step,
  calls, closes, Reach, next, IsSoundChain,
}
use interplanetary_asynchron.Transfers.State.{Storage, export_ids}
use interplanetary_asynchron.Types.Scale.{DomainId, domain_eq, ExportId, EpochId, Hasher}

module _ {B : Type 0} (currency : Currency B) (laws : CurrencyLaws currency) (accounts : Accounts)
    (codec : AccountsLaws accounts) ⦃h : Hasher⦄ where
  -- The same index and records that only advanced make the same leaves.
  pub advanced-canonical :
      (d : DomainId) (current : EpochId) (s t : Storage B) (e : EpochId)
      → IsSound currency accounts d current s
      → StorageAdvances s t
      → export_ids t e ≡ export_ids s e
      → canonical_epoch_exports t e ≡ canonical_epoch_exports s e
  unfolding canonical_epoch_exports
  advanced-canonical d current s t e sound advances same = rw same (
      ap sort_export_leaves (
        filter_map-cong (λ k. Option.map (λ r. r.leaf) (get t.exports_by_id k))
          (λ k. Option.map (λ r. r.leaf) (get s.exports_by_id k)) (export_ids s e) same_leaf))
    where
      same_leaf :
          (k : ExportId)
          → In k (export_ids s e)
          → Option.map (λ r. r.leaf) (get t.exports_by_id k)
            ≡ Option.map (λ r. r.leaf) (get s.exports_by_id k)
      same_leaf k m =
          let (r, found, _) = sound.indexed e k m in
          let (q, found', change) = advances.exports k r found in
          rw (found, found') (ap some change.leaf)

  dispatch-export_ids :
      (env : Env) (call : Call) (s : Storage B) (e : EpochId)
      → env.current_epoch ≢ e
      → export_ids (after s (dispatch currency accounts env call s)) e ≡ export_ids s e
  unfolding dispatch store_export store_observed store_finalized store_resolved
  dispatch-export_ids env (create_call origin target recipient amount) s e other =
      after-holds (λ t. export_ids t e ≡ export_ids s e) s _
        (create-Ensures currency accounts env {P = λ t. export_ids t e ≡ export_ids s e} origin
          target recipient amount s
          (λ who balances _ _ _.
            ap (or_default []) (get-insert_other s.epoch_export_ids env.current_epoch e _ other)))
        refl (λ t p. p)
  dispatch-export_ids env (observe_call origin claim) s e other =
      after-holds (λ t. export_ids t e ≡ export_ids s e) s _
        (observe-Ensures accounts env {P = λ t. export_ids t e ≡ export_ids s e} origin claim s
          (λ _ _ _ _. refl))
        refl (λ t p. p)
  dispatch-export_ids env (finalize_call origin id) s e other =
      after-holds (λ t. export_ids t e ≡ export_ids s e) s _
        (finalize-Ensures currency accounts env {P = λ t. export_ids t e ≡ export_ids s e} origin id
          s (λ _ _ _ _ _ _ _ _ _ _. refl))
        refl (λ t p. p)
  dispatch-export_ids env (acknowledge_call origin claim) s e other =
      after-holds (λ t. export_ids t e ≡ export_ids s e) s _
        (acknowledge-Ensures currency accounts env {P = λ t. export_ids t e ≡ export_ids s e} origin
          claim s (λ _ _ _ _ _ _ _ _ _ _. refl))
        refl (λ t p. p)

  pub commit-export_ids :
      (d : DomainId) (current : EpochId) (s : Storage B) (first_block last_block : ℕ) (e : EpochId)
      → export_ids (commit_epoch_exports d current first_block last_block s).1 e ≡ export_ids s e
  unfolding commit_epoch_exports
  commit-export_ids d current s first_block last_block e =
      ap (λ m. or_default [] (get m e))
        (mark_exported-IsMarking current (canonical_epoch_exports s current) s).ids

  module _ (d : DomainId) (distinct : IdsAreDistinct h d) where
    Step-export_ids :
        {c u : Chain B} (e : EpochId)
        → Step currency accounts d c u
        → e < c.current
        → (e < u.current) × (export_ids u.storage e ≡ export_ids c.storage e)
    Step-export_ids {c} e (calls env call same_domain same_epoch room) closed =
        (closed, dispatch-export_ids env call c.storage e (λ same. omega arith))
    Step-export_ids {c} e (closes first_block last_block) closed =
        (omega arith, commit-export_ids d c.current c.storage first_block last_block e)

    pub Reach-export_ids :
        {c u : Chain B} (e : EpochId)
        → Reach currency accounts d c u
        → e < c.current
        → (e < u.current) × (export_ids u.storage e ≡ export_ids c.storage e)
    Reach-export_ids e start closed = (closed, refl)
    Reach-export_ids e (next r st) closed =
        let (still, same) = Reach-export_ids e r closed in
        let (after_it, same') = Step-export_ids e st still in (after_it, same' ∙ same)

    -- Through any history from a sound chain, the leaves of an epoch that was closed before it stay
    -- the same, in the same order.
    pub Reach-canonical :
        {c u : Chain B} (e : EpochId)
        → Reach currency accounts d c u
        → IsSoundChain currency laws accounts codec d distinct c
        → e < c.current
        → canonical_epoch_exports u.storage e ≡ canonical_epoch_exports c.storage e
    Reach-canonical {c} {u} e r sound closed =
        advanced-canonical d c.current c.storage u.storage e sound
          (Reach-advances currency laws accounts codec d distinct r sound)
          (Reach-export_ids e r closed).1
