-- ===== src/Runtime.antt =====
-- chain/runtime/src/lib.rs: the providers through which the epochs pallet closes the books of the
-- transfers and governance pallets, and through which those pallets read the open epoch.
pub mod Refinement
pub mod Provable
pub mod Governed
use interplanetary_asynchron.Prelude.{ℕ, ◌<◌, ◌≡◌, nat_eq, pair_eq}
use interplanetary_asynchron.Governance.State as Governance
use interplanetary_asynchron.Governance.Safety.Histories
use interplanetary_asynchron.Governance.Activation.{on_initialize}
use interplanetary_asynchron.Governance.Outbox.{commit_epoch_governance}
use interplanetary_asynchron.Epochs.State.{Providers}
use interplanetary_asynchron.Merkle.Tree.{root}
use interplanetary_asynchron.Prelude.Outcome.{after}
use interplanetary_asynchron.Transfers.Commit.{commit_epoch_exports, commit_epoch_imports}
use interplanetary_asynchron.Transfers.Config.{Env, Accounts, Currency}
use interplanetary_asynchron.Transfers.Runs.{Call, dispatch}
use interplanetary_asynchron.Transfers.State.{Storage}
use interplanetary_asynchron.Types.Scale.{
  DomainId, domain_eq, AccountId, Hash, EpochId, Hasher, u64_max,
}

-- The pallets behind the providers.
pub record Pallets (B : Type 0) : Type 0 where
  pub transfers : Storage B
  pub governance : Governance.Storage

module _ {B : Type 0} (domain_id : DomainId) ⦃h : Hasher⦄ where
  abbrev pub runtime_providers : Providers (Pallets B)
  runtime_providers = record {
    commit_epoch_exports = λ epoch_id start_block_height end_block_height p.
        let (root, transfers) =
          commit_epoch_exports domain_id epoch_id start_block_height end_block_height p.transfers in
        (root, record p { transfers = transfers });
    commit_epoch_imports = λ epoch_id start_block_height end_block_height p. (
      commit_epoch_imports domain_id epoch_id start_block_height end_block_height p.transfers,
      p,
    );
    commit_epoch_governance = λ epoch_id start_block_height end_block_height p. (
      commit_epoch_governance domain_id epoch_id start_block_height end_block_height p.governance,
      p,
    );
  }

-- What runs in one block: the calls, and the hook of the governance pallet, which opens the block
-- after the epochs pallet. Each sees the chain's domain, the open epoch and the block's number.
module _ {B : Type 0} (currency : Currency B) (accounts : Accounts) ⦃h : Hasher⦄
    (domain_id : DomainId) where
  pub data Calls (epoch_id : EpochId) (number : ℕ) (p : Pallets B) : Pallets B → Type 0 where
    none_left : Calls epoch_id number p p
    transfers_call :
        {q : Pallets B}
        → Calls epoch_id number p q
        → (env : Env) (call : Call) → env.domain_id ≡ domain_id
        → env.current_epoch ≡ epoch_id
        → env.block_number ≡ number
        → q.transfers.next_export_sequence < u64_max
        → Calls epoch_id number p (record q {
          transfers = after q.transfers (dispatch currency accounts env call q.transfers);
        })
    governance_call :
        {q : Pallets B}
        → Calls epoch_id number p q
        → (balance : AccountId → ℕ) (env : Env) (call : Histories.Call) → env.domain_id ≡ domain_id
        → env.current_epoch ≡ epoch_id
        → env.block_number ≡ number
        → Calls epoch_id number p (record q {
          governance =
              after q.governance (Histories.dispatch accounts balance env call q.governance);
        })
    governance_opens :
        {q : Pallets B}
        → Calls epoch_id number p q
        → (env : Env) → env.current_epoch ≡ epoch_id
        → env.block_number ≡ number
        → Calls epoch_id number p (record q { governance = on_initialize env q.governance })
