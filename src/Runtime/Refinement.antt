-- ===== src/Runtime/Refinement.antt =====
-- The blocks of the runtime run the transfers pallet through one of the histories of Transfers/Runs.
use interplanetary_asynchron.Governance.State as Governance
use interplanetary_asynchron.Epochs.State as Epochs
use interplanetary_asynchron.Transfers.State as Transfers
use interplanetary_asynchron.Transfers.Runs
use mathlib.Core.Path.{subst₂}
use interplanetary_asynchron.Prelude.{
  ℕ, ◌+◌, ◌<◌, refl, sym, subst, ◌⊎◌, inl, inr, Option, arith, nat_eq, pair_eq,
}
use interplanetary_asynchron.Epochs.Blocks.{
  State, opening, Blocks, start, block, IsGenesisOr, finalized-current_epoch, Blocks-IsGenesisOr,
}
use interplanetary_asynchron.Epochs.Closing.{Stays, Closes, opens-cases}
use interplanetary_asynchron.Epochs.State.{Providers}
use interplanetary_asynchron.Runtime.{
  Pallets, runtime_providers, Calls, none_left, transfers_call, governance_call, governance_opens,
}
use interplanetary_asynchron.Transfers.Config.{Accounts, Currency}
use interplanetary_asynchron.Transfers.Runs.{Chain, calls, closes, Reach, next}
use interplanetary_asynchron.Types.Scale.{DomainId, domain_eq, AccountId, EpochId, Hasher}

abbrev pub chain_of : {B : Type 0} → State (Pallets B) → Chain B
chain_of b = record { current = b.epochs.current_epoch; storage = b.pallets.transfers }

module _ {B : Type 0} (currency : Currency B) (accounts : Accounts) ⦃h : Hasher⦄
    (domain_id : DomainId) (len : ℕ) (positive : 0 < len) where
  abbrev pub providers : Providers (Pallets B)
  providers = runtime_providers domain_id

  -- A run of the runtime's blocks, from block `m` in state `a` to block `n` in state `b`.
  abbrev pub Run : ℕ → State (Pallets B) → ℕ → State (Pallets B) → Type 0
  Run m a n b = Blocks providers (Calls currency accounts domain_id) domain_id m a n b

  pub Calls-Reach :
      {c : Chain B} {epoch_id : EpochId} {number : ℕ} {p q : Pallets B}
      → Calls currency accounts domain_id epoch_id number p q
      → Reach currency accounts domain_id c (record { current = epoch_id; storage = p.transfers })
      → Reach currency accounts domain_id c (record { current = epoch_id; storage = q.transfers })
  Calls-Reach none_left r = r
  Calls-Reach (transfers_call before env call same_domain same_epoch number room) r =
      next (Calls-Reach before r) (calls env call same_domain same_epoch room)
  Calls-Reach (governance_call before _ _ _ _ _ _) r = Calls-Reach before r
  Calls-Reach (governance_opens before _ _ _) r = Calls-Reach before r

  pub opened-Reach :
      (c : Chain B) (n : ℕ) (b : State (Pallets B)) (opened : Epochs.Storage × Pallets B)
      → Stays providers n b opened ⊎ Closes providers n b opened
      → Reach currency accounts domain_id c (chain_of b)
      → Reach currency accounts domain_id c
          (record { current = opened.0.current_epoch; storage = opened.1.transfers })
  opened-Reach c n b opened (inl open_still) r =
      subst₂
        (λ e (p : Pallets B).
          Reach currency accounts domain_id c (record { current = e; storage = p.transfers }))
        (sym open_still.same_epoch) (sym open_still.same_pallets) r
  opened-Reach c n b opened (inr ended) r =
      subst₂
        (λ e (p : Pallets B).
          Reach currency accounts domain_id c (record { current = e; storage = p.transfers }))
        (omega (arith, ended.next_epoch)) (sym ended.closed_pallets)
        (next r (closes b.epochs.current_epoch_start n))

  pub from-Reach :
      {m : ℕ} {a : State (Pallets B)} {n : ℕ} {b : State (Pallets B)}
      → IsGenesisOr providers domain_id len positive m a
      → Run m a n b
      → Reach currency accounts domain_id (chain_of a) (chain_of b)
  from-Reach from start = Runs.start
  from-Reach {m} {a} from (block {n} {b} r context q same room work) =
      subst
        (λ e.
          Reach currency accounts domain_id (chain_of a)
            (record { current = e; storage = q.transfers }))
        (sym (
          finalized-current_epoch providers domain_id len positive context n
            (opening providers context (n + 1) b).0))
        (Calls-Reach work (
          opened-Reach (chain_of a) n b (opening providers context (n + 1) b)
            (opens-cases providers domain_id len positive context n b room (
              Blocks-IsGenesisOr providers domain_id len positive
                (Calls currency accounts domain_id) from r))
            (from-Reach from r)))

  -- Whatever the runtime's blocks do from genesis, the transfers pallet goes through a history of
  -- its calls in the open epoch, and of epochs that are closed once each and in order.
  pub Run-refines :
      (importer_account : Option AccountId) (balances : B) (rest : Governance.Storage)
      → {n : ℕ} {b : State (Pallets B)}
      → Run 0
          (record {
            epochs = Epochs.genesis len;
            pallets = record {
              transfers = Transfers.genesis importer_account balances;
              governance = rest;
            };
          })
          n
          b
      → Reach currency accounts domain_id
          (record { current = 0; storage = Transfers.genesis importer_account balances })
          (chain_of b)
  Run-refines importer_account balances rest r = from-Reach (inl (refl, refl)) r
