-- ===== src/Runtime/Provable.antt =====
-- Every export of a closed epoch is provable at the export root of the epoch's header.
use interplanetary_asynchron.Governance.State as Governance
use interplanetary_asynchron.Epochs.State as Epochs
use interplanetary_asynchron.Transfers.Runs
use interplanetary_asynchron.Transfers.State as Transfers
use mathlib.Core.Path.{subst₂}
use native.Mathlib.Decide.{dec_lt}
use interplanetary_asynchron.Prelude.{
  ℕ, ◌+◌, ◌^◌, ◌<◌, ◌≡◌, refl, sym, ap, subst, ◌∙◌, ◌⊎◌, inl, inr, true, Option, some, arith,
  length, nat_eq, pair_eq,
}
use interplanetary_asynchron.Epochs.Blocks.{
  State, start, opening, start, block, finalized-summary_headers, finalized-current_epoch,
  Blocks-IsGenesisOr,
}
use interplanetary_asynchron.Epochs.Closing.{Stays, Closes, opens-cases}
use interplanetary_asynchron.Epochs.Hooks.{on_finalize}
use interplanetary_asynchron.Epochs.State.{Context, Providers}
use interplanetary_asynchron.Merkle.Exports.{
  ExportInclusionProof, export_merkle_root, build_export_inclusion_proof,
  verify_export_inclusion_proof,
}
use interplanetary_asynchron.Prelude.Map.{get, get-insert_self, get-insert_other}
use interplanetary_asynchron.Runtime.{Pallets, runtime_providers, Calls}
use interplanetary_asynchron.Runtime.Refinement.{
  chain_of, Run, Calls-Reach, opened-Reach, Run-refines,
}
use interplanetary_asynchron.Transfers.Canonical.{canonical-provable}
use interplanetary_asynchron.Transfers.Commit.{canonical_epoch_exports, commit_epoch_exports}
use interplanetary_asynchron.Transfers.Config.{Accounts, AccountsLaws, Currency, CurrencyLaws}
use interplanetary_asynchron.Transfers.Frozen.{
  advanced-canonical, commit-export_ids, Reach-export_ids,
}
use interplanetary_asynchron.Transfers.Invariant.{IdsAreDistinct, genesis-IsSound}
use interplanetary_asynchron.Transfers.Lifecycle.Histories.{Reach-advances}
use interplanetary_asynchron.Transfers.Runs.{Reach, IsSoundChain, Reach-IsSound}
use interplanetary_asynchron.Transfers.State.{Storage, export_ids}
use interplanetary_asynchron.Types.Export.{ExportRecord}
use interplanetary_asynchron.Types.Scale.{DomainId, domain_eq, ExportId, AccountId, EpochId, Hasher}
use interplanetary_asynchron.Types.Summary.{EpochSummaryHeader}

module _ {B : Type 0} (currency : Currency B) (laws : CurrencyLaws currency) (accounts : Accounts)
    (codec : AccountsLaws accounts) ⦃h : Hasher⦄ (domain_id : DomainId)
    (distinct : IdsAreDistinct h domain_id) (len : ℕ) (positive : 0 < len) where
  abbrev all_providers : Providers (Pallets B)
  all_providers = runtime_providers domain_id

  abbrev IsSoundHere : State (Pallets B) → Type 0
  IsSoundHere b = IsSoundChain currency laws accounts codec domain_id distinct (chain_of b)

  abbrev StaysOrCloses : ℕ → State (Pallets B) → Epochs.Storage × Pallets B → Type 0
  StaysOrCloses n b opened = Stays all_providers n b opened ⊎ Closes all_providers n b opened

  -- The state that a block leaves.
  abbrev left_by : Context → ℕ → Epochs.Storage × Pallets B → Pallets B → State (Pallets B)
  left_by context n opened q = record { epochs = on_finalize context (n + 1) opened.0; pallets = q }

  opened-export_ids :
      (n : ℕ) (b : State (Pallets B)) (opened : Epochs.Storage × Pallets B) (e : EpochId)
      → StaysOrCloses n b opened
      → export_ids opened.1.transfers e ≡ export_ids b.pallets.transfers e
  opened-export_ids n b opened e (inl open_still) =
      ap (λ (p : Pallets B). export_ids p.transfers e) open_still.same_pallets
  opened-export_ids n b opened e (inr ended) =
      ap (λ (p : Pallets B). export_ids p.transfers e) ended.closed_pallets
      ∙ commit-export_ids currency laws accounts codec domain_id b.epochs.current_epoch
          b.pallets.transfers b.epochs.current_epoch_start n e

  block-Reach :
      (context : Context) (n : ℕ) (b : State (Pallets B)) (opened : Epochs.Storage × Pallets B)
      (q : Pallets B)
      → StaysOrCloses n b opened
      → Calls currency accounts domain_id opened.0.current_epoch (n + 1) opened.1 q
      → Reach currency accounts domain_id (chain_of b) (chain_of (left_by context n opened q))
  block-Reach context n b opened q cases work =
      subst
        (λ e.
          Reach currency accounts domain_id (chain_of b)
            (record { current = e; storage = q.transfers }))
        (sym (finalized-current_epoch all_providers domain_id len positive context n opened.0))
        (Calls-Reach currency accounts domain_id len positive work (
          opened-Reach currency accounts domain_id len positive (chain_of b) n b opened cases
            Runs.start))

  -- A block keeps the leaves of every epoch that is closed once it has opened.
  block-canonical :
      (context : Context) (n : ℕ) (b : State (Pallets B)) (opened : Epochs.Storage × Pallets B)
      (q : Pallets B)
      → IsSoundHere b
      → StaysOrCloses n b opened
      → Calls currency accounts domain_id opened.0.current_epoch (n + 1) opened.1 q
      → (e : EpochId) → e < opened.0.current_epoch
      → canonical_epoch_exports q.transfers e ≡ canonical_epoch_exports b.pallets.transfers e
  block-canonical context n b opened q sound cases work e closed =
      advanced-canonical currency laws accounts codec domain_id b.epochs.current_epoch
        b.pallets.transfers q.transfers e sound
        (Reach-advances currency laws accounts codec domain_id distinct
          (block-Reach context n b opened q cases work) sound)
        ((Reach-export_ids currency laws accounts codec domain_id distinct e
            (Calls-Reach currency accounts domain_id len positive work Runs.start) closed).1
          ∙ opened-export_ids n b opened e cases)

  -- The header's root is that of the epoch's leaves, as they are stored now.
  abbrev pub IsAnchor : Storage B → EpochId → EpochSummaryHeader → Type 0
  IsAnchor s e header =
      header.export_root
      ≡ export_merkle_root domain_id e header.start_block_height header.end_block_height
          (canonical_epoch_exports s e)

  abbrev pub IsAnchored : State (Pallets B) → Type 0
  IsAnchored b =
      (e : EpochId) (header : EpochSummaryHeader)
      → e < b.epochs.current_epoch
      → get b.epochs.summary_headers e ≡ some header
      → IsAnchor b.pallets.transfers e header

  new-IsAnchor :
      (n : ℕ) (b : State (Pallets B)) (opened : Epochs.Storage × Pallets B)
      (ended : Closes all_providers n b opened)
      → IsAnchor b.pallets.transfers b.epochs.current_epoch ended.header
  unfolding commit_epoch_exports
  new-IsAnchor n b opened ended = rw (ended.first_block, ended.last_block) ended.export_root

  opened-IsAnchor :
      (n : ℕ) (b : State (Pallets B)) (opened : Epochs.Storage × Pallets B)
      → StaysOrCloses n b opened
      → IsAnchored b
      → (e : EpochId) (header : EpochSummaryHeader) → e < opened.0.current_epoch
      → get opened.0.summary_headers e ≡ some header
      → IsAnchor b.pallets.transfers e header
  opened-IsAnchor n b opened (inl open_still) anchored e header closed at =
      anchored e header (omega (arith, open_still.same_epoch))
        (ap (λ m. get m e) (sym open_still.same_headers) ∙ at)
  opened-IsAnchor n b opened (inr ended) anchored e header closed at =
      elim (dec_lt e b.epochs.current_epoch) [
        | yes before ↦ anchored e header before (
            sym (
              get-insert_other b.epochs.summary_headers b.epochs.current_epoch e ended.header
                (λ same. omega arith))
            ∙ ap (λ m. get m e) (sym ended.stored)
            ∙ at)
        | no last ↦
            let here : b.epochs.current_epoch ≡ e = omega (arith, ended.next_epoch) in
            let stored : some ended.header ≡ some header =
              sym (get-insert_self b.epochs.summary_headers b.epochs.current_epoch ended.header)
              ∙ ap (λ m. get m b.epochs.current_epoch) (sym ended.stored)
              ∙ ap (λ k. get opened.0.summary_headers k) here
              ∙ at in
            let same : ended.header ≡ header = ground arith in
            subst₂ (λ k x. IsAnchor b.pallets.transfers k x) here same
              (new-IsAnchor n b opened ended)
      ]

  block-IsAnchored :
      (context : Context) (n : ℕ) (b : State (Pallets B)) (opened : Epochs.Storage × Pallets B)
      (q : Pallets B)
      → IsSoundHere b
      → StaysOrCloses n b opened
      → Calls currency accounts domain_id opened.0.current_epoch (n + 1) opened.1 q
      → IsAnchored b
      → IsAnchored (left_by context n opened q)
  block-IsAnchored context n b opened q sound cases work anchored e header closed at =
      let closed' : e < opened.0.current_epoch =
        omega (
          arith,
          finalized-current_epoch all_providers domain_id len positive context n opened.0,
        ) in
      rw (block-canonical context n b opened q sound cases work e closed') (
        opened-IsAnchor n b opened cases anchored e header closed' (
          ap (λ m. get m e)
            (sym
              (finalized-summary_headers all_providers domain_id len positive context n opened.0))
          ∙ at))

  module _ (importer_account : Option AccountId) (balances : B) (rest : Governance.Storage)
      (none_held : (a : AccountId) → currency.on_hold balances a ≡ 0) where
    abbrev pub runtime_genesis : State (Pallets B)
    runtime_genesis = record {
      epochs = Epochs.genesis len;
      pallets = record {
        transfers = Transfers.genesis importer_account balances;
        governance = rest;
      };
    }

    Run-IsSound :
        {n : ℕ} {b : State (Pallets B)}
        → Run currency accounts domain_id len positive 0 runtime_genesis n b
        → IsSoundHere b
    Run-IsSound r =
        Reach-IsSound currency laws accounts codec domain_id distinct
          (Run-refines currency accounts domain_id len positive importer_account balances rest r)
          (genesis-IsSound currency accounts domain_id importer_account balances none_held)

    Run-IsAnchored :
        {n : ℕ} {b : State (Pallets B)}
        → Run currency accounts domain_id len positive 0 runtime_genesis n b
        → IsAnchored b
    Run-IsAnchored start = λ e header closed at. absurd (omega arith)
    Run-IsAnchored (block {n} {b} r context q same room work) =
        block-IsAnchored context n b (opening all_providers context (n + 1) b) q (Run-IsSound r)
          (opens-cases all_providers domain_id len positive context n b room (
            Blocks-IsGenesisOr all_providers domain_id len positive
              (Calls currency accounts domain_id) (inl (refl, refl)) r))
          work (Run-IsAnchored r)

    -- Whatever the runtime's blocks do from genesis, if nothing is on hold at genesis and the
    -- identifiers of the domain's exports do not collide, every export of a closed epoch, if it has
    -- fewer than 2 ^ 32 of them, has an inclusion proof of its own leaf that the verifier
    -- accepts at the export root of the header that the epochs pallet stored for the epoch.
    pub Run-provable :
        {n : ℕ} {b : State (Pallets B)}
        → Run currency accounts domain_id len positive 0 runtime_genesis n b
        → (k : ExportId) (r : ExportRecord) → get b.pallets.transfers.exports_by_id k ≡ some r
        → r.leaf.source_epoch_id < b.epochs.current_epoch
        → length (canonical_epoch_exports b.pallets.transfers r.leaf.source_epoch_id) < 2 ^ 32
        → (header : EpochSummaryHeader) × (get b.epochs.summary_headers r.leaf.source_epoch_id
            ≡ some header)
          × (proof : ExportInclusionProof) × (build_export_inclusion_proof
                (canonical_epoch_exports b.pallets.transfers r.leaf.source_epoch_id)
                k
              ≡ some proof)
          × (proof.leaf ≡ r.leaf)
          × (verify_export_inclusion_proof header.export_root proof ≡ true)
    Run-provable {n} {b} run k r found closed short =
        let (header, at) = stored_header in
        let (proof, built, same, verified) =
          canonical-provable currency accounts domain_id b.epochs.current_epoch b.pallets.transfers
            (Run-IsSound run) r.leaf.source_epoch_id k r header.start_block_height
            header.end_block_height found refl short in
        (
          header,
          at,
          proof,
          built,
          same,
          subst (λ x. verify_export_inclusion_proof x proof ≡ true)
              (sym (Run-IsAnchored run r.leaf.source_epoch_id header closed at)) verified,
        )
      where
        stored_header :
            (header : EpochSummaryHeader) × (get b.epochs.summary_headers r.leaf.source_epoch_id
              ≡ some header)
        stored_header =
            elim (Blocks-IsGenesisOr all_providers domain_id len positive
              (Calls currency accounts domain_id) (inl (refl, refl)) run) [
                | inl (_, fresh) ↦
                    absurd (omega (arith, ap (λ (s : Epochs.Storage). s.current_epoch) fresh))
                | inr sound ↦
                    let (header, at, _, _) =
                      sound.as_open.schedule.closed r.leaf.source_epoch_id closed in
                    (header, at)
              ]
