-- ===== src/Transfers/Accepted.antt =====
-- What holds when a call succeeds: every guard was passed, and the storage that results.
use interplanetary_asynchron.Prelude.{
  ℕ, ◌<◌, ◌≡◌, refl, ◌≢◌, inl, inr, true, none, some, arith, ltb→lt, nat_beq_iff, Bool-cases,
  Option-cases, ◌==◌, nat_eq, eq_of_beq, pair_eq,
}
use interplanetary_asynchron.Prelude.Map.{get}
use interplanetary_asynchron.Prelude.Outcome.{
  Outcome, ◌>>=◌, Ensures, on_ok, on_err, ensure-Ensures, ok_or-Ensures,
}
use interplanetary_asynchron.Transfers.Calls.{
  ensure_importer, store_export, store_observed, observe_verified_import, store_finalized,
  store_resolved, create_cross_domain_transfer, finalize_verified_import,
  acknowledge_remote_finalization,
}
use interplanetary_asynchron.Transfers.Config.{Origin, signed, unsigned, Env, Accounts, Currency}
use interplanetary_asynchron.Transfers.State.{DispatchError, bad_origin, Storage}
use interplanetary_asynchron.Types.Export.{
  exported, export_status_beq, ExportRecord, RemoteFinalizationClaim,
}
use interplanetary_asynchron.Types.Import.{
  remote_observed, import_status_beq, ObservedImportClaim, ObservedImportRecord,
}
use interplanetary_asynchron.Types.Scale.{
  DomainId, domain_beq_iff, domain_eq, ExportId, AccountIdBytes, AccountId, Hasher,
}

-- The signer is the configured importer.
abbrev pub IsImporter : {B : Type 0} → Origin → Storage B → AccountId → Type 0
IsImporter origin s who = (origin ≡ signed who) × (s.importer_account ≡ some who)

importer-Ensures :
    {B C : Type 0} {P : C → Type 0} (origin : Origin) (s : Storage B)
    (k : AccountId → Outcome DispatchError C)
    → ((who : AccountId) → IsImporter origin s who → Ensures P (k who))
    → Ensures P (ensure_importer origin s >>= k)
unfolding ensure_importer
importer-Ensures unsigned s k f = on_err bad_origin
importer-Ensures (signed who) s k f = elim (Option-cases s.importer_account) [
  | inl e ↦ rw e (on_err _)
  | inr (configured, e) ↦ rw e (elim (Bool-cases (who == configured)) [
    | inl y ↦ rw y (f who (refl, ground (arith, nat_beq_iff who configured)))
    | inr n ↦ rw n (on_err _)
  ])
]

module _ {B : Type 0} (currency : Currency B) (accounts : Accounts) (env : Env) where
  -- A postcondition of an acknowledgement, from the guards that it passed.
  pub acknowledge-Ensures :
      {P : Storage B → Type 0} (origin : Origin) (claim : RemoteFinalizationClaim) (s : Storage B)
      → ((who : AccountId) (r : ExportRecord) (sender : AccountId) (balances : B)
          → IsImporter origin s who
          → claim.source_domain ≡ env.domain_id
          → get s.exports_by_id claim.export_id ≡ some r
          → export_status_beq r.status exported ≡ true
          → accounts.from_bytes r.leaf.sender ≡ some sender
          → currency.burn_held s.balances sender r.leaf.amount ≡ some balances
          → P (store_resolved accounts env who claim r balances s))
      → Ensures P (acknowledge_remote_finalization currency accounts env origin claim s)
  unfolding acknowledge_remote_finalization
  acknowledge-Ensures origin claim s f = importer-Ensures origin s _ λ who i.
      ensure-Ensures _ _ _ λ own. ok_or-Ensures _ _ _ λ r found. ensure-Ensures _ _ _ λ _.
        ensure-Ensures _ _ _ λ _. ensure-Ensures _ _ _ λ _. ensure-Ensures _ _ _ λ _.
          ensure-Ensures _ _ _ λ committed. ok_or-Ensures _ _ _ λ sender decoded.
            ok_or-Ensures _ _ _ λ balances burned.
              on_ok _ (f who r sender balances i (eq_of_beq _ _ own) found committed decoded burned)

  pub finalize-Ensures :
      {P : Storage B → Type 0} (origin : Origin) (id : ExportId) (s : Storage B)
      → ((who : AccountId) (r : ObservedImportRecord) (recipient : AccountId) (balances : B)
          → IsImporter origin s who
          → get s.observed_imports_by_id id ≡ some r
          → r.target_domain ≡ env.domain_id
          → import_status_beq r.status remote_observed ≡ true
          → accounts.from_bytes r.recipient ≡ some recipient
          → currency.mint_into s.balances recipient r.amount ≡ some balances
          → P (store_finalized accounts env who id r balances s))
      → Ensures P (finalize_verified_import currency accounts env origin id s)
  unfolding finalize_verified_import
  finalize-Ensures origin id s f = importer-Ensures origin s _ λ who i.
      ok_or-Ensures _ _ _ λ r found. ensure-Ensures _ _ _ λ own. ensure-Ensures _ _ _ λ observed.
        ok_or-Ensures _ _ _ λ recipient decoded. ok_or-Ensures _ _ _ λ balances minted.
          on_ok _ (f who r recipient balances i found (eq_of_beq _ _ own) observed decoded minted)

module _ {B : Type 0} (accounts : Accounts) (env : Env) where
  pub observe-Ensures :
      {P : Storage B → Type 0} (origin : Origin) (claim : ObservedImportClaim) (s : Storage B)
      → ((who : AccountId)
          → IsImporter origin s who
          → claim.target_domain ≡ env.domain_id
          → get s.observed_imports_by_id claim.export_id ≡ none
          → P (store_observed accounts env who claim s))
      → Ensures P (observe_verified_import accounts env origin claim s)
  unfolding observe_verified_import
  observe-Ensures origin claim s f = importer-Ensures origin s _ λ who i.
      ensure-Ensures _ _ _
        λ own. ensure-Ensures _ _ _ λ fresh. on_ok _ (f who i (eq_of_beq _ _ own) (ground arith))

module _ {B : Type 0} (currency : Currency B) (accounts : Accounts) ⦃h : Hasher⦄ (env : Env) where
  pub create-Ensures :
      {P : Storage B → Type 0} (origin : Origin) (target_domain : DomainId)
      (recipient : AccountIdBytes) (amount : ℕ) (s : Storage B)
      → ((who : AccountId) (balances : B)
          → 0 < amount
          → target_domain ≢ env.domain_id
          → currency.hold s.balances who amount ≡ some balances
          → P (store_export accounts env who target_domain recipient amount balances s))
      → Ensures P (
          create_cross_domain_transfer currency accounts env origin target_domain recipient amount
            s)
  unfolding create_cross_domain_transfer ◌>>=◌
  create-Ensures unsigned target_domain recipient amount s f = on_err bad_origin
  create-Ensures (signed who) target_domain recipient amount s f = ensure-Ensures _ _ _ λ positive.
      ensure-Ensures _ _ _ λ away. ok_or-Ensures _ _ _ λ balances held. on_ok _ (
        f who balances (ltb→lt 0 amount positive)
          (λ e. grind (arith, domain_beq_iff target_domain env.domain_id)) held)
