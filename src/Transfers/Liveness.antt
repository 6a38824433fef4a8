-- ===== src/Transfers/Liveness.antt =====
-- A genuine claim is always accepted: the hold that it burns is there.
use interplanetary_asynchron.Prelude.{◌≤◌, ◌≡◌, some, arith, nat_beq_iff, nat_eq, pair_eq}
use interplanetary_asynchron.Prelude.Map.{get, weight_of-get_le}
use interplanetary_asynchron.Prelude.Outcome.{ok, ◌>>=◌, ◌>>◌, ensure, ok_or}
use interplanetary_asynchron.Transfers.Calls.{
  ensure_importer, store_resolved, acknowledge_remote_finalization,
}
use interplanetary_asynchron.Transfers.Config.{signed, Env, Accounts, Currency, CurrencyLaws}
use interplanetary_asynchron.Transfers.Invariant.{owed, IsSound}
use interplanetary_asynchron.Transfers.State.{Storage}
use interplanetary_asynchron.Types.Export.{exported, ExportRecord, RemoteFinalizationClaim}
use interplanetary_asynchron.Types.Scale.{domain_eq, AccountId, Hasher}

module _ {B : Type 0} (currency : Currency B) (laws : CurrencyLaws currency) (accounts : Accounts)
    ⦃h : Hasher⦄ (env : Env) (s : Storage B)
    (sound : IsSound currency accounts env.domain_id env.current_epoch s) where
  -- On a sound chain the importer's claim for an exported record, with the facts of its leaf, is
  -- acknowledged: it fails neither for a missing hold nor for a sender that does not decode.
  pub acknowledge_succeeds :
      (who : AccountId) (claim : RemoteFinalizationClaim) (r : ExportRecord)
      → s.importer_account ≡ some who
      → get s.exports_by_id claim.export_id ≡ some r
      → r.status ≡ exported
      → claim.source_domain ≡ r.leaf.source_domain
      → claim.target_domain ≡ r.leaf.target_domain
      → claim.source_epoch_id ≡ r.leaf.source_epoch_id
      → claim.recipient ≡ r.leaf.recipient
      → claim.amount ≡ r.leaf.amount
      → (balances : B) × (acknowledge_remote_finalization currency accounts env (signed who) claim s
          ≡ ok (store_resolved accounts env who claim r balances s))
  unfolding acknowledge_remote_finalization ensure_importer ◌>>=◌ ◌>>◌ ensure ok_or
  acknowledge_succeeds who claim r importer found committed source target epoch recipient amount =
      let i = sound.recorded claim.export_id r found in
      let (sender, decoded) = i.sender in
      let enough : r.leaf.amount ≤ currency.on_hold s.balances sender = ground (
        arith,
        sound.backed sender,
        weight_of-get_le (owed accounts sender) s.exports_by_id claim.export_id r found,
      ) in
      let (balances, burned) = laws.burn_held_succeeds s.balances sender r.leaf.amount enough in
      (balances, ground (arith, i.source, nat_beq_iff who who))
