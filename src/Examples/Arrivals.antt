-- ===== src/Examples/Arrivals.antt =====
-- The same transfer arriving on Mars.
use interplanetary_asynchron.Prelude.{ℕ, ◌<◌, ◌≡◌, refl, ◌≢◌, some, arith, nat_eq, pair_eq}
use interplanetary_asynchron.Examples.Transfers.{mars_env, funds, none_held}
use interplanetary_asynchron.Examples.World.{
  hasher, hasher-distinct, accounts, accounts-laws, Wallet, currency, currency-laws,
}
use interplanetary_asynchron.Prelude.Map.{Map, get, insert}
use interplanetary_asynchron.Prelude.Outcome.{ok, ◌>>=◌, ◌>>◌, ensure, ok_or, after}
use interplanetary_asynchron.Transfers.Calls.{
  ensure_importer, store_observed, observe_verified_import, store_finalized,
  finalize_verified_import,
}
use interplanetary_asynchron.Transfers.Commit.{commit_epoch_exports}
use interplanetary_asynchron.Transfers.Config.{signed}
use interplanetary_asynchron.Transfers.Invariant.{genesis-IsSound}
use interplanetary_asynchron.Transfers.Lifecycle.Histories.{finalize_once}
use interplanetary_asynchron.Transfers.Runs.{
  observe_call, finalize_call, Chain, dispatch, calls, closes, start, next, IsSoundChain,
  Reach-IsSound,
}
use interplanetary_asynchron.Transfers.State.{genesis}
use interplanetary_asynchron.Types.Import.{ObservedImportClaim}
use interplanetary_asynchron.Types.Scale.{earth, mars, domain_eq, u64_max}

abbrev claim : ObservedImportClaim
claim = record {
  version = 1;
  export_id = 5;
  source_domain = earth;
  target_domain = mars;
  source_epoch_id = 0;
  summary_hash = 11;
  package_hash = 12;
  recipient = 2;
  amount = 75;
}

abbrev mars_genesis : Chain (Map ℕ Wallet)
mars_genesis = record { current = 0; storage = genesis (some 99) funds }

abbrev observed : Chain (Map ℕ Wallet)
observed = record mars_genesis {
  storage = after mars_genesis.storage (
      dispatch currency accounts (mars_env 0 1) (observe_call (signed 99) claim)
        mars_genesis.storage);
}

abbrev minted : Chain (Map ℕ Wallet)
minted = record observed {
  storage =
      after observed.storage
        (dispatch currency accounts (mars_env 0 2) (finalize_call (signed 99) 5) observed.storage);
}

abbrev later_minted : Chain (Map ℕ Wallet)
later_minted = record { current = 1; storage = (commit_epoch_exports mars 0 1 3 minted.storage).1 }

room : observed.storage.next_export_sequence < u64_max
unfolding dispatch ◌>>=◌ ◌>>◌ ensure ok_or get insert observe_verified_import ensure_importer
    store_observed
room = omega arith

minted_sound :
    IsSoundChain currency currency-laws accounts accounts-laws mars (hasher-distinct mars) minted
minted_sound =
    Reach-IsSound currency currency-laws accounts accounts-laws mars (hasher-distinct mars)
      (next
        (next start (calls (mars_env 0 1) (observe_call (signed 99) claim) refl refl (omega arith)))
        (calls (mars_env 0 2) (finalize_call (signed 99) 5) refl refl room))
      (genesis-IsSound currency accounts mars (some 99) funds none_held)

first_mint :
    finalize_verified_import currency accounts (mars_env 0 2) (signed 99) 5 observed.storage
    ≡ ok minted.storage
unfolding dispatch ◌>>=◌ ◌>>◌ ensure ok_or get insert observe_verified_import ensure_importer
    store_observed finalize_verified_import store_finalized
first_mint = refl

finalize_once_example :
    finalize_verified_import currency accounts (mars_env 1 4) (signed 99) 5 later_minted.storage
    ≢ ok later_minted.storage
finalize_once_example =
    finalize_once currency currency-laws accounts accounts-laws mars (hasher-distinct mars)
      (mars_env 0 2) (mars_env 1 4) (signed 99) (signed 99) observed.storage minted later_minted
      minted_sound (next start (closes 1 3)) 5 later_minted.storage first_mint
