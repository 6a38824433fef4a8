-- ===== src/Examples/Transfers.antt =====
-- A transfer from Earth to Mars on Earth's chain, and its import on Mars.
use interplanetary_asynchron.Prelude.{ℕ, ◌≡◌, refl, some, [], ◌∷◌, arith, nat_eq, pair_eq}
use interplanetary_asynchron.Examples.World.{
  hasher, hasher-distinct, accounts, accounts-laws, Wallet, currency, currency-laws,
}
use interplanetary_asynchron.Prelude.Map.{Map, get, insert}
use interplanetary_asynchron.Prelude.Outcome.{◌>>=◌, ◌>>◌, ensure, ok_or, after}
use interplanetary_asynchron.Prelude.Sorting.{sort_by}
use interplanetary_asynchron.Transfers.Calls.{store_export, create_cross_domain_transfer}
use interplanetary_asynchron.Transfers.Commit.{
  canonical_epoch_exports, mark_record, mark_exported, commit_epoch_exports,
}
use interplanetary_asynchron.Transfers.Config.{signed, Env}
use interplanetary_asynchron.Transfers.Invariant.{genesis-IsSound}
use interplanetary_asynchron.Transfers.Lifecycle.{StorageAdvances}
use interplanetary_asynchron.Transfers.Lifecycle.Histories.{Reach-advances}
use interplanetary_asynchron.Transfers.Runs.{
  Call, create_call, Chain, dispatch, calls, closes, Reach, start, next, IsSoundChain,
  Reach-IsSound,
}
use interplanetary_asynchron.Transfers.State.{genesis}
use interplanetary_asynchron.Transfers.Supply.{IsAccounted, Reach-IsAccounted}
use interplanetary_asynchron.Types.Export.{export_id}
use interplanetary_asynchron.Types.Scale.{earth, mars, domain_eq, AccountId, EpochId}

abbrev pub earth_env : EpochId → ℕ → Env
earth_env epoch block = record {
  domain_id = earth;
  current_epoch = epoch;
  block_number = block;
  extrinsic_index = some 0;
}

abbrev pub mars_env : EpochId → ℕ → Env
mars_env epoch block = record {
  domain_id = mars;
  current_epoch = epoch;
  block_number = block;
  extrinsic_index = some 0;
}

abbrev pub funds : Map ℕ Wallet
funds = (1, record { free = 1000; held = 0 }) ∷ (2, record { free = 50; held = 0 }) ∷ []

abbrev earth_genesis : Chain (Map ℕ Wallet)
earth_genesis = record { current = 0; storage = genesis (some 99) funds }

pub none_held : (a : AccountId) → currency.on_hold funds a ≡ 0
unfolding get
none_held a = ground arith

genesis_sound :
    IsSoundChain currency currency-laws accounts accounts-laws earth
      (hasher-distinct earth)
      earth_genesis
genesis_sound = genesis-IsSound currency accounts earth (some 99) funds none_held

abbrev pub transfer : Call
transfer = create_call (signed 1) mars 7 75

-- After the transfer and the close of its epoch.
abbrev pub created : Chain (Map ℕ Wallet)
created = record earth_genesis {
  storage =
      after earth_genesis.storage
        (dispatch currency accounts (earth_env 0 1) transfer earth_genesis.storage);
}

abbrev pub closed : Chain (Map ℕ Wallet)
closed = record { current = 1; storage = (commit_epoch_exports earth 0 1 3 created.storage).1 }

history : Reach currency accounts earth earth_genesis closed
history = next (next start (calls (earth_env 0 1) transfer refl refl (omega arith))) (closes 1 3)

-- The hold is there, and the record is committed.
transfer_held : currency.on_hold closed.storage.balances 1 ≡ 75
unfolding commit_epoch_exports dispatch create_cross_domain_transfer store_export ◌>>=◌ ◌>>◌ ensure
    ok_or get insert mark_exported mark_record canonical_epoch_exports sort_by export_id
transfer_held = refl

pub closed_sound :
    IsSoundChain currency currency-laws accounts accounts-laws earth (hasher-distinct earth) closed
closed_sound =
    Reach-IsSound currency currency-laws accounts accounts-laws earth (hasher-distinct earth)
      history genesis_sound

pub created_sound :
    IsSoundChain currency currency-laws accounts accounts-laws earth (hasher-distinct earth) created
created_sound =
    Reach-IsSound currency currency-laws accounts accounts-laws earth (hasher-distinct earth)
      (next start (calls (earth_env 0 1) transfer refl refl (omega arith))) genesis_sound

Reach-IsSound_example :
    IsSoundChain currency currency-laws accounts accounts-laws earth (hasher-distinct earth) closed
Reach-IsSound_example =
    Reach-IsSound currency currency-laws accounts accounts-laws earth (hasher-distinct earth)
      history genesis_sound

Reach-advances_example : StorageAdvances earth_genesis.storage closed.storage
Reach-advances_example =
    Reach-advances currency currency-laws accounts accounts-laws earth (hasher-distinct earth)
      history genesis_sound

Reach-IsAccounted_example : IsAccounted currency earth_genesis.storage closed.storage
Reach-IsAccounted_example =
    Reach-IsAccounted currency currency-laws accounts accounts-laws earth (hasher-distinct earth)
      history genesis_sound
