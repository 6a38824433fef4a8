-- ===== src/Relay/Histories.antt =====
-- services/relay/src/lib.rs as a whole: submissions over HTTP, visits of the scheduler, and restarts of
-- the process, in any order. A step runs to its end before the next one, and a restart comes between
-- two steps, or after a visit that an error broke off. A submission that is refused changes nothing.
pub mod Steps
pub mod Sound
pub mod Reached
pub mod Follows
pub mod Final
pub mod Replay
pub mod Delivered
use interplanetary_asynchron.Prelude.{ℕ, suc, ◌≡◌, Bool, nat_eq, pair_eq}
use interplanetary_asynchron.Packages.{Bytes, PackageCodec}
use interplanetary_asynchron.Prelude.Outcome.{ok}
use interplanetary_asynchron.Relay.Delivery.{Reply, RelaySettings}
use interplanetary_asynchron.Relay.Scheduler.{visit, restart}
use interplanetary_asynchron.Relay.Store.{
  RelayQueueState, Key, RelayStore, empty_store, submit_package,
}
use interplanetary_asynchron.Types.Scale.{domain_eq}

module _ (settings : RelaySettings) (codec : PackageCodec) where
  -- From `s`, with so many restarts.
  pub data Runs (s : RelayStore) : ℕ → RelayStore → Type 0 where
    begins : Runs s 0 s
    submits :
        (n : ℕ) (t u : RelayStore) (body : Bytes) (now : ℕ) (receipt : RelayQueueState × Bool)
        → Runs s n t
        → submit_package codec body now t ≡ ok (u, receipt)
        → Runs s n u
    visits :
        (n : ℕ) (t : RelayStore) (key : Key) (tested_at now : ℕ) (reply : Reply)
        → Runs s n t
        → Runs s n (visit settings key tested_at now reply t).0
    restarts :
        (n : ℕ) (t : RelayStore) (now : ℕ)
        → Runs s n t
        → Runs s (suc n) (restart settings.ack_poll_millis now t)

  abbrev pub Reach : ℕ → RelayStore → Type 0
  Reach = Runs empty_store
