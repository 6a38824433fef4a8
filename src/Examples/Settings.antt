-- ===== src/Examples/Settings.antt =====
-- A transport configuration with its six links, a domain's configuration, and the theorems on them.
use interplanetary_asynchron.Prelude.{
  ℕ, ◌+◌, ◌-◌, ◌*◌, ◌/◌, ◌^◌, ◌≤◌, ◌<◌, ◌≡◌, refl, ◌↔◌, Bool, true, false, Option, some, List, [],
  ◌∷◌, arith, length, dedup, contains, nat_eq, pair_eq,
}
use interplanetary_asynchron.Config.Domains
use interplanetary_asynchron.Config.Text.{Text, is_blank, is_whitespace, as_bytes}
use interplanetary_asynchron.Config.Transport
use interplanetary_asynchron.Config.Transport.{
  BlackoutWindowConfig, LinkProfileConfig, ImporterTransportConfig, TransportConfig, link,
  validate_importer, validate_addresses, validate_window, validate_link, validate_links,
  validate_pair, validate_coverage, find_link,
}
use interplanetary_asynchron.Config.Transport.Coverage.{IsUsable, Joins, validate-covers}
use interplanetary_asynchron.Config.Domains.{
  DomainConfig, development, epoch_length_blocks, build_chain_identity, build_chain_identity-total,
  epoch_length_blocks-exact, fixed_bytes,
}
use interplanetary_asynchron.Domain.{ChainIdentity}
use interplanetary_asynchron.Prelude.Map.{get}
use interplanetary_asynchron.Prelude.Outcome.{ok, ◌>>=◌, ◌>>◌, ensure, ok_or, for_each}
use interplanetary_asynchron.Prelude.Sorting.{sort_by}
use interplanetary_asynchron.Relay.Blackout.{
  Chrono, instant, next_delivery_after, unix_ms_to_utc, utc_to_unix_millis, pass, settle,
}
use interplanetary_asynchron.Relay.Blackout.Least.{IsNext, next_delivery_after-least}
use interplanetary_asynchron.Types.Scale.{DomainId, earth, moon, mars, domain_eq}

abbrev pub link_between : DomainId → DomainId → LinkProfileConfig
link_between source target = record {
  source_domain = source;
  target_domain = target;
  base_one_way_delay_seconds = 3;
  initial_retry_delay_seconds = 1;
  max_retry_delay_seconds = 8;
  max_attempts = 2;
  blackout_windows =
      record { start = 5_000_000_000; end = 9_000_000_000 }
      ∷ record { start = 9_000_000_000; end = 12_000_500_000 }
      ∷ [];
}

abbrev pub importer_at : ℕ → ImporterTransportConfig
importer_at port = record { listen_addr = port ∷ [] }

abbrev pub transport : TransportConfig
transport = record {
  relay = record {
    listen_addr = 97 ∷ [];
    store_dir = 98 ∷ [];
    scheduler_tick_millis = 100;
    ack_poll_millis = 500;
  };
  importers = (earth, importer_at 99) ∷ (moon, importer_at 100) ∷ (mars, importer_at 101) ∷ [];
  links =
      link_between earth moon
      ∷ link_between earth mars
      ∷ link_between moon earth
      ∷ link_between moon mars
      ∷ link_between mars earth
      ∷ link_between mars moon
      ∷ [];
}

pub transport_valid : Transport.validate transport ≡ ok tt
unfolding Transport.validate is_blank is_whitespace validate_importer validate_addresses
    validate_window validate_link validate_links validate_pair validate_coverage ◌>>=◌ ◌>>◌ ensure
    ok_or for_each get sort_by dedup contains
transport_valid = refl

validate-covers_example :
    ((l : LinkProfileConfig) × (link transport moon mars ≡ some l) × IsUsable l × Joins moon mars l)
    × ((i : ImporterTransportConfig) × (get transport.importers mars ≡ some i)
        × (is_blank i.listen_addr ≡ false))
validate-covers_example =
    validate-covers transport moon mars transport_valid (λ e. ground (arith, e))

abbrev pub chrono : Chrono
chrono = record { unix_epoch = 1_000_000_000; max_millis = 8_210_266_876_799_999 }

-- The windows meet, and the second one ends between two milliseconds.
next_delivery_after-least_example :
    (t : ℕ) × IsNext (link_between earth mars).blackout_windows (instant chrono 6_000) t
    × (next_delivery_after chrono (link_between earth mars) 6_000
        ≡ ok ((t - chrono.unix_epoch) / 1_000_000))
next_delivery_after-least_example =
    next_delivery_after-least chrono (link_between earth mars) 6_000 (omega arith) (omega arith)

next_run : next_delivery_after chrono (link_between earth mars) 6_000 ≡ ok 11_000
unfolding next_delivery_after unix_ms_to_utc utc_to_unix_millis settle pass ◌>>=◌ ok_or
next_run = refl

abbrev moon_config : DomainConfig
moon_config = record {
  domain_id = moon;
  chain_name = 76 ∷ 117 ∷ 110 ∷ 97 ∷ [];
  chain_id = 0x6708 ∷ [];
  chain_type = development;
  token = record { symbol = 77 ∷ 79 ∷ []; decimals = 12 };
  network = record { p2p_port = 1; rpc_port = 2; prometheus_port = 3; bootnodes = (7 ∷ []) ∷ [] };
  epoch = record { length_seconds = 61 };
  authorities =
      record { name = 65 ∷ []; account_seed = 65 ∷ []; aura_seed = 66 ∷ []; grandpa_seed = 67 ∷ [] }
      ∷ [];
  bootstrap = record {
    sudo_account_seed = 65 ∷ [];
    importer_account_seed = 66 ∷ [];
    endowed_accounts = (65 ∷ []) ∷ [];
  };
}

abbrev peer_address : Text → Option (List Bool)
peer_address address = some (false ∷ true ∷ [])

moon_valid : Domains.validate peer_address moon_config moon ≡ ok tt
unfolding Domains.validate Domains.validate_bootnode Domains.validate_authority is_blank
    is_whitespace as_bytes ◌>>=◌ ◌>>◌ ensure ok_or for_each contains
moon_valid = refl

build_chain_identity-total_example :
    (identity : ChainIdentity) × (build_chain_identity moon_config ≡ some identity)
    × (identity.domain_id ≡ moon)
    × (length identity.chain_id ≡ 64)
    × (length identity.chain_name ≡ 64)
    × (length identity.token_symbol ≡ 16)
build_chain_identity-total_example =
    build_chain_identity-total peer_address moon_config moon moon_valid

epoch_length_blocks-exact_example : (epoch_length_blocks moon_config 6_000 ≡ ok 10) ↔ (
    (0 < 10)
    × (10 < 2 ^ 32)
    × (10 * 6_000 ≤ moon_config.epoch.length_seconds * 1000)
    × (moon_config.epoch.length_seconds * 1000 < (10 + 1) * 6_000))
epoch_length_blocks-exact_example =
    epoch_length_blocks-exact moon_config 6_000 (omega arith) (omega arith) 10
