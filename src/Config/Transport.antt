-- ===== src/Config/Transport.antt =====
-- The transport configuration: `validate`, which a loaded file has passed, and `link`.
pub mod Coverage
use interplanetary_asynchron.Prelude.{
  ℕ, not, ◌&&◌, Option, none, some, List, [], ◌∷◌, map, length, is_empty, contains, dedup, ltb, leb,
  nat_beq, if◌then◌else◌, ◌==◌, nat_eq, pair_eq,
}
use interplanetary_asynchron.Config.Text.{text_eq, Text, is_blank, text_compare}
use interplanetary_asynchron.Prelude.Map.{Map, get}
use interplanetary_asynchron.Prelude.Outcome.{Outcome, ok, ◌>>=◌, ◌>>◌, ensure, ok_or, for_each}
use interplanetary_asynchron.Prelude.Sorting.{sort_by}
use interplanetary_asynchron.Types.Governance.{target_domain}
use interplanetary_asynchron.Types.Scale.{DomainId, earth, moon, mars, domain_eq}

pub record RelayTransportConfig : Type 0 where
  pub listen_addr : Text
  pub store_dir : Text
  pub scheduler_tick_millis : ℕ
  pub ack_poll_millis : ℕ

pub record ImporterTransportConfig : Type 0 where
  pub listen_addr : Text

-- A `DateTime<Utc>` is the number of nanoseconds since the first one that `chrono` represents.
abbrev pub DateTime : Type 0
DateTime = ℕ

pub record BlackoutWindowConfig : Type 0 where
  pub start : DateTime
  pub end : DateTime

pub record LinkProfileConfig : Type 0 where
  pub source_domain : DomainId
  pub target_domain : DomainId
  pub base_one_way_delay_seconds : ℕ
  pub initial_retry_delay_seconds : ℕ
  pub max_retry_delay_seconds : ℕ
  pub max_attempts : ℕ
  pub blackout_windows : List BlackoutWindowConfig

pub record TransportConfig : Type 0 where
  pub relay : RelayTransportConfig
  pub importers : Map DomainId ImporterTransportConfig
  pub links : List LinkProfileConfig

-- `ConfigError::Validation` by its message.
pub data TransportError : Type 0 where
  empty_relay_listen_addr empty_store_dir zero_scheduler_tick zero_ack_poll : TransportError
  missing_importer empty_importer_listen_addr : DomainId → TransportError
  importer_addresses_not_unique not_six_links : TransportError
  same_domain zero_base_delay zero_initial_retry_delay max_below_initial blackout_not_before_end
        duplicate_link missing_link :
      DomainId → DomainId → TransportError

abbrev pub expected_domains : List DomainId
expected_domains = earth ∷ moon ∷ mars ∷ []

abbrev link_of : LinkProfileConfig → DomainId × DomainId
link_of link = (link.source_domain, link.target_domain)

unfoldable pub validate_importer :
    Map DomainId ImporterTransportConfig → DomainId → Outcome TransportError (Unit {0})
validate_importer importers domain_id = do
  importer ← ok_or (get importers domain_id) (missing_importer domain_id)
  ensure (not (is_blank importer.listen_addr)) (empty_importer_listen_addr domain_id)

-- `sort_unstable` and `dedup` of the addresses; equal strings are the same, so that a stable sort
-- gives the same list.
unfoldable pub validate_addresses :
    Map DomainId ImporterTransportConfig → Outcome TransportError (Unit {0})
validate_addresses importers =
    let addresses = map (λ entry. entry.1.listen_addr) importers in
    ensure (nat_beq (length (dedup (sort_by text_compare addresses))) (length importers))
      importer_addresses_not_unique

unfoldable pub validate_window :
    LinkProfileConfig → BlackoutWindowConfig → Outcome TransportError (Unit {0})
validate_window link window =
    ensure (not (leb window.end window.start))
      (blackout_not_before_end link.source_domain link.target_domain)

-- The checks of one link by itself.
unfoldable pub validate_link : LinkProfileConfig → Outcome TransportError (Unit {0})
validate_link link = do
  ensure (not (link.source_domain == link.target_domain))
      (same_domain link.source_domain link.target_domain)
  ensure (not (nat_beq link.base_one_way_delay_seconds 0))
      (zero_base_delay link.source_domain link.target_domain)
  ensure (not (nat_beq link.initial_retry_delay_seconds 0))
      (zero_initial_retry_delay link.source_domain link.target_domain)
  ensure (not (ltb link.max_retry_delay_seconds link.initial_retry_delay_seconds))
      (max_below_initial link.source_domain link.target_domain)
  for_each (validate_window link) link.blackout_windows

-- The loop over the links, with `seen_links` as the list of its keys.
unfoldable pub validate_links :
    List LinkProfileConfig
    → List (DomainId × DomainId)
    → Outcome TransportError (List (DomainId × DomainId))
validate_links [] seen = ok seen
validate_links (link ∷ rest) seen = do
  validate_link link
  ensure (not (contains seen (link_of link))) (duplicate_link link.source_domain link.target_domain)
  validate_links rest (link_of link ∷ seen)

unfoldable pub validate_pair :
    List (DomainId × DomainId) → DomainId → DomainId → Outcome TransportError (Unit {0})
validate_pair seen source target =
    if source == target
    then ok tt
    else ensure (contains seen (source, target)) (missing_link source target)

unfoldable pub validate_coverage : List (DomainId × DomainId) → Outcome TransportError (Unit {0})
validate_coverage seen =
    for_each (λ source. for_each (validate_pair seen source) expected_domains) expected_domains

unfoldable pub validate : TransportConfig → Outcome TransportError (Unit {0})
validate config = do
  ensure (not (is_blank config.relay.listen_addr)) empty_relay_listen_addr
  ensure (not (is_empty config.relay.store_dir)) empty_store_dir
  ensure (not (nat_beq config.relay.scheduler_tick_millis 0)) zero_scheduler_tick
  ensure (not (nat_beq config.relay.ack_poll_millis 0)) zero_ack_poll
  for_each (validate_importer config.importers) expected_domains
  validate_addresses config.importers
  ensure (nat_beq (length config.links) 6) not_six_links
  seen ← validate_links config.links []
  validate_coverage seen

-- `Iterator::find` of the link between two domains.
unfoldable pub find_link : List LinkProfileConfig → DomainId → DomainId → Option LinkProfileConfig
find_link [] source target = none
find_link (l ∷ rest) source target =
    if l.source_domain == source && l.target_domain == target
    then some l
    else find_link rest source target

abbrev pub link : TransportConfig → DomainId → DomainId → Option LinkProfileConfig
link config source target = find_link config.links source target
