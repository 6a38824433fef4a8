-- ===== src/Config/Transport/Coverage.antt =====
-- What a transport configuration that passed `validate` is good for.
use interplanetary_asynchron.Prelude.{
  ◌≤◌, ◌<◌, ◌≡◌, refl, ◌≢◌, ◌⊎◌, inl, inr, true, false, ◌&&◌, some, List, [], ◌∷◌, arith, In, All,
  All-at, contains, Bool-cases, ◌==◌, nat_eq, pair_eq,
}
use interplanetary_asynchron.Config.Text.{is_blank, text_eq}
use interplanetary_asynchron.Config.Transport.{
  ImporterTransportConfig, BlackoutWindowConfig, LinkProfileConfig, TransportConfig,
  expected_domains, validate_importer, validate_window, validate_link, validate_links,
  validate_pair, validate_coverage, validate, find_link, link,
}
use interplanetary_asynchron.Prelude.Map.{get}
use interplanetary_asynchron.Prelude.Outcome.{
  ok, ensure, for_each, >>=-ok, >>-ok, ensure-ok, ok_or-ok, for_each-ok,
}
use interplanetary_asynchron.Types.Scale.{DomainId, earth, moon, mars, domain_beq_iff, domain_eq}

pub record IsUsable (l : LinkProfileConfig) : Type 0 where
  pub base : 0 < l.base_one_way_delay_seconds
  pub initial : 0 < l.initial_retry_delay_seconds
  pub ordered : l.initial_retry_delay_seconds ≤ l.max_retry_delay_seconds
  pub windows : All (λ w. w.start < w.end) l.blackout_windows

window-lt :
    (l : LinkProfileConfig) (w : BlackoutWindowConfig)
    → validate_window l w ≡ ok tt
    → w.start < w.end
unfolding validate_window ensure
window-lt l w h = ground arith

windows-lt :
    (l : LinkProfileConfig) (ws : List BlackoutWindowConfig)
    → All (λ w. validate_window l w ≡ ok tt) ws
    → All (λ w. w.start < w.end) ws
windows-lt l [] h = tt
windows-lt l (w ∷ ws) h = (window-lt l w h.0, windows-lt l ws h.1)

validate_link-IsUsable : (l : LinkProfileConfig) → validate_link l ≡ ok tt → IsUsable l
unfolding validate_link
validate_link-IsUsable l h =
    let (_, h1) = ensure-ok _ _ _ _ h in
    let (base, h2) = ensure-ok _ _ _ _ h1 in
    let (initial, h3) = ensure-ok _ _ _ _ h2 in
    let (ordered, h4) = ensure-ok _ _ _ _ h3 in
    record {
      base = ground arith;
      initial = ground arith;
      ordered = ground arith;
      windows =
          windows-lt l l.blackout_windows (for_each-ok (validate_window l) l.blackout_windows h4);
    }

abbrev pub Joins : DomainId → DomainId → LinkProfileConfig → Type 0
Joins source target l = (l.source_domain ≡ source) × (l.target_domain ≡ target)

-- The pairs that the loop has seen are those of the links, each once.
validate_links-seen :
    (ls : List LinkProfileConfig) (seen out : List (DomainId × DomainId)) (source target : DomainId)
    → validate_links ls seen ≡ ok out
    → contains out (source, target) ≡ true
    → (contains seen (source, target) ≡ true)
      ⊎ ((l : LinkProfileConfig) × (find_link ls source target ≡ some l)
          × IsUsable l
          × Joins source target l)
unfolding validate_links find_link contains
validate_links-seen [] seen out source target h m = inl (ground arith)
validate_links-seen (l ∷ ls) seen out source target h m =
    let (here, h1) = >>-ok (validate_link l) _ _ h in
    let (_, h2) = ensure-ok _ _ _ _ h1 in
    elim (Bool-cases (l.source_domain == source && l.target_domain == target)) [
      | inl y ↦ inr (
        l,
        rw y,
        validate_link-IsUsable l here,
        (
          ground (arith, domain_beq_iff l.source_domain source),
          ground (arith, domain_beq_iff l.target_domain target),
        ),
      )
      | inr n ↦ elim (validate_links-seen ls _ out source target h2 m) [
        | inl old ↦ inl (ground arith)
        | inr (k, found, usable, joins) ↦ inr (k, rw (n, found), usable, joins)
      ]
    ]

expected_In : (d : DomainId) → In d expected_domains
expected_In earth = inl refl
expected_In moon = inr (inl refl)
expected_In mars = inr (inr (inl refl))

validate_pair-seen :
    (seen : List (DomainId × DomainId)) (source target : DomainId)
    → source ≢ target
    → validate_pair seen source target ≡ ok tt
    → contains seen (source, target) ≡ true
unfolding validate_pair ensure
validate_pair-seen seen source target other h = ground (arith, domain_beq_iff source target)

importer_found :
    (c : TransportConfig) (d : DomainId)
    → validate_importer c.importers d ≡ ok tt
    → (i : ImporterTransportConfig) × (get c.importers d ≡ some i)
      × (is_blank i.listen_addr ≡ false)
unfolding validate_importer ensure
importer_found c d h = let (i, found, e) = ok_or-ok _ _ _ _ h in (i, found, ground arith)

-- In a configuration that passes validation, between any two different domains there is a link with
-- positive delays whose largest retry delay is not below the first one and whose blackout windows
-- start before they end, and the target has an importer whose address is not blank.
pub validate-covers :
    (config : TransportConfig) (source target : DomainId)
    → validate config ≡ ok tt
    → source ≢ target
    → ((l : LinkProfileConfig) × (link config source target ≡ some l)
        × IsUsable l
        × Joins source target l)
      × ((i : ImporterTransportConfig) × (get config.importers target ≡ some i)
          × (is_blank i.listen_addr ≡ false))
unfolding validate validate_coverage
validate-covers config source target h other =
    let (_, h1) = ensure-ok _ _ _ _ h in
    let (_, h2) = ensure-ok _ _ _ _ h1 in
    let (_, h3) = ensure-ok _ _ _ _ h2 in
    let (_, h4) = ensure-ok _ _ _ _ h3 in
    let (importers, h5) = >>-ok _ _ _ h4 in
    let (_, h6) = >>-ok _ _ _ h5 in
    let (_, h7) = ensure-ok _ _ _ _ h6 in
    let (seen, looped, covered) = >>=-ok _ _ _ h7 in
    let row =
      All-at (λ s. for_each (validate_pair seen s) expected_domains ≡ ok tt) source expected_domains
        (for_each-ok _ expected_domains covered) (expected_In source) in
    let pair =
      All-at (λ t. validate_pair seen source t ≡ ok tt) target expected_domains
        (for_each-ok _ expected_domains row) (expected_In target) in
    (
      elim (validate_links-seen config.links [] seen source target looped
          (validate_pair-seen seen source target other pair)) [
            | inl old ↦ absurd (unfold contains in ground arith)
            | inr found ↦ found
          ],
      importer_found config target (
          All-at (λ s. validate_importer config.importers s ≡ ok tt) target expected_domains
            (for_each-ok _ expected_domains importers) (expected_In target)),
    )
