-- ===== src/Relay/Histories/Final.antt =====
-- What later steps leave of a record.
use mathlib.Core.Option
use interplanetary_asynchron.Prelude.{
  ℕ, suc, ◌≡◌, refl, sym, ap, subst, ◌∙◌, inl, inr, none, some, arith, Option-cases, eq_or_ne,
  nat_eq, pair_eq,
}
use interplanetary_asynchron.Packages.{Bytes, PackageCodec}
use interplanetary_asynchron.Prelude.Index.{find_by-key, find_by-put_other}
use interplanetary_asynchron.Prelude.Map.{get, get-insert_other}
use interplanetary_asynchron.Relay.Delivery.{Reply, RelaySettings}
use interplanetary_asynchron.Relay.Histories.{Reach, Runs, begins, submits, visits, restarts}
use interplanetary_asynchron.Relay.Histories.Follows.{
  Follows, Follows-refl, Follows-trans, Becomes-Follows, normalize_state-Follows,
}
use interplanetary_asynchron.Relay.Histories.Reached.{Reach-IsKept}
use interplanetary_asynchron.Relay.Histories.Steps.{
  Submitted, submit_package-Submitted, restart-find,
}
use interplanetary_asynchron.Relay.Scheduler.{visit, normalize_restart, restart}
use interplanetary_asynchron.Relay.Scheduler.Transitions.{Leads}
use interplanetary_asynchron.Relay.Scheduler.Visits.{visit-Leads, visit-none}
use interplanetary_asynchron.Relay.Store.{
  new_record, Key, RelayPackageRecord, key_of, envelope_key, RelayStore, find_record,
  persist_record, accept_new,
}
use interplanetary_asynchron.Types.Scale.{domain_eq}

module _ (settings : RelaySettings) (codec : PackageCodec) where
  -- The record under a key that held `r`.
  pub record Keeps (s : RelayStore) (k : Key) (r : RelayPackageRecord) (t : RelayStore)
      : Type 0 where
    pub current : RelayPackageRecord
    pub found : find_record t.packages k ≡ some current
    pub follows : Follows r current
    pub payload : get t.payloads k ≡ get s.payloads k

  Keeps-trans :
      (s t u : RelayStore) (k : Key) (r : RelayPackageRecord) (b : Keeps s k r t)
      → Keeps t k b.current u
      → Keeps s k r u
  Keeps-trans s t u k r b c = record {
    current = c.current;
    found = c.found;
    follows = Follows-trans r b.current c.current b.follows c.follows;
    payload = c.payload ∙ b.payload;
  }

  rests-Keeps :
      (s t : RelayStore) (k : Key) (r : RelayPackageRecord)
      → find_record t.packages k ≡ some r
      → get t.payloads k ≡ get s.payloads k
      → Keeps s k r t
  rests-Keeps s t k r found payload = record {
    current = r;
    found = found;
    follows = Follows-refl r;
    payload = payload;
  }

  Leads-Keeps :
      (s t : RelayStore) (v r : RelayPackageRecord) (k : Key)
      → find_record s.packages k ≡ some r
      → find_record s.packages (key_of v) ≡ some v
      → Leads settings s v t
      → Keeps s k r t
  Leads-Keeps s t v r k found at leads = elim (eq_or_ne (key_of v) k) [
    | inl same ↦
        let is_r : v ≡ r = ground (arith, at, found, same) in
        record {
          current = leads.current;
          found = ap (find_record t.packages) (sym same) ∙ leads.holds.here;
          follows =
              subst (λ x. Follows x leads.current) is_r
                (Becomes-Follows settings v leads.current leads.becomes);
          payload = ap (λ p. get p k) leads.holds.payloads;
        }
    | inr other ↦
        rests-Keeps s t k r (leads.holds.others k other ∙ found)
          (ap (λ p. get p k) leads.holds.payloads)
  ]

  visit-Keeps :
      (s : RelayStore) (k : Key) (r : RelayPackageRecord) (key : Key) (tested_at now : ℕ)
      (reply : Reply)
      → find_record s.packages k ≡ some r
      → Keeps s k r (visit settings key tested_at now reply s).0
  visit-Keeps s k r key tested_at now reply found =
      elim (Option-cases (find_record s.packages key)) [
        | inl missing ↦
            subst (Keeps s k r) (sym (visit-none settings s key tested_at now reply missing))
              (rests-Keeps s s k r found refl)
        | inr (v, at) ↦
            Leads-Keeps s _ v r k found
              (ap (find_record s.packages) (find_by-key key_of s.packages key v at) ∙ at)
              (visit-Leads settings s key v tested_at now reply at)
      ]

  submit-Keeps :
      (s t : RelayStore) (k : Key) (r : RelayPackageRecord) (body : Bytes) (now : ℕ)
      → find_record s.packages k ≡ some r
      → Submitted codec body now s t
      → Keeps s k r t
  unfolding accept_new persist_record
  submit-Keeps s t k r body now found b = elim b.outcome [
    | inl (same, _) ↦ subst (Keeps s k r) (sym same) (rests-Keeps s _ k r found refl)
    | inr (fresh, new) ↦
        let apart = λ (e : envelope_key b.envelope ≡ k).
          some-none (sym found ∙ ap (find_record s.packages) (sym e) ∙ fresh) in
        subst (Keeps s k r) (sym new) (
          rests-Keeps s _ k r
            (find_by-put_other key_of s.packages (new_record b.envelope now) k apart ∙ found)
            (get-insert_other s.payloads (envelope_key b.envelope) k _ apart))
  ]
    where
      some-none : {A : Type 0} {a : A} → some a ≡ none → ⊥
      some-none h = ground arith

  restart-Keeps :
      (s : RelayStore) (k : Key) (r : RelayPackageRecord) (now : ℕ)
      → s.saved ≡ s.packages
      → find_record s.packages k ≡ some r
      → Keeps s k r (restart settings.ack_poll_millis now s)
  unfolding restart
  restart-Keeps s k r now saved found = record {
    current = normalize_restart settings.ack_poll_millis now r;
    found =
        restart-find settings.ack_poll_millis now s k
        ∙ ap (λ p. Option.map (normalize_restart settings.ack_poll_millis now) (find_record p k))
            saved
        ∙ ap (Option.map (normalize_restart settings.ack_poll_millis now)) found;
    follows =
        normalize_state-Follows settings r r.state r.next_ack_poll_at_unix_ms
          settings.ack_poll_millis now refl;
    payload = refl;
  }

  pub Runs-Reach :
      (n : ℕ) (s : RelayStore) (m : ℕ) (t : RelayStore)
      → Reach settings codec n s
      → Runs settings codec s m t
      → (count : ℕ) × Reach settings codec count t
  Runs-Reach n s m t begun begins = (n, begun)
  Runs-Reach n s m t begun (submits _ u _ body now receipt before h) =
      let (count, reached) = Runs-Reach n s m u begun before in
      (count, submits count u t body now receipt reached h)
  Runs-Reach n s m t begun (visits _ u key tested_at now reply before) =
      let (count, reached) = Runs-Reach n s m u begun before in
      (count, visits count u key tested_at now reply reached)
  Runs-Reach n s m t begun (restarts l u now before) =
      let (count, reached) = Runs-Reach n s l u begun before in
      (suc count, restarts count u now reached)

  -- From any point of a history on, a package that the relay has accepted is never lost, whatever is
  -- submitted, visited and restarted: its record keeps the name, the summary, the count and the time
  -- of acceptance, its payload file keeps its bytes, and a record that was acknowledged by the
  -- importer, or failed, does not change at all.
  pub Runs-Keeps :
      (n : ℕ) (s : RelayStore) (k : Key) (r : RelayPackageRecord) (m : ℕ) (t : RelayStore)
      → Reach settings codec n s
      → Runs settings codec s m t
      → find_record s.packages k ≡ some r
      → Keeps s k r t
  Runs-Keeps n s k r m t begun begins found = rests-Keeps s s k r found refl
  Runs-Keeps n s k r m t begun (submits _ u _ body now receipt before h) found =
      let b = Runs-Keeps n s k r m u begun before found in
      Keeps-trans s u t k r b (
        submit-Keeps u t k b.current body now b.found
          (submit_package-Submitted codec body now u t receipt h))
  Runs-Keeps n s k r m t begun (visits _ u key tested_at now reply before) found =
      let b = Runs-Keeps n s k r m u begun before found in
      Keeps-trans s u t k r b (visit-Keeps u k b.current key tested_at now reply b.found)
  Runs-Keeps n s k r m t begun (restarts l u now before) found =
      let b = Runs-Keeps n s k r l u begun before found in
      let (count, reached) = Runs-Reach n s l u begun before in
      let sound = Reach-IsKept settings codec count u reached in
      Keeps-trans s u t k r b (restart-Keeps u k b.current now sound.saved b.found)
