-- ===== src/Transfers/Invariant/Create.antt =====
-- A transfer keeps the invariant.
use interplanetary_asynchron.Prelude.{
  ℕ, ◌+◌, ◌≤◌, ◌<◌, min, ◌≡◌, refl, sym, ap, subst, ◌≢◌, ◌⊎◌, inl, inr, none, some, [], ◌∷◌, ◌++◌,
  arith, In, In-append_left, In-append_right, In-append_cases, nat_beq, if◌then◌else◌, Bool-cases,
  Option-cases, nat_eq, beq_self, eq_of_beq, pair_eq,
}
use interplanetary_asynchron.Prelude.Map.{
  weight, get, get-insert, get-insert_self, get-insert_cases, get-insert_fresh, weight-insert,
}
use interplanetary_asynchron.Transfers.Calls.{new_leaf, new_record, store_export}
use interplanetary_asynchron.Transfers.Config.{Env, Accounts, AccountsLaws, Currency, CurrencyLaws}
use interplanetary_asynchron.Transfers.Invariant.{owed, IdsAreDistinct, IsRecorded, IsSound}
use interplanetary_asynchron.Transfers.State.{Storage, export_ids}
use interplanetary_asynchron.Types.Export.{ExportLeaf, ExportRecord, export_id}
use interplanetary_asynchron.Types.Scale.{
  DomainId, domain_eq, ExportId, AccountIdBytes, AccountId, EpochId, Hasher, u64_max,
}

module _ (accounts : Accounts) ⦃h : Hasher⦄ (domain_id : DomainId) where
  -- A later sequence number does not matter to a record.
  pub IsRecorded-mono :
      (m n : ℕ) (e : EpochId) (k : ExportId) (r : ExportRecord)
      → m ≤ n
      → IsRecorded accounts domain_id m e k r
      → IsRecorded accounts domain_id n e k r
  IsRecorded-mono m n e k r le i = record {
    id = i.id;
    own_hash = i.own_hash;
    source = i.source;
    target = i.target;
    positive = i.positive;
    sequence = (i.sequence.0, omega (arith, i.sequence.1), i.sequence.2);
    sender = i.sender;
    open_epoch = i.open_epoch;
    closed_epoch = i.closed_epoch;
  }

module _ {B : Type 0} (currency : Currency B) (laws : CurrencyLaws currency) (accounts : Accounts)
    (codec : AccountsLaws accounts) ⦃h : Hasher⦄ (env : Env)
    (distinct : IdsAreDistinct h env.domain_id) (s : Storage B)
    (sound : IsSound currency accounts env.domain_id env.current_epoch s) where
  -- The next identifier is new.
  pub next_id-fresh : get s.exports_by_id (export_id env.domain_id s.next_export_sequence) ≡ none
  next_id-fresh =
      elim (Option-cases (get s.exports_by_id (export_id env.domain_id s.next_export_sequence))) [
        | inl e ↦ e
        | inr (r, e) ↦
            let (n, lt, q) = (sound.recorded _ r e).sequence in
            absurd (
              omega (
                arith,
                lt,
                sound.bounded,
                distinct s.next_export_sequence n sound.bounded (omega (arith, lt, sound.bounded))
                    q,
              ))
      ]

  module _ (who : AccountId) (target_domain : DomainId) (recipient : AccountIdBytes) (amount : ℕ)
      (balances : B) (room : s.next_export_sequence < u64_max) (positive : 0 < amount)
      (away : target_domain ≢ env.domain_id)
      (held : currency.hold s.balances who amount ≡ some balances) where
    abbrev id : ExportId
    id = export_id env.domain_id s.next_export_sequence

    abbrev leaf : ExportLeaf
    leaf = new_leaf accounts env who target_domain recipient amount s.next_export_sequence

    abbrev t : Storage B
    t = store_export accounts env who target_domain recipient amount balances s

    new-IsRecorded :
        IsRecorded accounts env.domain_id
          (s.next_export_sequence + 1)
          env.current_epoch
          id
          (new_record leaf)
    new-IsRecorded = record {
      id = refl;
      own_hash = refl;
      source = refl;
      target = away;
      positive = positive;
      sequence = (s.next_export_sequence, omega arith, refl);
      sender = (who, codec.from_to who);
      open_epoch = λ _. refl;
      closed_epoch = λ p. absurd (ground arith);
    }

    t-IsRecorded :
        (k : ExportId) (r : ExportRecord)
        → get t.exports_by_id k ≡ some r
        → IsRecorded accounts env.domain_id (s.next_export_sequence + 1) env.current_epoch k r
    unfolding store_export
    t-IsRecorded k r p = elim (get-insert_cases s.exports_by_id id k (new_record leaf) r p) [
      | inl (e, q) ↦
          subst
            (λ x.
              IsRecorded accounts env.domain_id (s.next_export_sequence + 1) env.current_epoch x r)
            e
            (subst
              (IsRecorded accounts env.domain_id (s.next_export_sequence + 1) env.current_epoch id)
              q new-IsRecorded)
      | inr (n, old) ↦
          IsRecorded-mono accounts env.domain_id s.next_export_sequence (s.next_export_sequence + 1)
            env.current_epoch k r (omega arith) (sound.recorded k r old)
    ]

    export_ids-t :
        (e : EpochId)
        → export_ids t e ≡ (
            if nat_beq env.current_epoch e
            then export_ids s env.current_epoch ++ id ∷ []
            else export_ids s e)
    unfolding store_export
    export_ids-t e = ground (
      arith,
      get-insert s.epoch_export_ids env.current_epoch e (export_ids s env.current_epoch ++ id ∷ []),
    )

    In-export_ids_new : In id (export_ids t env.current_epoch)
    In-export_ids_new = rw (export_ids-t env.current_epoch) (
        rw (beq_self env.current_epoch)
          (In-append_right id (export_ids s env.current_epoch) (id ∷ []) (inl refl)))

    In-export_ids_old : (e : EpochId) (k : ExportId) → In k (export_ids s e) → In k (export_ids t e)
    In-export_ids_old e k m = rw (export_ids-t e) (elim (Bool-cases (nat_beq env.current_epoch e)) [
      | inl y ↦ rw y (
          In-append_left k (export_ids s env.current_epoch) (id ∷ [])
            (subst (λ x. In k (export_ids s x)) (sym (eq_of_beq env.current_epoch e y)) m))
      | inr n ↦ rw n m
    ])

    In-export_ids_cases :
        (e : EpochId) (k : ExportId)
        → In k (export_ids t e)
        → In k (export_ids s e) ⊎ ((k ≡ id) × (env.current_epoch ≡ e))
    In-export_ids_cases e k m = elim (Bool-cases (nat_beq env.current_epoch e)) [
      | inl y ↦
          let same = eq_of_beq env.current_epoch e y in
          elim (In-append_cases k (export_ids s env.current_epoch) (id ∷ [])
            (rw y at (rw (export_ids-t e) at m))) [
              | inl old ↦ inl (subst (λ x. In k (export_ids s x)) same old)
              | inr (inl new) ↦ inr (new, same)
              | inr (inr none_left) ↦ absurd none_left
            ]
      | inr n ↦ inl (rw n at (rw (export_ids-t e) at m))
    ]

    t-listed :
        (k : ExportId) (r : ExportRecord)
        → get t.exports_by_id k ≡ some r
        → In k (export_ids t r.leaf.source_epoch_id)
    unfolding store_export
    t-listed k r p = elim (get-insert_cases s.exports_by_id id k (new_record leaf) r p) [
      | inl (e, q) ↦
          subst (λ x. In x (export_ids t r.leaf.source_epoch_id)) e
            (subst (λ x. In id (export_ids t x)) (ap (λ x. x.leaf.source_epoch_id) q)
              In-export_ids_new)
      | inr (n, old) ↦ In-export_ids_old r.leaf.source_epoch_id k (sound.listed k r old)
    ]

    t-indexed :
        (e : EpochId) (k : ExportId)
        → In k (export_ids t e)
        → (r : ExportRecord) × (get t.exports_by_id k ≡ some r) × (r.leaf.source_epoch_id ≡ e)
    unfolding store_export
    t-indexed e k m = elim (In-export_ids_cases e k m) [
      | inl old ↦
          let (r, p, q) = sound.indexed e k old in
          (r, get-insert_fresh s.exports_by_id id k (new_record leaf) r next_id-fresh p, q)
      | inr (new, same) ↦
          (new_record leaf, rw new (get-insert_self s.exports_by_id id (new_record leaf)), same)
    ]

    t-backed :
        (a : AccountId) → currency.on_hold t.balances a ≡ weight (owed accounts a) t.exports_by_id
    unfolding store_export
    t-backed a = ground (
      arith,
      sound.backed a,
      laws.hold-on_hold s.balances balances who a amount,
      weight-insert (owed accounts a) s.exports_by_id id (new_record leaf),
      next_id-fresh,
      codec.from_to who,
    )

    -- The export of a transfer is recorded, listed with its epoch and backed by the new hold.
    pub store_export-IsSound :
        IsSound currency accounts env.domain_id env.current_epoch
          (store_export accounts env who target_domain recipient amount balances s)
    unfolding store_export
    store_export-IsSound = record {
      bounded = omega arith;
      recorded = λ k r p.
          IsRecorded-mono accounts env.domain_id (s.next_export_sequence + 1)
            (min (s.next_export_sequence + 1) u64_max) env.current_epoch k r (omega arith)
            (t-IsRecorded k r p);
      listed = t-listed;
      indexed = t-indexed;
      backed = t-backed;
    }
