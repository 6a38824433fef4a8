-- ===== src/Transfers/Invariant/Close.antt =====
-- Committing the open epoch keeps the invariant, with the next epoch open.
use mathlib.Core.Option
use interplanetary_asynchron.Prelude.{
  ℕ, ◌+◌, ◌≡◌, sym, ap, subst, ◌∙◌, ◌≢◌, ◌⊎◌, inl, inr, true, some, List, [], map, arith, In, All,
  In-map, In-map_of_In, In-filter_map, All-filter_map, All-at, contains-In, In-contains, Bool-cases,
  Option-cases, nat_eq, pair_eq,
}
use interplanetary_asynchron.Merkle.Exports.{export_leaf_ordering}
use interplanetary_asynchron.Prelude.Map.{or_default, weight, get}
use interplanetary_asynchron.Prelude.Sorting.{In-sort_by, All-sort_by}
use interplanetary_asynchron.Transfers.Commit.{
  canonical_epoch_exports, mark_exported, commit_epoch_exports,
}
use interplanetary_asynchron.Transfers.Config.{Accounts, Currency}
use interplanetary_asynchron.Transfers.Invariant.{owed, IsRecorded, IsSound}
use interplanetary_asynchron.Transfers.Invariant.Marking.{
  exported_record, names, get-mark_exported, mark_exported-IsMarking, weight-mark_exported,
}
use interplanetary_asynchron.Transfers.State.{Storage, export_ids}
use interplanetary_asynchron.Types.Export.{local_final, export_status_beq, ExportLeaf, ExportRecord}
use interplanetary_asynchron.Types.Scale.{DomainId, domain_eq, ExportId, AccountId, EpochId, Hasher}

module _ {B : Type 0} (currency : Currency B) (accounts : Accounts) ⦃h : Hasher⦄
    (domain_id : DomainId) (current : EpochId) (s : Storage B)
    (sound : IsSound currency accounts domain_id current s) where
  pub In-canonical :
      (k : ExportId) (r : ExportRecord)
      → get s.exports_by_id k ≡ some r
      → In k (export_ids s current)
      → In r.leaf (canonical_epoch_exports s current)
  unfolding canonical_epoch_exports
  In-canonical k r p m = In-sort_by export_leaf_ordering r.leaf _ (
      In-filter_map (λ k'. Option.map (λ q. q.leaf) (get s.exports_by_id k')) k r.leaf
        (export_ids s current) m (rw p))

  -- The canonical leaves of the epoch name exactly the exports of its index.
  pub names-canonical :
      (k : ExportId)
      → In k (export_ids s current)
      → names (canonical_epoch_exports s current) k ≡ true
  names-canonical k m =
      let (r, p, _) = sound.indexed current k m in
      In-contains _ k (
        subst (λ x. In x (map (λ l. l.export_id) (canonical_epoch_exports s current)))
          (sound.recorded k r p).id
          (In-map_of_In (λ l. l.export_id) r.leaf _ (In-canonical k r p m)))

  pub canonical-In :
      (k : ExportId)
      → names (canonical_epoch_exports s current) k ≡ true
      → In k (export_ids s current)
  unfolding canonical_epoch_exports
  canonical-In k n =
      let (leaf, m, e) =
        In-map (λ l. l.export_id) k (canonical_epoch_exports s current) (contains-In _ k n) in
      subst (λ x. In x (export_ids s current)) (sym e)
        (All-at (λ l. In l.export_id (export_ids s current)) leaf
          (canonical_epoch_exports s current) listed_leaves m)
    where
      listed_leaf :
          (k' : ExportId) (leaf : ExportLeaf)
          → In k' (export_ids s current)
          → Option.map (λ q. q.leaf) (get s.exports_by_id k') ≡ some leaf
          → In leaf.export_id (export_ids s current)
      listed_leaf k' leaf m p =
          let (r, q, _) = sound.indexed current k' m in
          let same : r.leaf ≡ leaf = ground arith in
          subst (λ x. In x (export_ids s current))
            (sym (sound.recorded k' r q).id ∙ ap (λ l. l.export_id) same) m

      listed_leaves :
          All (λ l. In l.export_id (export_ids s current)) (canonical_epoch_exports s current)
      listed_leaves =
          All-sort_by (λ l. In l.export_id (export_ids s current)) export_leaf_ordering _
            (All-filter_map (λ k'. Option.map (λ q. q.leaf) (get s.exports_by_id k')) _
              (export_ids s current) listed_leaf)

  abbrev leaves : List ExportLeaf
  leaves = canonical_epoch_exports s current

  abbrev t : Storage B
  t = mark_exported current leaves s

  same_ids : (e : EpochId) → export_ids t e ≡ export_ids s e
  same_ids e = ap (λ m. or_default [] (get m e)) (mark_exported-IsMarking current leaves s).ids

  -- A record of the marked storage is an old one, marked if its epoch is the committed one.
  t-cases :
      (k : ExportId) (q : ExportRecord)
      → get t.exports_by_id k ≡ some q
      → (r : ExportRecord) × (get s.exports_by_id k ≡ some r)
        × (((exported_record r ≡ q) × (r.leaf.source_epoch_id ≡ current))
            ⊎ ((r ≡ q) × (r.leaf.source_epoch_id ≢ current)))
  t-cases k q p = elim (Option-cases (get s.exports_by_id k)) [
    | inl missing ↦ absurd (ground (arith, get-mark_exported current leaves s k))
    | inr (r, found) ↦ (
      r,
      found,
      elim (Bool-cases (names leaves k)) [
        | inl y ↦
            let (r', found', e) = sound.indexed current k (canonical-In k y) in
            let same : r ≡ r' = ground arith in
            inl (
              ground (arith, get-mark_exported current leaves s k),
              ap (λ x. x.leaf.source_epoch_id) same ∙ e,
            )
        | inr n ↦ inr (
          ground (arith, get-mark_exported current leaves s k),
          λ e. ground (
            arith,
            names-canonical k (subst (λ x. In k (export_ids s x)) e (sound.listed k r found)),
          ),
        )
      ],
    )
  ]

  t-IsRecorded :
      (k : ExportId) (q : ExportRecord)
      → get t.exports_by_id k ≡ some q
      → IsRecorded accounts domain_id s.next_export_sequence (current + 1) k q
  t-IsRecorded k q p =
      let (r, found, cases) = t-cases k q p in advance k r q (sound.recorded k r found) cases
    where
      advance :
          (k : ExportId) (r q : ExportRecord)
          → IsRecorded accounts domain_id s.next_export_sequence current k r
          → ((exported_record r ≡ q) × (r.leaf.source_epoch_id ≡ current))
            ⊎ ((r ≡ q) × (r.leaf.source_epoch_id ≢ current))
          → IsRecorded accounts domain_id s.next_export_sequence (current + 1) k q
      advance k r q i (inl (e, at)) =
          subst (IsRecorded accounts domain_id s.next_export_sequence (current + 1) k) e (record {
            id = i.id;
            own_hash = i.own_hash;
            source = i.source;
            target = i.target;
            positive = i.positive;
            sequence = i.sequence;
            sender = i.sender;
            open_epoch = λ p. absurd (ground arith);
            closed_epoch = λ _. omega arith;
          })
      advance k r q i (inr (e, other)) =
          subst (IsRecorded accounts domain_id s.next_export_sequence (current + 1) k) e (record {
            id = i.id;
            own_hash = i.own_hash;
            source = i.source;
            target = i.target;
            positive = i.positive;
            sequence = i.sequence;
            sender = i.sender;
            open_epoch = λ p. absurd (other (i.open_epoch p));
            closed_epoch = λ p. omega (arith, i.closed_epoch p);
          })

  t-listed :
      (k : ExportId) (q : ExportRecord)
      → get t.exports_by_id k ≡ some q
      → In k (export_ids t q.leaf.source_epoch_id)
  t-listed k q p =
      let (r, found, cases) = t-cases k q p in
      let same : r.leaf.source_epoch_id ≡ q.leaf.source_epoch_id = elim cases [
        | inl (e, _) ↦ ap (λ x. x.leaf.source_epoch_id) e
        | inr (e, _) ↦ ap (λ x. x.leaf.source_epoch_id) e
      ] in
      rw (same_ids q.leaf.source_epoch_id)
        (subst (λ x. In k (export_ids s x)) same (sound.listed k r found))

  t-indexed :
      (e : EpochId) (k : ExportId)
      → In k (export_ids t e)
      → (q : ExportRecord) × (get t.exports_by_id k ≡ some q) × (q.leaf.source_epoch_id ≡ e)
  t-indexed e k m =
      let (r, found, at) = sound.indexed e k (rw (same_ids e) at m) in
      elim (Bool-cases (names leaves k)) [
        | inl y ↦ (exported_record r, ground (arith, get-mark_exported current leaves s k), at)
        | inr n ↦ (r, ground (arith, get-mark_exported current leaves s k), at)
      ]

  -- A named record is of the open epoch, so that it is neither committed nor resolved yet.
  pub named-local_final :
      (k : ExportId) (r : ExportRecord)
      → names leaves k ≡ true
      → get s.exports_by_id k ≡ some r
      → r.status ≡ local_final
  named-local_final k r y found =
      let (r', found', e) = sound.indexed current k (canonical-In k y) in
      let same : r ≡ r' = ground arith in
      let at : r.leaf.source_epoch_id ≡ current = ap (λ x. x.leaf.source_epoch_id) same ∙ e in
      elim (Bool-cases (export_status_beq r.status local_final)) [
        | inl still_open ↦ ground arith
        | inr closed ↦ absurd (omega (arith, (sound.recorded k r found).closed_epoch closed))
      ]

  t-owed :
      (a : AccountId) (k : ExportId) (r : ExportRecord)
      → names leaves k ≡ true
      → get s.exports_by_id k ≡ some r
      → owed accounts a (exported_record r) ≡ owed accounts a r
  t-owed a k r y found = ground (arith, named-local_final k r y found)

  t-backed :
      (a : AccountId) → currency.on_hold t.balances a ≡ weight (owed accounts a) t.exports_by_id
  t-backed a =
      ap (λ b. currency.on_hold b a) (mark_exported-IsMarking current leaves s).balances
      ∙ sound.backed a
      ∙ sym (weight-mark_exported (owed accounts a) current leaves s (t-owed a))

  -- The commitment of the open epoch marks all of its exports and no other, and keeps every hold.
  pub commit_epoch_exports-IsSound :
      (start_block_height end_block_height : ℕ)
      → IsSound currency accounts domain_id
          (current + 1)
          (commit_epoch_exports domain_id current start_block_height end_block_height s).1
  unfolding commit_epoch_exports
  commit_epoch_exports-IsSound start_block_height end_block_height =
      let same = (mark_exported-IsMarking current leaves s).sequence in
      record {
        bounded = rw same sound.bounded;
        recorded = λ k q p. rw same (t-IsRecorded k q p);
        listed = t-listed;
        indexed = t-indexed;
        backed = t-backed;
      }
