-- ===== src/Transfers/Invariant/Marking.antt =====
-- The loop that marks the exports of an epoch, record by record.
use interplanetary_asynchron.Types.Export
use mathlib.Core.Option
use interplanetary_asynchron.Prelude.{
  ℕ, ◌≡◌, refl, sym, subst, ◌∙◌, ◌⊎◌, inl, inr, Bool, true, Option, none, some, List, [], ◌∷◌, map,
  arith, contains, nat_beq, if◌then◌else◌, nat_beq_iff, Bool-cases, Option-cases, nat_eq, pair_eq,
}
use interplanetary_asynchron.Prelude.Map.{weight, get, get-insert, weight-insert}
use interplanetary_asynchron.Transfers.Commit.{mark_record, mark_exported}
use interplanetary_asynchron.Transfers.State.{Storage}
use interplanetary_asynchron.Types.Export.{
  ExportStatus, local_final, exported, export_status_beq, ExportLeaf, ExportRecord,
}
use interplanetary_asynchron.Types.Scale.{domain_eq, ExportId, EpochId}

abbrev pub exported_record : ExportRecord → ExportRecord
exported_record r = record r { status = exported }

-- Some leaf has the identifier.
abbrev pub names : List ExportLeaf → ExportId → Bool
names leaves k = contains (map (λ l. l.export_id) leaves) k

status_exported : (x : ExportStatus) → export_status_beq x exported ≡ true → x ≡ exported
status_exported local_final p = ground arith
status_exported exported p = refl
status_exported Export.remote_finalized p = ground arith

exported_record_self :
    (r : ExportRecord) → export_status_beq r.status exported ≡ true → exported_record r ≡ r
exported_record_self r p =
    let e = sym (status_exported r.status p) in λ i. record r { status = e i }

module _ {B : Type 0} where
  get-mark_record :
      (e : EpochId) (leaf : ExportLeaf) (s : Storage B) (k : ExportId) (o : Option ExportRecord)
      → get s.exports_by_id leaf.export_id ≡ o
      → get (mark_record e leaf o s).exports_by_id k ≡ (
          if nat_beq leaf.export_id k
          then Option.map exported_record (get s.exports_by_id k)
          else get s.exports_by_id k)
  unfolding mark_record
  get-mark_record e leaf s k none p = ground (arith, nat_beq_iff leaf.export_id k)
  get-mark_record e leaf s k (some r) p = elim (Bool-cases (export_status_beq r.status exported)) [
    | inl done ↦ rw done (ground (arith, nat_beq_iff leaf.export_id k, exported_record_self r done))
    | inr new ↦ rw new (
        ground (
          arith,
          nat_beq_iff leaf.export_id k,
          get-insert s.exports_by_id leaf.export_id k (exported_record r),
        ))
  ]

  -- After the loop exactly the records that its leaves name are marked.
  pub get-mark_exported :
      (e : EpochId) (leaves : List ExportLeaf) (s : Storage B) (k : ExportId)
      → get (mark_exported e leaves s).exports_by_id k ≡ (
          if names leaves k
          then Option.map exported_record (get s.exports_by_id k)
          else get s.exports_by_id k)
  unfolding mark_exported contains
  get-mark_exported e [] s k = refl
  get-mark_exported e (leaf ∷ leaves) s k = ground (
    arith,
    get-mark_exported e leaves (mark_record e leaf (get s.exports_by_id leaf.export_id) s) k,
    get-mark_record e leaf s k (get s.exports_by_id leaf.export_id) refl,
  )

  -- The loop leaves the indices, the sequence and the balances alone.
  pub record IsMarking (s t : Storage B) : Type 0 where
    pub sequence : t.next_export_sequence ≡ s.next_export_sequence
    pub ids : t.epoch_export_ids ≡ s.epoch_export_ids
    pub balances : t.balances ≡ s.balances
    pub imports : t.observed_imports_by_id ≡ s.observed_imports_by_id

  mark_record-IsMarking :
      (e : EpochId) (leaf : ExportLeaf) (s : Storage B) (o : Option ExportRecord)
      → IsMarking s (mark_record e leaf o s)
  unfolding mark_record
  mark_record-IsMarking e leaf s o = ground arith

  pub mark_exported-IsMarking :
      (e : EpochId) (leaves : List ExportLeaf) (s : Storage B)
      → IsMarking s (mark_exported e leaves s)
  unfolding mark_exported
  mark_exported-IsMarking e [] s = record {
    sequence = refl;
    ids = refl;
    balances = refl;
    imports = refl;
  }
  mark_exported-IsMarking e (leaf ∷ leaves) s =
      let o = get s.exports_by_id leaf.export_id in
      let one = mark_record-IsMarking e leaf s o in
      let more = mark_exported-IsMarking e leaves (mark_record e leaf o s) in
      record {
        sequence = more.sequence ∙ one.sequence;
        ids = more.ids ∙ one.ids;
        balances = more.balances ∙ one.balances;
        imports = more.imports ∙ one.imports;
      }

  -- Marking a record that is not resolved keeps what is owed to it.
  weight-mark_record :
      (f : ExportRecord → ℕ) (e : EpochId) (leaf : ExportLeaf) (s : Storage B)
      → (o : Option ExportRecord) → get s.exports_by_id leaf.export_id ≡ o
      → ((r : ExportRecord) → o ≡ some r → f (exported_record r) ≡ f r)
      → weight f (mark_record e leaf o s).exports_by_id ≡ weight f s.exports_by_id
  unfolding mark_record
  weight-mark_record f e leaf s none p g = refl
  weight-mark_record f e leaf s (some r) p g =
      ground (arith, g r refl, weight-insert f s.exports_by_id leaf.export_id (exported_record r))

  pub weight-mark_exported :
      (f : ExportRecord → ℕ) (e : EpochId) (leaves : List ExportLeaf) (s : Storage B)
      → ((k : ExportId) (r : ExportRecord)
          → names leaves k ≡ true
          → get s.exports_by_id k ≡ some r
          → f (exported_record r) ≡ f r)
      → weight f (mark_exported e leaves s).exports_by_id ≡ weight f s.exports_by_id
  unfolding mark_exported
  weight-mark_exported f e [] s g = refl
  weight-mark_exported f e (leaf ∷ leaves) s g =
      weight-mark_exported f e leaves (mark_record e leaf o s)
        (λ k r n p. keep k r (Option-cases (get s.exports_by_id k)) n p)
      ∙ weight-mark_record f e leaf s o refl (λ r p.
        g leaf.export_id r
          (unfold contains in ground (arith, nat_beq_iff leaf.export_id leaf.export_id)) p)
    where
      o : Option ExportRecord
      o = get s.exports_by_id leaf.export_id

      keep :
          (k : ExportId) (r : ExportRecord)
          → (get s.exports_by_id k ≡ none)
            ⊎ ((r' : ExportRecord) × (get s.exports_by_id k ≡ some r'))
          → names leaves k ≡ true
          → get (mark_record e leaf o s).exports_by_id k ≡ some r
          → f (exported_record r) ≡ f r
      keep k r (inl q) n p = absurd (ground (arith, get-mark_record e leaf s k o refl))
      keep k r (inr (r', q)) n p = elim (Bool-cases (nat_beq leaf.export_id k)) [
        | inl y ↦
            let same : exported_record r' ≡ r = ground (arith, get-mark_record e leaf s k o refl) in
            subst (λ x. f (exported_record x) ≡ f x) same refl
        | inr m ↦
            g k r (unfold contains in ground arith)
              (ground (arith, get-mark_record e leaf s k o refl))
      ]
