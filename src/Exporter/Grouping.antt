-- ===== src/Exporter/Grouping.antt =====
-- What the groups hold: no group is empty, and each leaf goes to the group of its own domain.
use interplanetary_asynchron.Prelude.{
  ℕ, ◌+◌, ◌<◌, ◌≡◌, refl, Option, none, some, List, [], ◌∷◌, ◌++◌, arith, length, In, All,
  length-append, All-append, All-tabulate, nat_eq, pair_eq,
}
use interplanetary_asynchron.Exporter.{
  group_by, group_exports_by_target, group_finalized_imports_by_source, group_governance_by_target,
  TargetPackageInputs, no_inputs, combine_with, combine_target_inputs,
}
use interplanetary_asynchron.Prelude.Map.{
  Map, or_default, get, Entries, Entries-insert, Entries-get,
}
use interplanetary_asynchron.Types.Export.{ExportLeaf}
use interplanetary_asynchron.Types.Governance.{GovernanceLeaf, target_domain}
use interplanetary_asynchron.Types.Import.{FinalizedImportLeaf}
use interplanetary_asynchron.Types.Scale.{DomainId, domain_eq}

module _ {A : Type 0} (key : A → DomainId) (leaves : List A) where
  abbrev pub Group : DomainId → List A → Type 0
  Group d ls = (0 < length ls) × All (λ l. (key l ≡ d) × In l leaves) ls

  pushed-Group :
      (o : Option (List A)) (l : A)
      → In l leaves
      → ((ls : List A) → o ≡ some ls → Group (key l) ls)
      → Group (key l) (or_default [] o ++ l ∷ [])
  pushed-Group none l m old = (omega arith, ((refl, m), tt))
  pushed-Group (some ls) l m old =
      let (some_leaf, all) = old ls refl in
      (
        omega (arith, length-append ls (l ∷ [])),
        All-append (λ x. (key x ≡ key l) × In x leaves) ls (l ∷ []) all ((refl, m), tt),
      )

  pub group_by-Group :
      (xs : List A) (m : Map DomainId (List A))
      → All (λ x. In x leaves) xs
      → Entries Group m
      → Entries Group (group_by key xs m)
  unfolding group_by
  group_by-Group [] m all groups = groups
  group_by-Group (x ∷ xs) m all groups = group_by-Group xs _ all.1 (
      Entries-insert Group m (key x) _ groups
        (pushed-Group (get m (key x)) x all.0 (λ ls at. Entries-get Group m (key x) ls groups at)))

module _ {A : Type 0} (set : List A → TargetPackageInputs → TargetPackageInputs)
    (Q : DomainId → List A → Type 0) (W S : DomainId → TargetPackageInputs → Type 0)
    (start : (d : DomainId) → W d no_inputs)
    (weaken : (d : DomainId) (i : TargetPackageInputs) → S d i → W d i)
    (step : (d : DomainId) (ls : List A) (i : TargetPackageInputs)
      → Q d ls
      → W d i
      → S d (set ls i)) where
  found-W :
      (d : DomainId) (o : Option TargetPackageInputs)
      → ((i : TargetPackageInputs) → o ≡ some i → S d i)
      → W d (or_default no_inputs o)
  found-W d none old = start d
  found-W d (some i) old = weaken d i (old i refl)

  pub combine_with-Entries :
      (m : Map DomainId (List A)) (g : Map DomainId TargetPackageInputs)
      → Entries Q m
      → Entries S g
      → Entries S (combine_with set m g)
  unfolding combine_with
  combine_with-Entries [] g groups inputs = inputs
  combine_with-Entries ((d, ls) ∷ rest) g groups inputs = combine_with-Entries rest _ groups.1 (
      Entries-insert S g d _ inputs
        (step d ls _ groups.0 (found-W d (get g d) (λ i at. Entries-get S g d i inputs at))))

module _ (exports : List ExportLeaf) (imports : List FinalizedImportLeaf)
    (governance : List GovernanceLeaf) where
  -- The inputs of a domain are leaves of the epoch that go to it.
  pub record IsFor (d : DomainId) (i : TargetPackageInputs) : Type 0 where
    pub export_leaves : All (λ l. (l.target_domain ≡ d) × In l exports) i.export_leaves
    pub import_leaves : All (λ l. (l.source_domain ≡ d) × In l imports) i.finalized_import_leaves
    pub governance_leaves : All (λ l. (target_domain l ≡ d) × In l governance) i.governance_leaves

  abbrev pub input_count : TargetPackageInputs → ℕ
  input_count i =
      length i.export_leaves + (length i.finalized_import_leaves + length i.governance_leaves)

  -- And there is one of them.
  abbrev pub IsFilledFor : DomainId → TargetPackageInputs → Type 0
  IsFilledFor d i = IsFor d i × (0 < input_count i)

  none-IsFor : (d : DomainId) → IsFor d no_inputs
  none-IsFor d = record { export_leaves = tt; import_leaves = tt; governance_leaves = tt }

  -- Every domain that the exporter makes a package for has at least one leaf, and all leaves of its
  -- inputs are leaves of the epoch that go to that domain.
  pub combine_target_inputs-IsFilledFor : Entries IsFilledFor (
      combine_target_inputs
        (group_exports_by_target exports)
        (group_finalized_imports_by_source imports)
        (group_governance_by_target governance))
  unfolding combine_target_inputs
  combine_target_inputs-IsFilledFor =
      combine_with-Entries _ (Group target_domain governance) IsFor IsFilledFor none-IsFor
        (λ d i filled. filled.0)
        (λ d ls i group old. (
          record {
            export_leaves = old.export_leaves;
            import_leaves = old.import_leaves;
            governance_leaves = group.1;
          },
          omega (arith, group.0),
        ))
        _ _
        (group_by-Group target_domain governance governance []
          (All-tabulate (λ x. In x governance) governance (λ x m. m)) tt)
        (combine_with-Entries _ (Group (λ l. l.source_domain) imports) IsFor IsFilledFor none-IsFor
          (λ d i filled. filled.0)
          (λ d ls i group old. (
            record {
              export_leaves = old.export_leaves;
              import_leaves = group.1;
              governance_leaves = old.governance_leaves;
            },
            omega (arith, group.0),
          ))
          _ _
          (group_by-Group (λ l. l.source_domain) imports imports []
            (All-tabulate (λ x. In x imports) imports (λ x m. m)) tt)
          (combine_with-Entries _ (Group (λ l. l.target_domain) exports) IsFor IsFilledFor
            none-IsFor (λ d i filled. filled.0)
            (λ d ls i group old. (
              record {
                export_leaves = group.1;
                import_leaves = old.import_leaves;
                governance_leaves = old.governance_leaves;
              },
              omega (arith, group.0),
            ))
            _ _
            (group_by-Group (λ l. l.target_domain) exports exports []
              (All-tabulate (λ x. In x exports) exports (λ x m. m)) tt)
            tt))
