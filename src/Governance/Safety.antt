-- ===== src/Governance/Safety.antt =====
-- A proposal is scheduled and activated only with the acknowledgement of every target.
pub mod Steps
pub mod Histories
use interplanetary_asynchron.Prelude.{
  dedup, ◌≤◌, ◌<◌, ◌≡◌, refl, ap, subst, ◌∙◌, inl, inr, true, some, List, [], ◌∷◌, ◌++◌, arith, In,
  In-append_left, contains, contains-In, In-contains, nat_beq, nat_beq_iff, Bool-cases, Eq, ◌==◌,
  nat_eq, pair_eq,
}
use interplanetary_asynchron.Governance.Activation.{has_full_ack_set, add_ack}
use interplanetary_asynchron.Governance.State.{Storage}
use interplanetary_asynchron.Prelude.Map.{Map, get, insert, get-insert, get-insert_cases}
use interplanetary_asynchron.Prelude.Sorting.{sort_by, In-sort_by}
use interplanetary_asynchron.Types.Governance.{
  GovernanceProposalId, activated, status_index, status_beq, GovernanceProposal,
  GovernanceActivationRecord,
}
use interplanetary_asynchron.Types.Scale.{DomainId, domain_eq, domain_compare, EpochId}

module _ (current : EpochId)
    (activations : Map GovernanceProposalId GovernanceActivationRecord) where
  -- The activation record that stands behind a scheduled or activated proposal.
  pub record IsAcked (k : GovernanceProposalId) (p : GovernanceProposal) : Type 0 where
    pub activation : GovernanceActivationRecord
    pub found : get activations k ≡ some activation
    pub full : has_full_ack_set activation.target_domains activation.known_ack_domains ≡ true
    pub due : status_beq p.status activated ≡ true → activation.activation_epoch ≤ current

module _ (current : EpochId) (proposals : Map GovernanceProposalId GovernanceProposal)
    (activations : Map GovernanceProposalId GovernanceActivationRecord) where
  pub record IsSafe : Type 0 where
    pub id :
        (k : GovernanceProposalId) (p : GovernanceProposal)
        → get proposals k ≡ some p
        → p.proposal_id ≡ k
    pub acked :
        (k : GovernanceProposalId) (p : GovernanceProposal)
        → get proposals k ≡ some p
        → 4 ≤ status_index p.status
        → IsAcked current activations k p

abbrev pub IsSound : EpochId → Storage → Type 0
IsSound current s = IsSafe current s.proposals_by_id s.activation_records_by_id

In-dedup : {A : Type 0} ⦃e : Eq A⦄ (a : A) (xs : List A) → In a xs → In a (dedup xs)
unfolding dedup
In-dedup a [] m = m
In-dedup a (x ∷ []) m = m
In-dedup ⦃e⦄ a (x ∷ y ∷ rest) m = elim (Bool-cases (x == y)) [
  | inl same ↦ rw same (In-dedup a (y ∷ rest) (moved same m))
  | inr other ↦ rw other (kept (In-dedup a (y ∷ rest)) m)
]
  where
    moved : (x == y) ≡ true → In a (x ∷ y ∷ rest) → In a (y ∷ rest)
    moved same (inl here) = inl (here ∙ (e.beq_iff x y).0 same)
    moved same (inr m) = m

    kept :
        (In a (y ∷ rest) → In a (dedup (y ∷ rest)))
        → In a (x ∷ y ∷ rest)
        → In a (x ∷ dedup (y ∷ rest))
    kept deeper (inl here) = inl here
    kept deeper (inr m) = inr (deeper m)

-- More acknowledgements keep a full set full.
pub has_full_ack_set-more :
    (targets known more : List DomainId)
    → ((d : DomainId) → contains known d ≡ true → contains more d ≡ true)
    → has_full_ack_set targets known ≡ true
    → has_full_ack_set targets more ≡ true
has_full_ack_set-more [] known more grows full = refl
has_full_ack_set-more (target ∷ rest) known more grows full =
    ground (arith, grows target, has_full_ack_set-more rest known more grows)

pub add_ack-full :
    (d : DomainId) (r : GovernanceActivationRecord)
    → has_full_ack_set r.target_domains r.known_ack_domains ≡ true
    → has_full_ack_set (add_ack d r).target_domains (add_ack d r).known_ack_domains ≡ true
unfolding add_ack
add_ack-full d r full = elim (Bool-cases (contains r.known_ack_domains d)) [
  | inl known ↦ rw known full
  | inr fresh ↦ rw fresh (
      has_full_ack_set-more r.target_domains r.known_ack_domains
        (dedup (sort_by domain_compare (r.known_ack_domains ++ d ∷ [])))
        (λ x m. In-contains _ x (
          In-dedup x _ (
            In-sort_by domain_compare x _
              (In-append_left x r.known_ack_domains (d ∷ []) (contains-In _ x m)))))
        full)
]

pub add_ack-activation_epoch :
    (d : DomainId) (r : GovernanceActivationRecord)
    → (add_ack d r).activation_epoch ≡ r.activation_epoch
unfolding add_ack
add_ack-activation_epoch d r = ground arith

module _ {current : EpochId} {proposals : Map GovernanceProposalId GovernanceProposal}
    {activations : Map GovernanceProposalId GovernanceActivationRecord}
    (safe : IsSafe current proposals activations) where
  -- Writing a proposal and its activation record together.
  pub IsSafe-put :
      (k : GovernanceProposalId) (p : GovernanceProposal) (a : GovernanceActivationRecord)
      → p.proposal_id ≡ k
      → (4 ≤ status_index p.status → has_full_ack_set a.target_domains a.known_ack_domains ≡ true)
      → (status_beq p.status activated ≡ true → a.activation_epoch ≤ current)
      → IsSafe current (insert proposals k p) (insert activations k a)
  IsSafe-put k p a same_id full due = record {
    id = λ j q at. elim (get-insert_cases proposals k j p q at) [
      | inl (same, here) ↦ subst (λ x. x.proposal_id ≡ j) here (same_id ∙ same)
      | inr (other, before) ↦ safe.id j q before
    ];
    acked = λ j q at late. elim (get-insert_cases proposals k j p q at) [
      | inl (same, here) ↦ record {
        activation = a;
        found = ground (arith, get-insert activations k j a, nat_beq_iff k j);
        full = full (ground arith);
        due = λ active. due (ground arith);
      }
      | inr (other, before) ↦
          let i = safe.acked j q before late in
          record {
            activation = i.activation;
            found = ground (arith, get-insert activations k j a, i.found);
            full = i.full;
            due = i.due;
          }
    ];
  }

  -- Writing a proposal that is not scheduled yet.
  pub IsSafe-put_proposal :
      (k : GovernanceProposalId) (p : GovernanceProposal)
      → p.proposal_id ≡ k
      → status_index p.status < 4
      → IsSafe current (insert proposals k p) activations
  IsSafe-put_proposal k p same_id early = record {
    id = λ j q at. elim (get-insert_cases proposals k j p q at) [
      | inl (same, here) ↦ subst (λ x. x.proposal_id ≡ j) here (same_id ∙ same)
      | inr (other, before) ↦ safe.id j q before
    ];
    acked = λ j q at late. elim (get-insert_cases proposals k j p q at) [
      | inl (same, here) ↦ absurd (ground arith)
      | inr (other, before) ↦ safe.acked j q before late
    ];
  }

  pub IsSafe-add_ack :
      (k : GovernanceProposalId) (d : DomainId) (a : GovernanceActivationRecord)
      → get activations k ≡ some a
      → IsSafe current proposals (insert activations k (add_ack d a))
  IsSafe-add_ack k d a stored = record {
    id = safe.id;
    acked = λ j q at late.
        let i = safe.acked j q at late in
        elim (Bool-cases (nat_beq k j)) [
          | inl same ↦
              let one : i.activation ≡ a = ground (arith, nat_beq_iff k j, i.found) in
              record {
                activation = add_ack d a;
                found = ground (arith, get-insert activations k j (add_ack d a));
                full = add_ack-full d a (
                    subst (λ x. has_full_ack_set x.target_domains x.known_ack_domains ≡ true) one
                      i.full);
                due = λ active. omega (
                  arith,
                  add_ack-activation_epoch d a,
                  i.due active,
                  ap (λ x. x.activation_epoch) one,
                );
              }
          | inr other ↦ record {
            activation = i.activation;
            found = ground (arith, get-insert activations k j (add_ack d a), i.found);
            full = i.full;
            due = i.due;
          }
        ];
  }

  pub IsSafe-later : (later : EpochId) → current ≤ later → IsSafe later proposals activations
  IsSafe-later later le = record {
    id = safe.id;
    acked = λ j q at late.
        let i = safe.acked j q at late in
        record {
          activation = i.activation;
          found = i.found;
          full = i.full;
          due = λ active. omega (arith, i.due active);
        };
  }
