-- ===== src/Examples/LeafFormats.antt =====
-- The formats of a summary header and of the leaves of the three Merkle families.
use interplanetary_asynchron.Prelude.{ℕ, ◌≡◌, refl, ◌⊎◌, inl, inr, List, nat_eq, pair_eq}
use interplanetary_asynchron.Examples.Formats.{
  Format, number_format, via, pair_format, list_format, either_format, domain_format,
}
use interplanetary_asynchron.Types.AckLeaf.{GovernanceAckLeaf}
use interplanetary_asynchron.Types.Export.{ExportLeaf}
use interplanetary_asynchron.Types.Governance.{GovernanceLeaf, proposal_v1, ack_v1}
use interplanetary_asynchron.Types.Import.{FinalizedImportLeaf}
use interplanetary_asynchron.Types.ProposalLeaf.{GovernanceProposalLeaf}
use interplanetary_asynchron.Types.Scale.{
  DomainId, domain_eq, Hash, ExportId, AccountIdBytes, EpochId,
}
use interplanetary_asynchron.Types.Summary.{EpochSummaryHeader}

instance abbrev pub header_format : Format EpochSummaryHeader
header_format =
    via
      {A = ℕ
        × (DomainId
            × (EpochId
                × (Hash
                    × (ℕ
                        × (ℕ
                            × (Hash
                                × (Hash
                                    × (Hash
                                        × (Hash
                                            × (Hash × (Hash × (Hash × (Hash × (Hash))))))))))))))}
      (λ v. (
        v.version,
        (
          v.domain_id,
          (
            v.epoch_id,
            (
              v.prev_summary_hash,
              (
                v.start_block_height,
                (
                  v.end_block_height,
                  (
                    v.state_root,
                    (
                      v.block_root,
                      (
                        v.tx_root,
                        (
                          v.event_root,
                          (
                            v.export_root,
                            (
                              v.import_root,
                              (v.governance_root, (v.validator_set_hash, v.summary_hash)),
                            ),
                          ),
                        ),
                      ),
                    ),
                  ),
                ),
              ),
            ),
          ),
        ),
      ))
      (λ t. record {
        version = t.0;
        domain_id = t.1.0;
        epoch_id = t.1.1.0;
        prev_summary_hash = t.1.1.1.0;
        start_block_height = t.1.1.1.1.0;
        end_block_height = t.1.1.1.1.1.0;
        state_root = t.1.1.1.1.1.1.0;
        block_root = t.1.1.1.1.1.1.1.0;
        tx_root = t.1.1.1.1.1.1.1.1.0;
        event_root = t.1.1.1.1.1.1.1.1.1.0;
        export_root = t.1.1.1.1.1.1.1.1.1.1.0;
        import_root = t.1.1.1.1.1.1.1.1.1.1.1.0;
        governance_root = t.1.1.1.1.1.1.1.1.1.1.1.1.0;
        validator_set_hash = t.1.1.1.1.1.1.1.1.1.1.1.1.1.0;
        summary_hash = t.1.1.1.1.1.1.1.1.1.1.1.1.1.1;
      })
      (λ v. refl)

instance abbrev pub export_leaf_format : Format ExportLeaf
export_leaf_format =
    via
      {A = ℕ
        × (ExportId
            × (DomainId
                × (DomainId
                    × (AccountIdBytes × (AccountIdBytes × (ℕ × (EpochId × (ℕ × (ℕ × (Hash))))))))))}
      (λ v. (
        v.version,
        (
          v.export_id,
          (
            v.source_domain,
            (
              v.target_domain,
              (
                v.sender,
                (
                  v.recipient,
                  (
                    v.amount,
                    (
                      v.source_epoch_id,
                      (v.source_block_height, (v.extrinsic_index, v.export_hash)),
                    ),
                  ),
                ),
              ),
            ),
          ),
        ),
      ))
      (λ t. record {
        version = t.0;
        export_id = t.1.0;
        source_domain = t.1.1.0;
        target_domain = t.1.1.1.0;
        sender = t.1.1.1.1.0;
        recipient = t.1.1.1.1.1.0;
        amount = t.1.1.1.1.1.1.0;
        source_epoch_id = t.1.1.1.1.1.1.1.0;
        source_block_height = t.1.1.1.1.1.1.1.1.0;
        extrinsic_index = t.1.1.1.1.1.1.1.1.1.0;
        export_hash = t.1.1.1.1.1.1.1.1.1.1;
      })
      (λ v. refl)

instance abbrev pub import_leaf_format : Format FinalizedImportLeaf
import_leaf_format =
    via
      {A = ℕ
        × (ExportId
            × (DomainId
                × (DomainId × (AccountIdBytes × (ℕ × (EpochId × (Hash × (Hash × (Hash)))))))))}
      (λ v. (
        v.version,
        (
          v.export_id,
          (
            v.source_domain,
            (
              v.target_domain,
              (
                v.recipient,
                (v.amount, (v.source_epoch_id, (v.summary_hash, (v.package_hash, v.import_hash)))),
              ),
            ),
          ),
        ),
      ))
      (λ t. record {
        version = t.0;
        export_id = t.1.0;
        source_domain = t.1.1.0;
        target_domain = t.1.1.1.0;
        recipient = t.1.1.1.1.0;
        amount = t.1.1.1.1.1.0;
        source_epoch_id = t.1.1.1.1.1.1.0;
        summary_hash = t.1.1.1.1.1.1.1.0;
        package_hash = t.1.1.1.1.1.1.1.1.0;
        import_hash = t.1.1.1.1.1.1.1.1.1;
      })
      (λ v. refl)

instance abbrev pub proposal_leaf_format : Format GovernanceProposalLeaf
proposal_leaf_format =
    via
      {A = ℕ
        × (Hash
            × (DomainId
                × (DomainId
                    × (List DomainId
                        × (AccountIdBytes
                            × (Hash
                                × (ℕ
                                    × (EpochId
                                        × (EpochId
                                            × (EpochId × (EpochId × (EpochId × (Hash)))))))))))))}
      (λ v. (
        v.version,
        (
          v.proposal_id,
          (
            v.source_domain,
            (
              v.target_domain,
              (
                v.target_domains,
                (
                  v.proposer,
                  (
                    v.payload_hash,
                    (
                      v.new_protocol_version,
                      (
                        v.created_epoch,
                        (
                          v.voting_start_epoch,
                          (
                            v.voting_end_epoch,
                            (v.approval_epoch, (v.activation_epoch, v.leaf_hash)),
                          ),
                        ),
                      ),
                    ),
                  ),
                ),
              ),
            ),
          ),
        ),
      ))
      (λ t. record {
        version = t.0;
        proposal_id = t.1.0;
        source_domain = t.1.1.0;
        target_domain = t.1.1.1.0;
        target_domains = t.1.1.1.1.0;
        proposer = t.1.1.1.1.1.0;
        payload_hash = t.1.1.1.1.1.1.0;
        new_protocol_version = t.1.1.1.1.1.1.1.0;
        created_epoch = t.1.1.1.1.1.1.1.1.0;
        voting_start_epoch = t.1.1.1.1.1.1.1.1.1.0;
        voting_end_epoch = t.1.1.1.1.1.1.1.1.1.1.0;
        approval_epoch = t.1.1.1.1.1.1.1.1.1.1.1.0;
        activation_epoch = t.1.1.1.1.1.1.1.1.1.1.1.1.0;
        leaf_hash = t.1.1.1.1.1.1.1.1.1.1.1.1.1;
      })
      (λ v. refl)

instance abbrev pub ack_leaf_format : Format GovernanceAckLeaf
ack_leaf_format =
    via
      {A = ℕ
        × (Hash
            × (DomainId
                × (DomainId
                    × (DomainId
                        × (List DomainId × (Hash × (ℕ × (EpochId × (EpochId × (Hash))))))))))}
      (λ v. (
        v.version,
        (
          v.proposal_id,
          (
            v.source_domain,
            (
              v.target_domain,
              (
                v.acknowledging_domain,
                (
                  v.target_domains,
                  (
                    v.payload_hash,
                    (
                      v.new_protocol_version,
                      (v.activation_epoch, (v.acknowledged_epoch, v.leaf_hash)),
                    ),
                  ),
                ),
              ),
            ),
          ),
        ),
      ))
      (λ t. record {
        version = t.0;
        proposal_id = t.1.0;
        source_domain = t.1.1.0;
        target_domain = t.1.1.1.0;
        acknowledging_domain = t.1.1.1.1.0;
        target_domains = t.1.1.1.1.1.0;
        payload_hash = t.1.1.1.1.1.1.0;
        new_protocol_version = t.1.1.1.1.1.1.1.0;
        activation_epoch = t.1.1.1.1.1.1.1.1.0;
        acknowledged_epoch = t.1.1.1.1.1.1.1.1.1.0;
        leaf_hash = t.1.1.1.1.1.1.1.1.1.1;
      })
      (λ v. refl)

abbrev split_leaf : GovernanceLeaf → GovernanceProposalLeaf ⊎ GovernanceAckLeaf
split_leaf (proposal_v1 leaf) = inl leaf
split_leaf (ack_v1 leaf) = inr leaf

abbrev join_leaf : GovernanceProposalLeaf ⊎ GovernanceAckLeaf → GovernanceLeaf
join_leaf (inl leaf) = proposal_v1 leaf
join_leaf (inr leaf) = ack_v1 leaf

pub join_leaf-split_leaf : (leaf : GovernanceLeaf) → join_leaf (split_leaf leaf) ≡ leaf
join_leaf-split_leaf (proposal_v1 leaf) = refl
join_leaf-split_leaf (ack_v1 leaf) = refl

instance abbrev pub governance_leaf_format : Format GovernanceLeaf
governance_leaf_format = via split_leaf join_leaf join_leaf-split_leaf
