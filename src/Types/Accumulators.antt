-- ===== src/Types/Accumulators.antt =====
-- The running hashes of an epoch's blocks.
use interplanetary_asynchron.Prelude.{ℕ, String, [], ◌∷◌, nat_eq, pair_eq}
use interplanetary_asynchron.Types.Scale.{
  DomainId, domain_eq, Hash, EpochId, u16, u32, u64, bytes, str, domain, Hasher, blake2_256,
}
use interplanetary_asynchron.Types.Summary.{epoch_summary_version}

module _ ⦃h : Hasher⦄ where
  unfoldable pub seed_epoch_accumulator : String → DomainId → EpochId → Hash
  seed_epoch_accumulator label domain_id epoch_id =
      blake2_256 (str label ∷ u16 epoch_summary_version ∷ domain domain_id ∷ u64 epoch_id ∷ [])

  unfoldable pub fold_epoch_accumulator : Hash → ℕ → Hash → Hash
  fold_epoch_accumulator accumulator block_number payload_hash =
      blake2_256 (bytes accumulator ∷ u32 block_number ∷ bytes payload_hash ∷ [])

  unfoldable pub tx_envelope_hash : ℕ → ℕ → ℕ → Hash
  tx_envelope_hash block_number extrinsic_count all_extrinsics_len =
      blake2_256 (u32 block_number ∷ u32 extrinsic_count ∷ u32 all_extrinsics_len ∷ [])

  unfoldable pub event_envelope_hash : ℕ → ℕ → Hash
  event_envelope_hash block_number event_count =
      blake2_256 (u32 block_number ∷ u32 event_count ∷ [])
