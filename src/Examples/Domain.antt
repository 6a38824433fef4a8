-- ===== src/Examples/Domain.antt =====
-- Mars announces itself in its first block.
use interplanetary_asynchron.Domain.{ChainIdentity, genesis, announced, open_all, open_all-once}
use interplanetary_asynchron.Prelude.{◌≡◌, [], ◌∷◌}
use interplanetary_asynchron.Types.Scale.{mars}

abbrev mars_identity : ChainIdentity
mars_identity = record {
  domain_id = mars;
  chain_id = 1 ∷ 2 ∷ [];
  chain_name = 3 ∷ [];
  token_symbol = 4 ∷ [];
  token_decimals = 12;
}

open_all-once_example : open_all (0 ∷ 1 ∷ 2 ∷ []) (genesis mars_identity) ≡ announced mars_identity
open_all-once_example = open_all-once mars_identity (0 ∷ 1 ∷ 2 ∷ [])
