-- ===== src/Relay/Histories/Delivered.antt =====
-- A package that waits gets through.
use interplanetary_asynchron.Config.Transport
use interplanetary_asynchron.Prelude.{nat_eq, pair_eq}
use interplanetary_asynchron.Types.Scale.{domain_eq}
