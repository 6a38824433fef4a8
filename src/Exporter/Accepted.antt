-- ===== src/Exporter/Accepted.antt =====
-- The relay takes every envelope that the exporter makes for an epoch.
use interplanetary_asynchron.Prelude.{nat_eq, pair_eq}
use interplanetary_asynchron.Types.Scale.{domain_eq}
