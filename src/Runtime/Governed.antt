-- ===== src/Runtime/Governed.antt =====
-- The blocks of the runtime keep the governance pallet's invariant.
use interplanetary_asynchron.Epochs.State as Epochs
use interplanetary_asynchron.Governance.State as Governance
use interplanetary_asynchron.Epochs.Blocks.{State}
