-- ===== src/Examples.antt =====
-- Concrete runs of the model and the theorems at work on them.
mod World
mod Domain
mod Transfers
mod Returns
mod Arrivals
mod Leaves
mod ImportLeaves
mod Epochs
mod Runtime
mod Governance
mod GovernanceLeaves
mod Ballot
mod Formats
mod LeafFormats
mod Codec
mod Settings
mod Packages
mod Relay
