-- ===== src/Registry.antt =====
-- packages/registry-lifecycle: Cards, their versions, and the consumption of Publications.
pub mod Model
pub mod Publications
pub mod Scopes
pub mod Impact
pub mod Versions
pub mod Grounding
pub mod Chain
pub mod Review
pub mod Store
pub mod Effects
pub mod Assessment
pub mod Decisions
pub mod Claim
pub mod Intake
