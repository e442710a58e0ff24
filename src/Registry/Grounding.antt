-- ===== src/Registry/Grounding.antt =====
-- packages/registry-lifecycle/src/domain/fact-grounding.ts: whether a Card Version may be trusted, by
-- comparison with the observed source.
pub mod Texts
pub mod Scopes
pub mod Fragments
pub mod Report
pub mod Passing
pub mod Ranges
pub mod Judgement
