-- ===== src/Kb.antt =====
-- domain_nlp/knowledge_bases: the caches of what knowledge bases answer, and their registry.
pub mod Lru
pub mod Tiers
pub mod Registry
mod Examples
