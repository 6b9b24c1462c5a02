-- ===== src/Edge.antt =====
-- Parts of apps/services/edge-api/src.
pub mod OrderReference
