-- ===== src/Gateway.antt =====
-- The integration gateway (apps/services/integration-gateway/src): the facts that it derives from a
-- commerce order.
pub mod Types
pub mod Context
pub mod Covered
