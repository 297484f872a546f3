-- ===== src/Edge.antt =====
-- The tunnel to connected edges: src/edge.
pub mod Registry
