-- ===== src/Advanced/Security.antt =====
-- S2-advanced/examples/security: security hooks.
pub mod LsmFileOpen
