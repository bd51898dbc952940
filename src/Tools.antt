-- ===== src/Tools.antt =====
-- The tool seam: services/tool_authz.py on the way in, services/egress.py on the way out.
pub mod Value
pub mod Tenants
pub mod Egress
