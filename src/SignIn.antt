-- ===== src/SignIn.antt =====
-- Sign-in: services/identity.py, services/magic_link.py and the in-memory token store of
-- api/src/brokerops_api/db.py.
pub mod Access
pub mod MagicLink
pub mod Once
