-- ===== src/Comms.antt =====
-- Outbound communications: models/message_templates.py, services/drafting.py and
-- services/message_send.py.
pub mod Templates
pub mod Drafting
pub mod Callbacks
pub mod Sending
