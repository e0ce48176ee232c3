-- ===== src/Nlusctl.antt =====
-- lib/nlusctl: the messages of the control sockets.
pub mod Field
pub mod Layout
pub mod Pack
pub mod Attr
