-- ===== src/Svchub.antt =====
-- src/svchub: the supervisor of the services, pid 1 for most of the time that the system is up.
pub mod State
pub mod Proc
pub mod Ring
pub mod Conn
pub mod Death
pub mod Boot
pub mod Ctrl
pub mod Dispatch
pub mod Events
pub mod Alive
pub mod Children
