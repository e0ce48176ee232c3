-- ===== src/Msh.antt =====
-- src/msh: the mini-shell, which runs the scripts that start the services.
pub mod State
pub mod Heap
pub mod Env
pub mod Argv
pub mod Parser
pub mod Command
pub mod Script
