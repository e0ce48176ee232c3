-- ===== src/Msh/Command.antt =====
-- src/msh: the commands that work on the context of the shell.
pub mod Arguments
pub mod Records
pub mod Envp
pub mod Basic
pub mod Lookup
pub mod Set
pub mod Setenv
pub mod Room
pub mod Keeps
