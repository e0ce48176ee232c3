-- ===== src/Tests.antt =====
-- Examples that run the operations and apply the theorems to concrete inputs.
mod Format
mod Nlusctl
mod Svchub
mod Msh
mod Output
mod Time
mod Netlink
