-- ===== src/Netlink.antt =====
-- lib/netlink: messages to and from the kernel.
pub mod Recv
pub mod Attr
pub mod Pack
pub mod RoundTrip
