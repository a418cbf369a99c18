-- ===== src/Agent/Vmlinux.antt =====
-- agent/vmlinux.h: the types and the constants of the kernel that the eBPF program and its loader
-- share with it.
pub mod Scalars
pub mod Headers
pub mod Buffers
pub mod Views
pub mod Hooks
pub mod SocketParts
pub mod Sockets
pub mod Routes
pub mod Maps
pub mod Tables
pub mod Programs
pub mod Links
pub mod Attributes
pub mod Info
pub mod Commands
pub mod Protocols
pub mod Kinds
pub mod Helpers
pub mod Types
pub mod Apart
