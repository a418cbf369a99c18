-- ===== src/Agent.antt =====
-- agent/: the part of the program that runs on every node.
pub mod Address
pub mod Subnet
pub mod Packet
pub mod Layout
pub mod Enumeration
pub mod Vmlinux
pub mod Key
pub mod Hook
pub mod Sizes
pub mod Collection
pub mod Node
pub mod Send
pub mod Setup
pub mod Tests
