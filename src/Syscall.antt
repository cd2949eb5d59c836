-- ===== src/Syscall.antt =====
-- src/userspace/syscall.c: the system calls, by what they work on.
pub mod Files
pub mod Copy
pub mod Exit
pub mod Spawn
pub mod Channels
pub mod Regions
pub mod Listing
pub mod Dispatch
mod Examples
