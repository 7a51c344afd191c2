-- ===== src/Posix.antt =====
-- The operating system that the pools call: sysconf, mmap, mprotect and munmap are an interface,
-- with what POSIX documents of them as laws over two views of the system's state.
mod Simple
pub use Simple.*
mod Defs
pub use Defs.*
