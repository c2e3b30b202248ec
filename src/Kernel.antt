-- ===== src/Kernel.antt =====
-- The kernel of the modified xv6: kernel/*.c and kernel/*.h.
pub mod Spinlock
pub mod Proc
pub mod Sysproc
pub mod Text
pub mod Kalloc
pub mod Log
pub mod Pipe
pub mod Namex
pub mod File
pub mod Sysfile
pub mod Bio
pub mod Vm
pub mod Fs
pub mod Sleeplock
