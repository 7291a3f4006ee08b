-- ===== src/Interface.antt =====
-- src/chronos/interface: the filesystem as the kernel calls it.
pub mod Fuse
