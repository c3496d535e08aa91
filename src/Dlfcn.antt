-- ===== src/Dlfcn.antt =====
-- src/dlfcn.c: the functions that the library exports in front of libc's.
pub mod Dlsym
pub mod Ioctl
