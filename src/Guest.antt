-- ===== src/Guest.antt =====
-- libfake, the engine preloaded into each guest process: app/src/main/cpp/fake.
pub mod State
pub mod Resolver
pub mod Redirect
pub mod Libc
pub mod RealLibc
pub mod Translate
pub mod WriteHooks
pub mod Identity
pub mod Mounts
pub mod Vfs
pub mod ReadHooks
pub mod Seccomp
pub mod Init
