-- ===== src/Host/Launcher.antt =====
-- core/launcher.cpp: the configuration and the environment of a guest process. Strings hold no
-- NUL. `to_string` is std::to_string of an int.

pub mod Lookup
pub mod Activation
pub mod Stop
pub mod Start
use Prim.Native.String.{String}
use virtualaosp.Base.{ℕ, Bool, true, false, List, [], ◌∷◌, ◌++◌, if◌then◌else◌, Bytes, codes}
use virtualaosp.Base.Int.{ℤ, pos, negsuc}
use virtualaosp.Base.Environ.{entry}

-- struct LaunchConfig
pub record LaunchConfig : Type 0 where
  pub rootfs_dir : Bytes
  pub native_lib_dir : Bytes
  pub init_path : Bytes
  pub extra_mounts : Bytes
  pub exclude_paths : Bytes
  pub fake_uid : ℤ
  pub fake_gid : ℤ
  pub enable_seccomp : Bool
  pub frame_fd : ℤ

-- EnvBuilder::Set, on the entries behind it.
abbrev pub set_entry : String → Bytes → List Bytes → List Bytes
set_entry key value rest = entry key value ∷ rest

-- `if (...) env.Set(...)`
abbrev pub set_if : Bool → String → Bytes → List Bytes → List Bytes
set_if b key value rest = if b then set_entry key value rest else rest

-- `!text.empty()`
abbrev pub is_given : Bytes → Bool
is_given [] = false
is_given (c ∷ text) = true

-- `frame_fd >= 0`
abbrev pub is_fd : ℤ → Bool
is_fd (pos n) = true
is_fd (negsuc n) = false

-- The block of the child of `Start`, in the order of the calls.
unfoldable pub child_env : (ℤ → Bytes) → LaunchConfig → List Bytes
child_env to_string cfg = set_entry "AC_CONTAINER" (codes "1") (
    set_entry "AC_ROOTFS" cfg.rootfs_dir (
      set_entry "AC_FAKE_UID" (to_string cfg.fake_uid) (
        set_entry "AC_FAKE_GID" (to_string cfg.fake_gid) (
          set_if cfg.enable_seccomp "AC_SECCOMP" (codes "1") (
            set_if (is_fd cfg.frame_fd) "AC_FRAME_FD" (to_string cfg.frame_fd) (
              set_if (is_given cfg.extra_mounts) "AC_MOUNTS" cfg.extra_mounts (
                set_if (is_given cfg.exclude_paths) "AC_EXCLUDE" cfg.exclude_paths (
                  set_entry "LD_PRELOAD" (cfg.native_lib_dir ++ codes "/libfake.so") (
                    set_entry "PATH" (codes "/system/bin:/system/xbin:/vendor/bin") (
                      set_entry "ANDROID_ROOT" (codes "/system") (
                        set_entry "ANDROID_DATA" (codes "/data")
                          (set_entry "HOME" (codes "/") []))))))))))))
