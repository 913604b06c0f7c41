-- ===== src/Host/Launcher/Lookup.antt =====
-- What a process finds in the environment that `Start` of core/launcher.cpp hands to it.
use Prim.Native.String.{String}
use virtualaosp.Base.{
  Bool, true, false, Option, none, some, List, [], ◌∷◌, ◌++◌, ◌≡◌, refl, ◌∙◌, Bytes, codes,
  strip_prefix,
}
use virtualaosp.Base.Int.{ℤ}
use virtualaosp.Base.Environ.{Environ, entry}
use virtualaosp.Host.Launcher.{LaunchConfig, set_entry, set_if, is_given, is_fd, child_env}

abbrev pub key_mark : String → Bytes
key_mark key = codes key ++ (b'=' ∷ [])

getenv-set_if :
    (E : Environ) (b : Bool) (key other : String) (value : Bytes) (rest : List Bytes)
    → strip_prefix (key_mark key) (entry other value) ≡ none
    → E.getenv (set_if b other value rest) key ≡ E.getenv rest key
getenv-set_if E true key other value rest h = E.getenv_other key (entry other value) rest h
getenv-set_if E false key other value rest h = refl

-- What a lookup finds of an optional entry that no later entry repeats.
abbrev pub option_if : Bool → Bytes → Option Bytes
option_if true value = some value
option_if false value = none

getenv-found :
    (E : Environ) (b : Bool) (key : String) (value : Bytes) (rest : List Bytes)
    → E.getenv rest key ≡ none
    → E.getenv (set_if b key value rest) key ≡ option_if b value
getenv-found E true key value rest h = E.getenv_first key value rest
getenv-found E false key value rest h = h

-- No entry of a block has the key.
abbrev pub Lacks : String → List Bytes → Type 0
Lacks key [] = Unit
Lacks key (e ∷ env) = (strip_prefix (key_mark key) e ≡ none) × Lacks key env

pub getenv-Lacks :
    (E : Environ) (key : String) (env : List Bytes) → Lacks key env → E.getenv env key ≡ none
getenv-Lacks E key [] l = E.getenv_nil key
getenv-Lacks E key (e ∷ env) (h, l) = E.getenv_other key e env h ∙ getenv-Lacks E key env l

module _ (E : Environ) (to_string : ℤ → Bytes) (cfg : LaunchConfig) where
  -- The entries that stand last in every block.
  abbrev tail_env : List Bytes
  tail_env = set_entry "LD_PRELOAD" (cfg.native_lib_dir ++ codes "/libfake.so") (
      set_entry "PATH" (codes "/system/bin:/system/xbin:/vendor/bin") (
        set_entry "ANDROID_ROOT" (codes "/system")
          (set_entry "ANDROID_DATA" (codes "/data") (set_entry "HOME" (codes "/") []))))

  abbrev from_excludes : List Bytes
  from_excludes = set_if (is_given cfg.exclude_paths) "AC_EXCLUDE" cfg.exclude_paths tail_env

  abbrev from_mounts : List Bytes
  from_mounts = set_if (is_given cfg.extra_mounts) "AC_MOUNTS" cfg.extra_mounts from_excludes

  abbrev from_frames : List Bytes
  from_frames = set_if (is_fd cfg.frame_fd) "AC_FRAME_FD" (to_string cfg.frame_fd) from_mounts

  pub enabled_is : E.getenv (child_env to_string cfg) "AC_CONTAINER" ≡ some (codes "1")
  unfolding child_env
  enabled_is = E.getenv_first "AC_CONTAINER" (codes "1") _

  pub rootfs_is : E.getenv (child_env to_string cfg) "AC_ROOTFS" ≡ some cfg.rootfs_dir
  unfolding child_env strip_prefix
  rootfs_is =
      E.getenv_other "AC_ROOTFS" (entry "AC_CONTAINER" (codes "1")) _ refl
      ∙ E.getenv_first "AC_ROOTFS" cfg.rootfs_dir _

  pub uid_is : E.getenv (child_env to_string cfg) "AC_FAKE_UID" ≡ some (to_string cfg.fake_uid)
  unfolding child_env strip_prefix
  uid_is =
      E.getenv_other "AC_FAKE_UID" (entry "AC_CONTAINER" (codes "1")) _ refl
      ∙ E.getenv_other "AC_FAKE_UID" (entry "AC_ROOTFS" cfg.rootfs_dir) _ refl
      ∙ E.getenv_first "AC_FAKE_UID" (to_string cfg.fake_uid) _

  -- The entries in front of the optional ones have other keys.
  behind_ids :
      (key : String)
      → Lacks key (
          set_entry "AC_CONTAINER" (codes "1") (
            set_entry "AC_ROOTFS" cfg.rootfs_dir
              (set_entry "AC_FAKE_UID" (to_string cfg.fake_uid) [])))
      → (rest : List Bytes)
      → E.getenv
          (set_entry "AC_CONTAINER" (codes "1") (
            set_entry "AC_ROOTFS" cfg.rootfs_dir
              (set_entry "AC_FAKE_UID" (to_string cfg.fake_uid) rest)))
          key
        ≡ E.getenv rest key
  behind_ids key (a, (b, (c, d))) rest =
      E.getenv_other key _ _ a ∙ E.getenv_other key _ _ b ∙ E.getenv_other key _ _ c

  pub gid_is : E.getenv (child_env to_string cfg) "AC_FAKE_GID" ≡ some (to_string cfg.fake_gid)
  unfolding child_env strip_prefix
  gid_is =
      behind_ids "AC_FAKE_GID" (refl, (refl, (refl, tt))) _
      ∙ E.getenv_first "AC_FAKE_GID" (to_string cfg.fake_gid) _

  pub seccomp_is :
      E.getenv (child_env to_string cfg) "AC_SECCOMP" ≡ option_if cfg.enable_seccomp (codes "1")
  unfolding child_env strip_prefix
  seccomp_is =
      behind_ids "AC_SECCOMP" (refl, (refl, (refl, tt))) _
      ∙ E.getenv_other "AC_SECCOMP" (entry "AC_FAKE_GID" (to_string cfg.fake_gid)) _ refl
      ∙ getenv-found E cfg.enable_seccomp "AC_SECCOMP" (codes "1") from_frames (
          getenv-set_if E (is_fd cfg.frame_fd) "AC_SECCOMP" "AC_FRAME_FD" _ from_mounts refl
          ∙ getenv-set_if E (is_given cfg.extra_mounts) "AC_SECCOMP" "AC_MOUNTS" _ from_excludes
              refl
          ∙ getenv-set_if E (is_given cfg.exclude_paths) "AC_SECCOMP" "AC_EXCLUDE" _ tail_env refl
          ∙ getenv-Lacks E "AC_SECCOMP" tail_env (refl, (refl, (refl, (refl, (refl, tt))))))

  pub frame_fd_is :
      E.getenv (child_env to_string cfg) "AC_FRAME_FD"
      ≡ option_if (is_fd cfg.frame_fd) (to_string cfg.frame_fd)
  unfolding child_env strip_prefix
  frame_fd_is =
      behind_ids "AC_FRAME_FD" (refl, (refl, (refl, tt))) _
      ∙ E.getenv_other "AC_FRAME_FD" (entry "AC_FAKE_GID" (to_string cfg.fake_gid)) _ refl
      ∙ getenv-set_if E cfg.enable_seccomp "AC_FRAME_FD" "AC_SECCOMP" _ from_frames refl
      ∙ getenv-found E (is_fd cfg.frame_fd) "AC_FRAME_FD" (to_string cfg.frame_fd) from_mounts (
          getenv-set_if E (is_given cfg.extra_mounts) "AC_FRAME_FD" "AC_MOUNTS" _ from_excludes refl
          ∙ getenv-set_if E (is_given cfg.exclude_paths) "AC_FRAME_FD" "AC_EXCLUDE" _ tail_env refl
          ∙ getenv-Lacks E "AC_FRAME_FD" tail_env (refl, (refl, (refl, (refl, (refl, tt))))))

  pub excludes_are :
      E.getenv (child_env to_string cfg) "AC_EXCLUDE"
      ≡ option_if (is_given cfg.exclude_paths) cfg.exclude_paths
  unfolding child_env strip_prefix
  excludes_are =
      behind_ids "AC_EXCLUDE" (refl, (refl, (refl, tt))) _
      ∙ E.getenv_other "AC_EXCLUDE" (entry "AC_FAKE_GID" (to_string cfg.fake_gid)) _ refl
      ∙ getenv-set_if E cfg.enable_seccomp "AC_EXCLUDE" "AC_SECCOMP" _ from_frames refl
      ∙ getenv-set_if E (is_fd cfg.frame_fd) "AC_EXCLUDE" "AC_FRAME_FD" _ from_mounts refl
      ∙ getenv-set_if E (is_given cfg.extra_mounts) "AC_EXCLUDE" "AC_MOUNTS" _ from_excludes refl
      ∙ getenv-found E (is_given cfg.exclude_paths) "AC_EXCLUDE" cfg.exclude_paths tail_env
          (getenv-Lacks E "AC_EXCLUDE" tail_env (refl, (refl, (refl, (refl, (refl, tt))))))
