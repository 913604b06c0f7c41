-- ===== src/Guest/WriteHooks.antt =====
-- fake/syscall_hooks_write.cpp: the hooks of the calls that change files or metadata, and execve.
-- Scalars and pointers that a hook hands on unread are numbers.
pub mod Requests
pub mod Confined
use Prim.Native.String.{String}
use virtualaosp.Base.{ℕ, Bool, true, false, Option, none, some, List, [], ◌∷◌, ◌++◌, Bytes}
use virtualaosp.Guest.Redirect.{Engine}
use virtualaosp.Guest.Translate.{Translated, value, overflowed, translate, maybe_map}
use virtualaosp.Guest.Libc.{Libc, Arg, path, text, num, Call, Reply, done, failed, enametoolong}

module _ (libc : Libc) where
  open libc use {World, call}

  -- What a hook does once its one path is translated: fail before any call, or forward.
  unfoldable pub forward : Translated → (Option Bytes → Call) → World → Reply × World
  forward overflowed make w = (failed enametoolong, w)
  forward (value p was_mapped) make w = call (make p) w

  -- The same with two paths, both translated before either is tested.
  unfoldable pub forward_two :
      Translated → Translated → (Option Bytes → Option Bytes → Call) → World → Reply × World
  forward_two overflowed t make w = (failed enametoolong, w)
  forward_two (value p was_mapped) overflowed make w = (failed enametoolong, w)
  forward_two (value p was_mapped) (value q also_mapped) make w = call (make p q) w

  unfoldable pub mkdir : Engine → Option Bytes → ℕ → World → Reply × World
  unfolding forward translate
  mkdir e name mode =
      forward (translate e name) λ p. record { symbol = "mkdir"; args = path p ∷ num mode ∷ [] }

  unfoldable pub rmdir : Engine → Option Bytes → World → Reply × World
  unfolding forward translate
  rmdir e name = forward (translate e name) λ p. record { symbol = "rmdir"; args = path p ∷ [] }

  unfoldable pub unlink : Engine → Option Bytes → World → Reply × World
  unfolding forward translate
  unlink e name = forward (translate e name) λ p. record { symbol = "unlink"; args = path p ∷ [] }

  unfoldable pub chmod : Engine → Option Bytes → ℕ → World → Reply × World
  unfolding forward translate
  chmod e name mode =
      forward (translate e name) λ p. record { symbol = "chmod"; args = path p ∷ num mode ∷ [] }

  unfoldable pub chown : Engine → Option Bytes → ℕ → ℕ → World → Reply × World
  unfolding forward translate
  chown e name uid gid =
      forward (translate e name)
        λ p. record { symbol = "chown"; args = path p ∷ num uid ∷ num gid ∷ [] }

  unfoldable pub lchown : Engine → Option Bytes → ℕ → ℕ → World → Reply × World
  unfolding forward translate
  lchown e name uid gid =
      forward (translate e name)
        λ p. record { symbol = "lchown"; args = path p ∷ num uid ∷ num gid ∷ [] }

  unfoldable pub truncate : Engine → Option Bytes → ℕ → World → Reply × World
  unfolding forward translate
  truncate e name length =
      forward (translate e name)
        λ p. record { symbol = "truncate"; args = path p ∷ num length ∷ [] }

  unfoldable pub utimes : Engine → Option Bytes → ℕ → World → Reply × World
  unfolding forward translate
  utimes e name times =
      forward (translate e name) λ p. record { symbol = "utimes"; args = path p ∷ num times ∷ [] }

  unfoldable pub mkfifo : Engine → Option Bytes → ℕ → World → Reply × World
  unfolding forward translate
  mkfifo e name mode =
      forward (translate e name) λ p. record { symbol = "mkfifo"; args = path p ∷ num mode ∷ [] }

  unfoldable pub chdir : Engine → Option Bytes → World → Reply × World
  unfolding forward translate
  chdir e name = forward (translate e name) λ p. record { symbol = "chdir"; args = path p ∷ [] }

  unfoldable pub execve : Engine → Option Bytes → ℕ → ℕ → World → Reply × World
  unfolding forward translate
  execve e name argv envp =
      forward (translate e name)
        λ p. record { symbol = "execve"; args = path p ∷ num argv ∷ num envp ∷ [] }

  unfoldable pub mkdirat : Engine → ℕ → Option Bytes → ℕ → World → Reply × World
  unfolding forward maybe_map
  mkdirat e dirfd name mode =
      forward (maybe_map e name)
        λ p. record { symbol = "mkdirat"; args = num dirfd ∷ path p ∷ num mode ∷ [] }

  unfoldable pub unlinkat : Engine → ℕ → Option Bytes → ℕ → World → Reply × World
  unfolding forward maybe_map
  unlinkat e dirfd name flags =
      forward (maybe_map e name)
        λ p. record { symbol = "unlinkat"; args = num dirfd ∷ path p ∷ num flags ∷ [] }

  unfoldable pub fchmodat : Engine → ℕ → Option Bytes → ℕ → ℕ → World → Reply × World
  unfolding forward maybe_map
  fchmodat e dirfd name mode flags =
      forward (maybe_map e name)
        λ p. record { symbol = "fchmodat"; args = num dirfd ∷ path p ∷ num mode ∷ num flags ∷ [] }

  unfoldable pub fchownat : Engine → ℕ → Option Bytes → ℕ → ℕ → ℕ → World → Reply × World
  unfolding forward maybe_map
  fchownat e dirfd name uid gid flags = forward (maybe_map e name) λ p. record {
    symbol = "fchownat";
    args = num dirfd ∷ path p ∷ num uid ∷ num gid ∷ num flags ∷ [];
  }

  unfoldable pub utimensat : Engine → ℕ → Option Bytes → ℕ → ℕ → World → Reply × World
  unfolding forward maybe_map
  utimensat e dirfd name times flags =
      forward (maybe_map e name)
        λ p. record { symbol = "utimensat"; args = num dirfd ∷ path p ∷ num times ∷ num flags ∷ [] }

  unfoldable pub rename : Engine → Option Bytes → Option Bytes → World → Reply × World
  unfolding forward_two translate
  rename e old new =
      forward_two (translate e old) (translate e new)
        λ p q. record { symbol = "rename"; args = path p ∷ path q ∷ [] }

  unfoldable pub link : Engine → Option Bytes → Option Bytes → World → Reply × World
  unfolding forward_two translate
  link e old new =
      forward_two (translate e old) (translate e new)
        λ p q. record { symbol = "link"; args = path p ∷ path q ∷ [] }

  unfoldable pub renameat : Engine → ℕ → Option Bytes → ℕ → Option Bytes → World → Reply × World
  unfolding forward_two maybe_map
  renameat e olddirfd old newdirfd new = forward_two (maybe_map e old) (maybe_map e new) λ p q.
      record { symbol = "renameat"; args = num olddirfd ∷ path p ∷ num newdirfd ∷ path q ∷ [] }

  -- The target stays verbatim: it is text that the link stores.
  unfoldable pub symlink : Engine → Option Bytes → Option Bytes → World → Reply × World
  unfolding forward translate
  symlink e target linkpath =
      forward (translate e linkpath)
        λ p. record { symbol = "symlink"; args = text target ∷ path p ∷ [] }
