-- ===== src/Guest/WriteHooks/Requests.antt =====
-- A guest's call of one of the hooks of fake/syscall_hooks_write.cpp, as data.
use virtualaosp.Base.{ℕ, Option, List, [], ◌∷◌, Bytes}
use Prim.Native.String.{String}
use virtualaosp.Guest.Redirect.{Engine}
use virtualaosp.Guest.Libc.{Libc, Arg, path, text, num, Reply}
use virtualaosp.Guest.WriteHooks

pub data Request : Type 0 where
  mkdir : Option Bytes → ℕ → Request
  rmdir : Option Bytes → Request
  unlink : Option Bytes → Request
  chmod : Option Bytes → ℕ → Request
  chown : Option Bytes → ℕ → ℕ → Request
  lchown : Option Bytes → ℕ → ℕ → Request
  truncate : Option Bytes → ℕ → Request
  utimes : Option Bytes → ℕ → Request
  mkfifo : Option Bytes → ℕ → Request
  chdir : Option Bytes → Request
  execve : Option Bytes → ℕ → ℕ → Request
  mkdirat : ℕ → Option Bytes → ℕ → Request
  unlinkat : ℕ → Option Bytes → ℕ → Request
  fchmodat : ℕ → Option Bytes → ℕ → ℕ → Request
  fchownat : ℕ → Option Bytes → ℕ → ℕ → ℕ → Request
  utimensat : ℕ → Option Bytes → ℕ → ℕ → Request
  rename link symlink : Option Bytes → Option Bytes → Request
  renameat : ℕ → Option Bytes → ℕ → Option Bytes → Request

unfoldable pub symbol_of : Request → String
symbol_of (mkdir a b) = "mkdir"
symbol_of (rmdir a) = "rmdir"
symbol_of (unlink a) = "unlink"
symbol_of (chmod a b) = "chmod"
symbol_of (chown a b c) = "chown"
symbol_of (lchown a b c) = "lchown"
symbol_of (truncate a b) = "truncate"
symbol_of (utimes a b) = "utimes"
symbol_of (mkfifo a b) = "mkfifo"
symbol_of (chdir a) = "chdir"
symbol_of (execve a b c) = "execve"
symbol_of (mkdirat a b c) = "mkdirat"
symbol_of (unlinkat a b c) = "unlinkat"
symbol_of (fchmodat a b c d) = "fchmodat"
symbol_of (fchownat a b c d f) = "fchownat"
symbol_of (utimensat a b c d) = "utimensat"
symbol_of (rename a b) = "rename"
symbol_of (link a b) = "link"
symbol_of (symlink a b) = "symlink"
symbol_of (renameat a b c d) = "renameat"

-- The arguments that the guest gives.
unfoldable pub args_of : Request → List Arg
args_of (mkdir a b) = path a ∷ num b ∷ []
args_of (rmdir a) = path a ∷ []
args_of (unlink a) = path a ∷ []
args_of (chmod a b) = path a ∷ num b ∷ []
args_of (chown a b c) = path a ∷ num b ∷ num c ∷ []
args_of (lchown a b c) = path a ∷ num b ∷ num c ∷ []
args_of (truncate a b) = path a ∷ num b ∷ []
args_of (utimes a b) = path a ∷ num b ∷ []
args_of (mkfifo a b) = path a ∷ num b ∷ []
args_of (chdir a) = path a ∷ []
args_of (execve a b c) = path a ∷ num b ∷ num c ∷ []
args_of (mkdirat a b c) = num a ∷ path b ∷ num c ∷ []
args_of (unlinkat a b c) = num a ∷ path b ∷ num c ∷ []
args_of (fchmodat a b c d) = num a ∷ path b ∷ num c ∷ num d ∷ []
args_of (fchownat a b c d f) = num a ∷ path b ∷ num c ∷ num d ∷ num f ∷ []
args_of (utimensat a b c d) = num a ∷ path b ∷ num c ∷ num d ∷ []
args_of (rename a b) = path a ∷ path b ∷ []
args_of (link a b) = path a ∷ path b ∷ []
args_of (symlink a b) = text a ∷ path b ∷ []
args_of (renameat a b c d) = num a ∷ path b ∷ num c ∷ path d ∷ []

-- The hook that serves a request.
unfoldable pub serve : (libc : Libc) → Engine → Request → libc.World → Reply × libc.World
serve libc e (mkdir a b) = WriteHooks.mkdir libc e a b
serve libc e (rmdir a) = WriteHooks.rmdir libc e a
serve libc e (unlink a) = WriteHooks.unlink libc e a
serve libc e (chmod a b) = WriteHooks.chmod libc e a b
serve libc e (chown a b c) = WriteHooks.chown libc e a b c
serve libc e (lchown a b c) = WriteHooks.lchown libc e a b c
serve libc e (truncate a b) = WriteHooks.truncate libc e a b
serve libc e (utimes a b) = WriteHooks.utimes libc e a b
serve libc e (mkfifo a b) = WriteHooks.mkfifo libc e a b
serve libc e (chdir a) = WriteHooks.chdir libc e a
serve libc e (execve a b c) = WriteHooks.execve libc e a b c
serve libc e (mkdirat a b c) = WriteHooks.mkdirat libc e a b c
serve libc e (unlinkat a b c) = WriteHooks.unlinkat libc e a b c
serve libc e (fchmodat a b c d) = WriteHooks.fchmodat libc e a b c d
serve libc e (fchownat a b c d f) = WriteHooks.fchownat libc e a b c d f
serve libc e (utimensat a b c d) = WriteHooks.utimensat libc e a b c d
serve libc e (rename a b) = WriteHooks.rename libc e a b
serve libc e (link a b) = WriteHooks.link libc e a b
serve libc e (symlink a b) = WriteHooks.symlink libc e a b
serve libc e (renameat a b c d) = WriteHooks.renameat libc e a b c d
