-- ===== src/Base/Environ.antt =====
-- Environment blocks as lists of "KEY=VALUE" strings. getenv(3) on the block that execve(2) handed
-- to the process is a parameter.
use Prim.Native.String.{String}
use mathlib.Core.Path.{◌≡◌}
use mathlib.Core.Option.{Option, none, some}
use mathlib.Core.List.{List, [], ◌∷◌, ◌++◌}
use virtualaosp.Base.Strings.{Bytes, codes, strip_prefix}

abbrev pub entry : String → Bytes → Bytes
entry key value = codes key ++ (b'=' ∷ value)

-- What getenv documents: the value of the entry with the key.
pub record Environ : Type 0 where
  pub getenv : List Bytes → String → Option Bytes
  pub getenv_nil : (key : String) → getenv [] key ≡ none
  pub getenv_first :
      (key : String) (value : Bytes) (env : List Bytes)
      → getenv (entry key value ∷ env) key ≡ some value
  pub getenv_other :
      (key : String) (e : Bytes) (env : List Bytes)
      → strip_prefix (codes key ++ (b'=' ∷ [])) e ≡ none
      → getenv (e ∷ env) key ≡ getenv env key
