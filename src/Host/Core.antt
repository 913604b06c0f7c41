-- ===== src/Host/Core.antt =====
-- The calls of core/container_core.cpp on the interpreter patcher. A string of Java is its bytes,
-- and null is `none`; the file that a path opens is an argument, with the errno where there is
-- none, and so is the errno left over from before.
use virtualaosp.Base.{ℕ, ◌||◌, Option, none, some, [], Bytes, if◌then◌else◌}
use virtualaosp.Base.Int.{ℤ, pos}
use virtualaosp.Ipc.Server.{minus}
use virtualaosp.Host.Interp.{Outcome, success, failure, read_interp, patch_interp, einval}
use virtualaosp.Host.Bridge.{to_std, is_empty}

pub data Opened : Type 0 where
  file_of : Bytes → Opened
  open_errno : ℕ → Opened

abbrev pub or_empty : Outcome Bytes → Bytes
or_empty (success interp) = interp
or_empty (failure errno) = []

abbrev pub read_opened : ℕ → Opened → Bytes
read_opened errno (file_of file) = or_empty (read_interp errno file)
read_opened errno (open_errno e) = []

-- Every error gives the empty string.
unfoldable pub native_read_interp : (Bytes → Opened) → ℕ → Option Bytes → Bytes
unfolding read_interp
native_read_interp opens errno elf_path = read_opened errno (opens (to_std elf_path))

-- The result, and the file behind it if it was written.
abbrev pub patch_result : Outcome Bytes → ℤ × Option Bytes
patch_result (success file) = (pos 0, some file)
patch_result (failure errno) = (minus errno, none)

abbrev pub patch_opened : ℕ → Bytes → Opened → ℤ × Option Bytes
patch_opened errno interp (file_of file) = patch_result (patch_interp errno file interp)
patch_opened errno interp (open_errno e) = (minus e, none)

unfoldable pub native_patch_interp :
    (Bytes → Opened) → ℕ → Option Bytes → Option Bytes → ℤ × Option Bytes
unfolding patch_interp
native_patch_interp opens errno elf_path new_interp =
    let path = to_std elf_path in
    let interp = to_std new_interp in
    if is_empty path || is_empty interp
    then (minus einval, none)
    else patch_opened errno interp (opens path)
