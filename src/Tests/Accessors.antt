-- ===== src/Tests/Accessors.antt =====
-- Runs of fake/real_libc.cpp and of the hooks of fake/syscall_hooks_read.cpp on a path that is not
-- emulated.
use Prim.Native.String.{String}
use virtualaosp.Base.{ℕ, some, none, Option, List, [], ◌∷◌, ◌≡◌, refl, ◌⊎◌, codes, arith}
use virtualaosp.Guest.RealLibc.{real_read, Event, enters, moves, fresh, called, aborted, step, run}
use virtualaosp.Guest.RealLibc.Returns.{stays, moves_of, accessor_returns}
use virtualaosp.Guest.Redirect.{is_virtual_fs_path}
use virtualaosp.Guest.Vfs.Emulate.{Process}
use virtualaosp.Guest.ReadHooks.Confined.Served.{serve_read-Confined}
use virtualaosp.Guest.ReadHooks.Confined.{
  opens, fstatat, serve_read, serve_stat, Confined, ConfinedStat,
}
use virtualaosp.Tests.Guest.{engine, engine-IsActive}
use virtualaosp.Tests.Hooks.{recorder}

-- Two threads meet in the slot of read.
abbrev race : List Event
race = moves 1 ∷ enters 2 (real_read 0 0 9) ∷ moves 2 ∷ moves 1 ∷ moves 2 ∷ moves 2 ∷ moves 1 ∷ []

abbrev dlsym : String → Option ℕ
dlsym name = some 77

accessor_returns_example :
    (let pc =
        (run dlsym (step dlsym (run dlsym fresh []) (enters 1 (real_read 3 0 64))) race).pcs 1 in
      ((fn : ℕ) × (pc ≡ called (real_read 3 0 64) fn) × (dlsym "read" ≡ some fn))
      ⊎ ((pc ≡ aborted (real_read 3 0 64)) × (dlsym "read" ≡ none)))
unfolding run stays moves_of
accessor_returns_example =
    accessor_returns dlsym 1 (real_read 3 0 64) [] race refl refl (omega arith)

abbrev process : Process
process = record { own_pid = codes "7"; print = λ n. codes "0"; mounts = none }

serve_read-Confined_example :
    Confined recorder engine "open" []
      (serve_read recorder process engine (opens (codes "/data/a") 0 0) [])
    × ConfinedStat recorder engine "fstatat" []
        (serve_stat recorder process engine (fstatat 5 (some (codes "/data/a")) 0) [])
unfolding is_virtual_fs_path
serve_read-Confined_example =
    serve_read-Confined recorder process engine (opens (codes "/data/a") 0 0)
      (fstatat 5 (some (codes "/data/a")) 0) [] engine-IsActive refl refl
