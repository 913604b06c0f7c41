-- ===== src/Tests/Hooks.antt =====
-- Runs of the hooks (fake/syscall_hooks_write.cpp, fake/uid_spoof.cpp, fake/mount_emu.cpp) over a
-- libc that records its calls and succeeds, with every file a regular one.
use virtualaosp.Base.{some, List, [], ◌∷◌, ◌≡◌, refl, ◌⊎◌, codes}
use virtualaosp.Guest.Libc.{
  Libc, Arg, path, Call, done, failed, Stat, filled, got, target, enametoolong,
}
use virtualaosp.Guest.Redirect.{map_path}
use virtualaosp.Guest.Translate.{choose, translate}
use virtualaosp.Guest.WriteHooks
use virtualaosp.Guest.WriteHooks.Requests.{Request, rename, symbol_of, args_of, serve}
use virtualaosp.Guest.WriteHooks.Confined.{
  translate_args, deliver, SafeArgs, serve-deliver, serve-confined,
}
use virtualaosp.Tests.Guest.{engine, engine-IsActive}

abbrev plain_file : Stat
plain_file = record {
  st_mode = 0o100644;
  st_nlink = 1;
  st_uid = 0;
  st_gid = 0;
  st_size = 0;
  others = [];
}

abbrev pub recorder : Libc
recorder = record {
  World = List Call;
  call = λ c w. (done 0, c ∷ w);
  stat_call = λ c w. (filled plain_file, c ∷ w);
  read_file = λ name w. (some (got (codes "text") ∷ []), w);
  read_lines = λ name w. (some (codes "Uid:" ∷ []), w);
  fill = λ fd bs w. w;
  read_link = λ name w. (target (codes "/data/rootfs/system/bin/sh"), w);
}

abbrev move : Request
move = rename (some (codes "/a")) (some (codes "/b"))

move_run : serve recorder engine move [] ≡ (
  done 0,
  record {
    symbol = "rename";
    args = path (some (codes "/data/rootfs/a")) ∷ path (some (codes "/data/rootfs/b")) ∷ [];
  }
      ∷ [],
)
unfolding serve WriteHooks.rename translate choose map_path
move_run = refl

serve-deliver_example :
    serve recorder engine move []
    ≡ deliver recorder (symbol_of move) (translate_args engine (args_of move)) []
serve-deliver_example = serve-deliver recorder engine move []

serve-confined_example :
    (serve recorder engine move [] ≡ (failed enametoolong, []))
    ⊎ ((args : List Arg) × (serve recorder engine move []
          ≡ recorder.call (record { symbol = symbol_of move; args = args }) [])
        × SafeArgs engine args)
serve-confined_example = serve-confined recorder engine move [] engine-IsActive
