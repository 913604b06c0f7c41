-- ===== src/Tests/Vfs.antt =====
-- Runs of the emulation of /proc and /sys and of the hooks that read (fake/vfs_emu.cpp,
-- fake/syscall_hooks_read.cpp).
use virtualaosp.Base.{none, some, List, [], ◌∷◌, ◌++◌, ◌≡◌, refl, arith, codes, is_absolute}
use virtualaosp.Guest.Libc.{Piece, got, signalled}
use virtualaosp.Guest.Redirect.{bypasses, map_path, mapped, starts_with_rootfs, unmap_path}
use virtualaosp.Guest.Redirect.Confine.{guest_view}
use virtualaosp.Guest.Translate.{path_buf_size}
use virtualaosp.Guest.Vfs.{classify}
use virtualaosp.Guest.Vfs.Content.{emit_line, emit_maps, line_of, skip_fields}
use virtualaosp.Guest.Vfs.Emulate.{Process}
use virtualaosp.Guest.Vfs.Maps.{lines_of, sanitize, all_text, emit_maps-sanitize}
use virtualaosp.Guest.Vfs.View.{emit_line-guest_view}
use virtualaosp.Tests.Guest.{rootfs, active_state, engine, engine-IsActive}

abbrev process : Process
process = record { own_pid = codes "42"; print = λ n. codes "0"; mounts = none }

own_pid_run :
    classify (codes "42") (codes "/proc/42/maps") ≡ classify (codes "42") (codes "/proc/self/maps")
unfolding classify
own_pid_run = refl

-- A library of the sandbox, one of the host, and an anonymous region, cut inside a line.
abbrev maps_pieces : List Piece
maps_pieces =
    got (codes "1-2 r 0 0 5 /data/rootfs/lib/a.so\n3-4 r 0 0 6 /system/li")
    ∷ signalled
    ∷ got (codes "b/b.so\n7-8 rw 0 0 0 [heap]\n")
    ∷ []

maps_run :
    emit_maps active_state maps_pieces [] ≡ codes "1-2 r 0 0 5 /lib/a.so\n7-8 rw 0 0 0 [heap]\n"
unfolding emit_maps unmap_path
maps_run = refl

emit_maps-sanitize_example :
    emit_maps active_state maps_pieces []
    ≡ sanitize active_state (lines_of (all_text maps_pieces)).0
emit_maps-sanitize_example =
    emit_maps-sanitize active_state maps_pieces
      (unfold lines_of in ((omega arith, (omega arith, (omega arith, tt))), omega arith))

emit_line-guest_view_example :
    (map_path engine (some (codes "/lib/a.so")) path_buf_size
      ≡ mapped (rootfs ++ guest_view engine (codes "/lib/a.so")))
    × (emit_line active_state (codes "1-2 r 0 0 5 /data/rootfs/lib/a.so")
        ≡ codes "1-2 r 0 0 5 " ++ line_of (guest_view engine (codes "/lib/a.so")))
    × (emit_line active_state (codes "3-4 r 0 0 6 /system/lib/b.so") ≡ [])
emit_line-guest_view_example =
    emit_line-guest_view engine (codes "/lib/a.so") (codes "1-2 r 0 0 5 /data/rootfs/lib/a.so")
      (codes "3-4 r 0 0 6 /system/lib/b.so") (codes "1-2 r 0 0 5 ") (codes "3-4 r 0 0 6 ")
      (codes "/system/lib/b.so") engine-IsActive (unfold is_absolute in refl)
      (unfold bypasses in refl) (unfold guest_view in omega arith)
      (unfold skip_fields guest_view in refl) (unfold skip_fields in refl)
      (unfold is_absolute in refl) (unfold starts_with_rootfs in refl)
