-- ===== src/Tests/Bridge.antt =====
-- Runs of core/native_bridge.cpp and of the host's channel (core/container_core.cpp).
use virtualaosp.Base.{◌⊎◌, ◌+◌, true, false, none, some, List, [], ◌∷◌, ◌++◌, map, ◌≡◌, refl, codes}
use virtualaosp.Base.Int.{pos, to_u32}
use virtualaosp.Host.Guest.{
  Answers, exited, final_state, start_container, resolve_rootfs_path, resolve_binary,
}
use virtualaosp.Host.Bridge.{
  new_bridge, starts, tells_start, exits, tells_exit, stops, Event, run, native_start,
}
use virtualaosp.Host.Bridge.Late.{late_start_told}
use virtualaosp.Host.Bridge.Notices.{is_running, told_running, in_order, told_settles}
use virtualaosp.Host.Bridge.Listener
use virtualaosp.Host.Bridge.Listener.{no_refs, sets, loads, ends, is_live, callback_reference}
use virtualaosp.Frame.Host
use virtualaosp.Frame.Host.{
  FrameChannelHost, new_host, creates, closes, grabs, create_channel, native_create_frame_channel,
  native_close_frame_channel, grab,
}
use virtualaosp.Frame.Host.Owned.Pointer.{Kept, Gone, pump_pointer}
use virtualaosp.Frame.Host.Owned.{descriptor, gains, losses, holds, channel_owned}
use virtualaosp.Frame.Layout.{
  ac_frame_slot_size, ac_frame_region_size, frame_magic, frame_version, format_rgba8888,
}

-- Each file exists, and the child has the pid 41.
abbrev working : Answers
working = record { exists = λ path. true; pipe_ok = true; child = some 40 }

abbrev starting_guest : Event
starting_guest = starts (some (codes "/r")) none (some (codes "/init")) working

abbrev one_life : List Event
one_life = starting_guest ∷ tells_start ∷ exits (exited 3) ∷ tells_exit ∷ []

told_settles_example :
    told_running (run new_bridge one_life).told
    ≡ is_running (run new_bridge one_life).launcher.state
unfolding in_order run native_start start_container resolve_rootfs_path resolve_binary
told_settles_example = told_settles one_life refl refl refl

late_start_told_example :
    (let b =
        run
          (run new_bridge (starting_guest ∷ []))
          ((exits (exited 0) ∷ tells_exit ∷ tells_start ∷ []) ++ map stops (15 ∷ [])) in
      (told_running b.told ≡ true)
      × (b.launcher.state ≡ final_state (exited 0))
      × (is_running b.launcher.state ≡ false))
unfolding in_order run native_start start_container resolve_rootfs_path resolve_binary
late_start_told_example = late_start_told (starting_guest ∷ []) (exited 0) (15 ∷ []) refl refl

-- A second listener takes the place of the first.
abbrev two_listeners : List Listener.Event
two_listeners = sets true ∷ loads ∷ ends ∷ sets true ∷ []

callback_reference_example :
    ((Listener.run no_refs two_listeners).live ≡ 1 ∷ [])
    × ((Listener.run (Listener.run no_refs two_listeners) (loads ∷ [])).loaded ≡ some 1)
    × (is_live 1 (Listener.run (Listener.run no_refs two_listeners) (loads ∷ [])).live ≡ true)
    × ((Listener.run (Listener.run no_refs two_listeners) (loads ∷ sets false ∷ [])).loaded
        ≡ some 1)
    × (is_live 1 (Listener.run (Listener.run no_refs two_listeners) (loads ∷ sets false ∷ [])).live
        ≡ false)
unfolding Listener.run
callback_reference_example = callback_reference two_listeners 1 false refl

abbrev memory : Host.Answers
memory = record { memfd = some 57; truncates = true; maps = true }

abbrev no_mapping : Host.Answers
no_mapping = record { memfd = some 58; truncates = true; maps = false }

-- A channel is made; making another one fails in mmap.
abbrev channels : List Host.Event
channels =
    creates (pos 64) (pos 32) (pos 2) memory
    ∷ creates (pos 128) (pos 64) (pos 2) no_mapping
    ∷ grabs
    ∷ []

abbrev small : FrameChannelHost
small = record {
  serial = 0;
  fd = 57;
  channel = record {
    header = record {
      magic = frame_magic;
      version = frame_version;
      width = 64;
      height = 32;
      format = format_rgba8888;
      slot_count = 2;
      slot_stride = 8208;
    };
    total = 16448;
    region_size = 20480;
  };
}

-- While the pump reads, making a channel fails, and then another one is made.
abbrev more_channels : List Host.Event
more_channels =
    creates (pos 128) (pos 64) (pos 2) no_mapping ∷ creates (pos 8) (pos 8) (pos 2) memory ∷ []

channel_owned_example :
    (gains (descriptor 57) (Host.run new_host channels).1
      ≡ losses (descriptor 57) (Host.run new_host channels).1
        + holds (descriptor 57) (Host.run new_host channels).0.host_channel)
    × (holds
          (descriptor 57)
          (native_close_frame_channel (Host.run new_host channels).0).0.host_channel
        ≡ 0)
channel_owned_example = channel_owned (descriptor 57) channels

pump_pointer_example :
    (let x = Host.run (grab (Host.run new_host channels).0) more_channels in
      let y = Host.run (grab (Host.run new_host channels).0) (more_channels ++ (closes ∷ [])) in
      (x.0.pumped ≡ some 0) × (Kept small x ⊎ Gone small x) × Gone small y)
unfolding Host.run to_u32 ac_frame_slot_size ac_frame_region_size
pump_pointer_example = pump_pointer channels more_channels small refl tt
