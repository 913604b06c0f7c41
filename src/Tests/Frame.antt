-- ===== src/Tests/Frame.antt =====
-- Runs of the frame region (core/frame_channel.cpp, fake/frame_producer.cpp).
use virtualaosp.Base.{◌<◌, ◌≤◌, ◌+◌, some, ◌≡◌, refl, arith}
use virtualaosp.Frame.Layout.{
  Channel, create, SlotFits, ac_frame_slot_size, ac_frame_region_size, format_rgba8888, frame_magic,
  frame_version, create-SlotFits,
}
use virtualaosp.Frame.Seqlock.{
  Frame, mark, put_byte, publish, scanning, load, choose, check, System, after_mark, after_put,
  after_publish, with_stage, after_take, begins, puts, publishes, restarts, loads, chooses, takes,
  checks, Reach, here, next, fresh_region,
}
use virtualaosp.Frame.Seqlock.Invariant.{SameUpTo}
use virtualaosp.Frame.Seqlock.Snapshot.{snapshot_untorn}

-- The channel of 1280 × 720 pixels and three slots.
abbrev pub hd : Channel
hd = record {
  header = record {
    magic = frame_magic;
    version = frame_version;
    width = 1280;
    height = 720;
    format = format_rgba8888;
    slot_count = 3;
    slot_stride = 3686416;
  };
  total = 11059280;
  region_size = 11059200 + 4096;
}

pub create-hd : create 1280 720 3 ≡ some hd
unfolding create ac_frame_region_size ac_frame_slot_size
create-hd = refl

create-SlotFits_example : SlotFits hd 2
create-SlotFits_example = create-SlotFits 1280 720 3 2 create-hd (omega arith) (omega arith)

-- One frame of one byte through a region of two slots: published in slot 0, scanned and copied.
abbrev sevens : Frame
sevens = λ i. 7

abbrev at_first : System
at_first = fresh_region 0 (λ i j. 0) (λ j. 0)

abbrev published : System
published = after_publish 2 sevens (after_put sevens 0 (after_mark sevens at_first))

published-Reach : Reach 1 2 at_first published
unfolding mark put_byte
published-Reach =
    next (next (next here (begins sevens refl (omega arith))) (puts sevens 0 refl (omega arith)))
      (publishes sevens refl)

abbrev scanned : System
scanned =
    let start = with_stage published (scanning 0 0 0) in
    let one = with_stage start (load start.memory 0 0 0) in with_stage one (load one.memory 1 2 0)

scanned-Reach : Reach 1 2 at_first scanned
unfolding mark put_byte publish load
scanned-Reach =
    next (next (next published-Reach restarts) (loads 0 0 0 refl (omega arith)))
      (loads 1 2 0 refl (omega arith))

abbrev snapshot : System
snapshot =
    let copying_now = with_stage scanned (choose 2 0) in
    let copied = after_take 2 0 0 copying_now in with_stage copied (check copied.memory 2 0)

snapshot-Reach : Reach 1 2 at_first snapshot
unfolding mark put_byte publish load choose
snapshot-Reach =
    next (next (next scanned-Reach (chooses 2 0 refl)) (takes 2 0 0 refl (omega arith)))
      (checks 2 0 refl)

snapshot_untorn_example :
    (0 < 2)
    × (2 ≤ snapshot.producer.last_sequence)
    × SameUpTo 1 snapshot.reader.dst (snapshot.history 2)
snapshot_untorn_example =
    snapshot_untorn 1 2 0 (λ i j. 0) (λ j. 0) snapshot 2 snapshot-Reach
      (unfold mark put_byte publish load choose check in refl)
