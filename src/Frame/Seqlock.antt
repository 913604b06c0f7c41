-- ===== src/Frame/Seqlock.antt =====
-- The seqlock of the frame region, one slot's sequence number and pixels for each slot: the steps
-- of `frame_publish` in fake/frame_producer.cpp and of `ReadLatest` in core/frame_channel.cpp.
-- A step is one atomic access of a sequence number or one byte of a copy, and memory is
-- sequentially consistent. `len` is the frame's size in bytes and `count` the number of slots.
-- The store of `bytes_used` is left out: nothing reads that field.
pub mod Invariant
pub mod Snapshot
use virtualaosp.Base.{
  ℕ, zero, suc, ◌+◌, ◌%◌, ◌^◌, ◌<◌, Bool, true, false, ◌&&◌, Option, none, some, ◌≡◌, ◌==◌, ltb,
  if◌then◌else◌,
}

abbrev pub update {ℓ} : {A : Type ℓ} → (ℕ → A) → ℕ → A → ℕ → A
update f i a j = if i == j then a else f j

-- A frame is its bytes by offset.
abbrev pub Frame : Type 0
Frame = ℕ → ℕ

pub record Shared : Type 0 where
  pub sequence : ℕ → ℕ
  pub pixels : ℕ → Frame

-- g_last_sequence, g_next_slot, and how far the current `frame_publish` has come.
pub data Phase : Type 0 where
  idle : Phase
  copying : Frame → ℕ → Phase

pub record Producer : Type 0 where
  pub last_sequence : ℕ
  pub next_slot : ℕ
  pub phase : Phase

-- `__atomic_store_n(&meta->sequence, g_last_sequence + 1)`
unfoldable pub mark : Frame → Producer → Shared → Producer × Shared
mark frame p m = (
  record p { phase = copying frame 0 },
  record m { sequence = update m.sequence p.next_slot ((p.last_sequence + 1) % 2 ^ 64) },
)

-- Byte `k` of memcpy(dst, pixels, len).
unfoldable pub put_byte : Frame → ℕ → Producer → Shared → Producer × Shared
put_byte frame k p m = (
  record p { phase = copying frame (k + 1) },
  record m { pixels = update m.pixels p.next_slot (update (m.pixels p.next_slot) k (frame k)) },
)

-- The even sequence number, and the next slot.
unfoldable pub publish : ℕ → Producer → Shared → Producer × Shared
publish count p m = (
  record {
    last_sequence = (p.last_sequence + 2) % 2 ^ 64;
    next_slot = (p.next_slot + 1) % count;
    phase = idle;
  },
  record m { sequence = update m.sequence p.next_slot ((p.last_sequence + 2) % 2 ^ 64) },
)

-- Where `ReadLatest` stands: at slot `i` of the scan with the best sequence so far (0 if none) and
-- its slot, at byte `k` of the copy, or done, with the sequence of the snapshot or none.
pub data Stage : Type 0 where
  scanning : ℕ → ℕ → ℕ → Stage
  reading : ℕ → ℕ → ℕ → Stage
  finished : Option ℕ → Stage

pub record Reader : Type 0 where
  pub dst : Frame
  pub stage : Stage

-- `(seq & 1) == 0 && seq > best_seq`
unfoldable pub load : Shared → ℕ → ℕ → ℕ → Stage
load m i best_seq best_slot =
    let seq = m.sequence i in
    if (seq % 2 == 0) && ltb best_seq seq
    then scanning (i + 1) seq i
    else scanning (i + 1) best_seq best_slot

-- Behind the scan: no slot is published, or the copy starts.
unfoldable pub choose : ℕ → ℕ → Stage
choose best_seq best_slot = if best_seq == 0 then finished none else reading best_seq best_slot 0

-- `if (after != best_seq) return false;`
unfoldable pub check : Shared → ℕ → ℕ → Stage
check m best_seq best_slot =
    if m.sequence best_slot == best_seq then finished (some best_seq) else finished none

unfoldable pub take_byte : Shared → ℕ → ℕ → Frame → Frame
take_byte m best_slot k dst = update dst k (m.pixels best_slot k)

-- The two sides and the memory, with the frames published so far by their sequence number, which
-- no code reads.
pub record System : Type 0 where
  pub memory : Shared
  pub producer : Producer
  pub reader : Reader
  pub history : ℕ → Frame

abbrev pub after_mark : Frame → System → System
after_mark frame s =
    let (p, m) = mark frame s.producer s.memory in record s { producer = p; memory = m }

abbrev pub after_put : Frame → ℕ → System → System
after_put frame k s =
    let (p, m) = put_byte frame k s.producer s.memory in record s { producer = p; memory = m }

abbrev pub after_publish : ℕ → Frame → System → System
after_publish count frame s =
    let (p, m) = publish count s.producer s.memory in
    record s { producer = p; memory = m; history = update s.history p.last_sequence frame }

abbrev pub with_stage : System → Stage → System
with_stage s stage = record s { reader = record { dst = s.reader.dst; stage = stage } }

abbrev pub after_take : ℕ → ℕ → ℕ → System → System
after_take seq slot k s = record s {
  reader = record {
    dst = take_byte s.memory slot k s.reader.dst;
    stage = reading seq slot (k + 1);
  };
}

module _ (len count : ℕ) where
  -- One step of either side. `begins` is a call of `frame_publish` with a frame of the right size,
  -- with numbers left in the 64-bit counter; `restarts` is the next call of `ReadLatest`.
  pub data Step (s : System) : System → Type 0 where
    begins :
        (frame : Frame)
        → s.producer.phase ≡ idle
        → s.producer.last_sequence + 2 < 2 ^ 64
        → Step s (after_mark frame s)
    puts :
        (frame : Frame) (k : ℕ)
        → s.producer.phase ≡ copying frame k
        → k < len
        → Step s (after_put frame k s)
    publishes :
        (frame : Frame)
        → s.producer.phase ≡ copying frame len
        → Step s (after_publish count frame s)
    restarts : Step s (with_stage s (scanning 0 0 0))
    loads :
        (i seq slot : ℕ)
        → s.reader.stage ≡ scanning i seq slot
        → i < count
        → Step s (with_stage s (load s.memory i seq slot))
    chooses :
        (seq slot : ℕ)
        → s.reader.stage ≡ scanning count seq slot
        → Step s (with_stage s (choose seq slot))
    takes :
        (seq slot k : ℕ)
        → s.reader.stage ≡ reading seq slot k
        → k < len
        → Step s (after_take seq slot k s)
    checks :
        (seq slot : ℕ)
        → s.reader.stage ≡ reading seq slot len
        → Step s (with_stage s (check s.memory seq slot))

  -- Any interleaving of steps from `s`.
  pub data Reach (s : System) : System → Type 0 where
    here : Reach s s
    next : {t u : System} → Reach s t → Step t u → Reach s u

-- A fresh region: all sequence numbers are 0, and no call has begun.
abbrev pub fresh_region : ℕ → (ℕ → Frame) → Frame → System
fresh_region slot pixels dst = record {
  memory = record { sequence = λ i. 0; pixels = pixels };
  producer = record { last_sequence = 0; next_slot = slot; phase = idle };
  reader = record { dst = dst; stage = finished none };
  history = pixels;
}
