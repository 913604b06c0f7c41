-- ===== src/Frame/Seqlock/Snapshot.antt =====
-- The snapshots of ReadLatest in core/frame_channel.cpp, and the reader's steps.
use virtualaosp.Base.{
  ℕ, ◌+◌, ◌%◌, ◌≤◌, ◌<◌, Bool, ◌&&◌, true, false, none, some, ◌≡◌, refl, ap, subst, ◌∙◌, inl, inr,
  arith, ◌==◌, ltb, if◌then◌else◌,
}
use virtualaosp.Frame.Seqlock.{
  update, Frame, Phase, idle, copying, Stage, scanning, reading, finished, Reader, load, choose,
  check, take_byte, System, with_stage, after_take, Step, begins, puts, publishes, restarts, loads,
  chooses, takes, checks, Reach, here, next, fresh_region,
}
use virtualaosp.Frame.Seqlock.Invariant.{
  SameUpTo, Tracks, StageInv, PhaseInv, Inv, mark-Inv, put-Inv, publish-Inv,
}

reader-PhaseInv :
    (len : ℕ) (s : System) (r : Reader) (p : Phase)
    → PhaseInv len s p
    → PhaseInv len (record s { reader = r }) p
reader-PhaseInv len s r idle h = tt
reader-PhaseInv len s r (copying f k) h = h

-- A step of the reader changes the stage and the copy only.
reader-Inv :
    (len : ℕ) (s : System) (r : Reader)
    → Inv len s
    → StageInv len (record s { reader = r }) r.stage
    → Inv len (record s { reader = r })
reader-Inv len s r v h = record {
  even = v.even;
  bound = v.bound;
  stable = v.stable;
  phase = reader-PhaseInv len s r s.producer.phase v.phase;
  stage = h;
}

-- The stage's part of the invariant does not read the stage field.
Tracks-with_stage :
    (s : System) (g : Stage) (q slot k : ℕ) → Tracks s q slot k → Tracks (with_stage s g) q slot k
Tracks-with_stage s g q slot k r = record {
  pos = r.pos;
  even = r.even;
  past = r.past;
  below = r.below;
  same = r.same;
}

StageInv-with_stage :
    (len : ℕ) (s : System) (g h : Stage) → StageInv len s h → StageInv len (with_stage s g) h
StageInv-with_stage len s g (scanning i q slot) (inl z) = inl z
StageInv-with_stage len s g (scanning i q slot) (inr r) = inr (Tracks-with_stage s g q slot 0 r)
StageInv-with_stage len s g (reading q slot k) (le, r) = (le, Tracks-with_stage s g q slot k r)
StageInv-with_stage len s g (finished none) h = tt
StageInv-with_stage len s g (finished (some q)) h = h

stage-Inv :
    (len : ℕ) (s : System) (g : Stage) → Inv len s → StageInv len s g → Inv len (with_stage s g)
stage-Inv len s g v h =
    reader-Inv len s (record { dst = s.reader.dst; stage = g }) v (StageInv-with_stage len s g g h)

-- A slot with an even sequence number other than 0 starts a track.
start-Tracks :
    (len : ℕ) (s : System) (i : ℕ)
    → Inv len s
    → s.memory.sequence i % 2 ≡ 0
    → 0 < s.memory.sequence i
    → Tracks s (s.memory.sequence i) i 0
start-Tracks len s i v even pos = record {
  pos = pos;
  even = even;
  past = omega (arith, v.bound i, v.even);
  below = omega arith;
  same = λ e j lt. absurd (omega arith);
}

if_cases :
    {A : Type 0} (P : A → Type 0) (b : Bool) (x y : A)
    → (b ≡ true → P x)
    → (b ≡ false → P y)
    → P (if b then x else y)
if_cases P true x y on_true on_false = on_true refl
if_cases P false x y on_true on_false = on_false refl

load-StageInv :
    (len : ℕ) (s : System) (i q slot : ℕ)
    → Inv len s
    → StageInv len s (scanning i q slot)
    → StageInv len s (load s.memory i q slot)
unfolding load
load-StageInv len s i q slot v h =
    if_cases (StageInv len s) ((s.memory.sequence i % 2 == 0) && ltb q (s.memory.sequence i))
      (scanning (i + 1) (s.memory.sequence i) i) (scanning (i + 1) q slot)
      (λ hit. inr (start-Tracks len s i v (ground arith) (ground arith))) (λ miss. h)

choose-StageInv :
    (len : ℕ) (s : System) (i q slot : ℕ)
    → StageInv len s (scanning i q slot)
    → StageInv len s (choose q slot)
unfolding choose
choose-StageInv len s i q slot h =
    if_cases (StageInv len s) (q == 0) (finished none) (reading q slot 0) (λ hit. tt)
      (λ miss. elim h [ inl z ↦ absurd (ground arith) | inr r ↦ (omega arith, r) ])

check-StageInv :
    (len : ℕ) (s : System) (q slot : ℕ)
    → StageInv len s (reading q slot len)
    → StageInv len s (check s.memory q slot)
unfolding check
check-StageInv len s q slot (le, r) =
    if_cases (StageInv len s) (s.memory.sequence slot == q) (finished (some q)) (finished none)
      (λ hit. (r.pos, r.past, r.same (ground arith))) (λ miss. tt)

take-same :
    (len : ℕ) (s : System) (q slot k j : ℕ)
    → Inv len s
    → k < len
    → Tracks s q slot k
    → s.memory.sequence slot ≡ q
    → j < k + 1
    → update s.reader.dst k (s.memory.pixels slot k) j ≡ s.history q j
take-same len s q slot k j v lt r e lj =
    if_cases (λ x. x ≡ s.history q j) (k == j) (s.memory.pixels slot k) (s.reader.dst j)
      (λ hit.
        let kj : k ≡ j = ground arith in
        ap (s.memory.pixels slot) kj
        ∙ v.stable slot j (ap (λ x. x % 2) e ∙ r.even) (omega (arith, r.pos)) (omega arith)
        ∙ ap (λ x. s.history x j) e)
      (λ miss. r.same e j (ground arith))

take-Tracks :
    (len : ℕ) (s : System) (q slot k : ℕ)
    → Inv len s
    → k < len
    → Tracks s q slot k
    → Tracks (after_take q slot k s) q slot (k + 1)
unfolding take_byte
take-Tracks len s q slot k v lt r = record {
  pos = r.pos;
  even = r.even;
  past = r.past;
  below = r.below;
  same = λ e j lj. take-same len s q slot k j v lt r e lj;
}

take-Inv :
    (len : ℕ) (s : System) (q slot k : ℕ)
    → Inv len s
    → k < len
    → Tracks s q slot k
    → Inv len (after_take q slot k s)
take-Inv len s q slot k v lt r =
    reader-Inv len s
      (record { dst = take_byte s.memory slot k s.reader.dst; stage = reading q slot (k + 1) }) v
      (omega arith, take-Tracks len s q slot k v lt r)

Step-Inv : (len count : ℕ) {s t : System} → Step len count s t → Inv len s → Inv len t
Step-Inv len count {s} (begins frame e room) v = mark-Inv len s frame room v
Step-Inv len count {s} (puts frame k e lt) v = put-Inv len s frame k e lt v
Step-Inv len count {s} (publishes frame e) v = publish-Inv len count s frame e v
Step-Inv len count {s} restarts v = stage-Inv len s (scanning 0 0 0) v (inl refl)
Step-Inv len count {s} (loads i q slot e lt) v =
    stage-Inv len s (load s.memory i q slot) v
      (load-StageInv len s i q slot v (subst (StageInv len s) e v.stage))
Step-Inv len count {s} (chooses q slot e) v =
    stage-Inv len s (choose q slot) v
      (choose-StageInv len s count q slot (subst (StageInv len s) e v.stage))
Step-Inv len count {s} (takes q slot k e lt) v =
    let h : StageInv len s (reading q slot k) = subst (StageInv len s) e v.stage in
    take-Inv len s q slot k v lt h.1
Step-Inv len count {s} (checks q slot e) v =
    stage-Inv len s (check s.memory q slot) v
      (check-StageInv len s q slot (subst (StageInv len s) e v.stage))

Reach-Inv : (len count : ℕ) {s t : System} → Reach len count s t → Inv len s → Inv len t
Reach-Inv len count here v = v
Reach-Inv len count (next r step) v = Step-Inv len count step (Reach-Inv len count r v)

fresh-Inv :
    (len slot : ℕ) (pixels : ℕ → Frame) (dst : Frame) → Inv len (fresh_region slot pixels dst)
fresh-Inv len slot pixels dst = record {
  even = refl;
  bound = λ i. omega arith;
  stable = λ i j even pos lt. absurd (omega arith);
  phase = tt;
  stage = tt;
}

-- In every interleaving of a producer and a reader from a fresh region, where each published frame
-- has `len` bytes and the 64-bit counter does not run out, a snapshot that `ReadLatest` returns is,
-- byte for byte, the frame that was published under the sequence number it returns, and that
-- number is above 0 and at most the producer's counter.
pub snapshot_untorn :
    (len count slot : ℕ) (pixels : ℕ → Frame) (dst : Frame) (s : System) (q : ℕ)
    → Reach len count (fresh_region slot pixels dst) s
    → s.reader.stage ≡ finished (some q)
    → (0 < q) × (q ≤ s.producer.last_sequence) × SameUpTo len s.reader.dst (s.history q)
snapshot_untorn len count slot pixels dst s q r e =
    subst (StageInv len s) e (Reach-Inv len count r (fresh-Inv len slot pixels dst)).stage
