-- ===== src/Frame/Seqlock/Invariant.antt =====
-- The invariant of core/frame_channel.cpp and fake/frame_producer.cpp, and the producer's steps.
use virtualaosp.Base.{
  ℕ, ◌+◌, ◌%◌, ◌^◌, ◌≤◌, ◌<◌, none, some, ◌≡◌, refl, sym, ap, subst, ◌∙◌, ◌⊎◌, inl, inr, arith,
}
use virtualaosp.Frame.Seqlock.{
  Frame, Phase, idle, copying, mark, put_byte, publish, Stage, scanning, reading, finished, Reader,
  System, after_mark, after_put, after_publish,
}

-- The first `n` bytes of two frames are equal.
abbrev pub SameUpTo : ℕ → Frame → Frame → Type 0
SameUpTo n f g = (j : ℕ) → j < n → f j ≡ g j

-- What the reader knows of the slot that it copies: as long as the slot's sequence number is
-- still the one loaded, the copied bytes are those of the frame published under it.
pub record Tracks (s : System) (q slot k : ℕ) : Type 0 where
  pub pos : 0 < q
  pub even : q % 2 ≡ 0
  pub past : q ≤ s.producer.last_sequence
  pub below : q ≤ s.memory.sequence slot
  pub same : s.memory.sequence slot ≡ q → SameUpTo k s.reader.dst (s.history q)

abbrev pub StageInv : ℕ → System → Stage → Type 0
StageInv len s (scanning i q slot) = (q ≡ 0) ⊎ Tracks s q slot 0
StageInv len s (reading q slot k) = (k ≤ len) × Tracks s q slot k
StageInv len s (finished none) = Unit
StageInv len s (finished (some q)) =
    (0 < q) × (q ≤ s.producer.last_sequence) × SameUpTo len s.reader.dst (s.history q)

abbrev pub PhaseInv : ℕ → System → Phase → Type 0
PhaseInv len s idle = Unit
PhaseInv len s (copying f k) =
    (k ≤ len)
    × (s.producer.last_sequence + 2 < 2 ^ 64)
    × (s.memory.sequence s.producer.next_slot ≡ s.producer.last_sequence + 1)
    × SameUpTo k (s.memory.pixels s.producer.next_slot) f

pub record Inv (len : ℕ) (s : System) : Type 0 where
  pub even : s.producer.last_sequence % 2 ≡ 0
  pub bound : (i : ℕ) → s.memory.sequence i ≤ s.producer.last_sequence + 1
  pub stable :
      (i j : ℕ)
      → s.memory.sequence i % 2 ≡ 0
      → 0 < s.memory.sequence i
      → j < len
      → s.memory.pixels i j ≡ s.history (s.memory.sequence i) j
  pub phase : PhaseInv len s s.producer.phase
  pub stage : StageInv len s s.reader.stage

-- A change of the system that leaves the reader alone, never lowers the counter, sets sequence
-- numbers only to values above the old counter, and changes the history only above it.
record Later (s t : System) : Type 0 where
  last : s.producer.last_sequence ≤ t.producer.last_sequence
  moves :
      (i : ℕ)
      → (t.memory.sequence i ≡ s.memory.sequence i)
        ⊎ (s.producer.last_sequence < t.memory.sequence i)
  kept : (q : ℕ) → q ≤ s.producer.last_sequence → t.history q ≡ s.history q
  reader : t.reader ≡ s.reader

Later-same :
    (s t : System) (q slot j : ℕ)
    → Later s t
    → q ≤ s.producer.last_sequence
    → s.reader.dst j ≡ s.history q j
    → t.reader.dst j ≡ t.history q j
Later-same s t q slot j l past e =
    ap (λ (r : Reader). r.dst j) l.reader ∙ e ∙ ap (λ (f : Frame). f j) (sym (l.kept q past))

Tracks-Later : (s t : System) (q slot k : ℕ) → Later s t → Tracks s q slot k → Tracks t q slot k
Tracks-Later s t q slot k l r = record {
  pos = r.pos;
  even = r.even;
  past = omega (arith, l.last, r.past);
  below = ground (arith, l.moves slot, r.past, r.below);
  same = λ e j lt. elim (l.moves slot) [
    | inl still ↦ Later-same s t q slot j l r.past (r.same (sym still ∙ e) j lt)
    | inr above ↦ absurd (omega (arith, r.past))
  ];
}

StageInv-Later :
    (len : ℕ) (s t : System) (stage : Stage)
    → Later s t
    → StageInv len s stage
    → StageInv len t stage
StageInv-Later len s t (scanning i q slot) l (inl none_yet) = inl none_yet
StageInv-Later len s t (scanning i q slot) l (inr r) = inr (Tracks-Later s t q slot 0 l r)
StageInv-Later len s t (reading q slot k) l (le, r) = (le, Tracks-Later s t q slot k l r)
StageInv-Later len s t (finished none) l h = tt
StageInv-Later len s t (finished (some q)) l (pos, past, same) =
    (pos, omega (arith, l.last), λ j lt. Later-same s t q 0 j l past (same j lt))

mark-Later :
    (s : System) (f : Frame) → s.producer.last_sequence + 2 < 2 ^ 64 → Later s (after_mark f s)
unfolding mark
mark-Later s f room = record {
  last = omega arith;
  moves = λ i. ground arith;
  kept = λ q le. refl;
  reader = refl;
}

put-Later : (s : System) (f : Frame) (k : ℕ) → Later s (after_put f k s)
unfolding put_byte
put-Later s f k = record {
  last = omega arith;
  moves = λ i. inl refl;
  kept = λ q le. refl;
  reader = refl;
}

publish-Later :
    (s : System) (count : ℕ) (f : Frame)
    → s.producer.last_sequence + 2 < 2 ^ 64
    → Later s (after_publish count f s)
unfolding publish
publish-Later s count f room = record {
  last = omega arith;
  moves = λ i. ground arith;
  kept = λ q le. ground arith;
  reader = refl;
}

pub mark-Inv :
    (len : ℕ) (s : System) (f : Frame)
    → s.producer.last_sequence + 2 < 2 ^ 64
    → Inv len s
    → Inv len (after_mark f s)
mark-Inv len s f room v = record {
  even = unfold mark in v.even;
  bound = unfold mark in λ i. ground (arith, v.bound i);
  stable = unfold mark in λ i j even pos lj. ground (arith, v.stable i j, v.even);
  phase = unfold mark in (omega arith, room, ground arith, λ j lt. absurd (omega arith));
  stage = StageInv-Later len s (after_mark f s) s.reader.stage (mark-Later s f room) v.stage;
}

pub put-Inv :
    (len : ℕ) (s : System) (f : Frame) (k : ℕ)
    → s.producer.phase ≡ copying f k
    → k < len
    → Inv len s
    → Inv len (after_put f k s)
put-Inv len s f k e lt v =
    let p : PhaseInv len s (copying f k) = subst (PhaseInv len s) e v.phase in
    record {
      even = unfold put_byte in v.even;
      bound = unfold put_byte in v.bound;
      stable = unfold put_byte in λ i j even pos lj. ground (arith, v.stable i j, v.even, p.2);
      phase = unfold put_byte in (omega arith, p.1, p.2, λ j lj. ground (arith, p.3 j));
      stage = StageInv-Later len s (after_put f k s) s.reader.stage (put-Later s f k) v.stage;
    }

pub publish-Inv :
    (len count : ℕ) (s : System) (f : Frame)
    → s.producer.phase ≡ copying f len
    → Inv len s
    → Inv len (after_publish count f s)
publish-Inv len count s f e v =
    let p : PhaseInv len s (copying f len) = subst (PhaseInv len s) e v.phase in
    record {
      even = unfold publish in omega (arith, v.even, p.1);
      bound = unfold publish in λ i. ground (arith, v.bound i, p.1);
      stable =
          unfold publish in
          λ i j even pos lj. ground (arith, v.stable i j, v.even, v.bound i, p.1, p.2, p.3 j);
      phase = unfold publish in tt;
      stage =
          StageInv-Later len s (after_publish count f s) s.reader.stage
            (publish-Later s count f p.1) v.stage;
    }
