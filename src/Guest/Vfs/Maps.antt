-- ===== src/Guest/Vfs/Maps.antt =====
-- The sanitizer of /proc/self/maps in fake/vfs_emu.cpp, read line by line.
use virtualaosp.Base.{
  ℕ, zero, suc, ◌-◌, ◌≤◌, ◌<◌, false, Option, none, some, List, [], ◌∷◌, ◌++◌, ◌≡◌, refl, sym, ap,
  subst, ◌∙◌, inl, inr, arith, ◌==◌, leb, if◌then◌else◌, length, append_assoc, append-nil,
  Bool-cases, Bytes,
}
use virtualaosp.Guest.State.{State}
use virtualaosp.Guest.Libc.{Piece, got, signalled}
use virtualaosp.Guest.Vfs.Content.{
  line_buf, newline, emit_line, find_newline, drained, drain, emit_maps,
}

abbrev push_first : ℕ → List Bytes × Bytes → List Bytes × Bytes
push_first c ([], rest) = ([], c ∷ rest)
push_first c (l ∷ ls, rest) = ((c ∷ l) ∷ ls, rest)

-- The whole lines of a text, and what stands behind the last newline.
unfoldable pub lines_of : Bytes → List Bytes × Bytes
lines_of [] = ([], [])
lines_of (c ∷ s) =
    let (ls, rest) = lines_of s in if c == newline then ([] ∷ ls, rest) else push_first c (ls, rest)

-- Each line sanitized on its own.
abbrev pub sanitize : State → List Bytes → Bytes
sanitize s [] = []
sanitize s (l ∷ ls) = emit_line s l ++ sanitize s ls

abbrev pub all_text : List Piece → Bytes
all_text [] = []
all_text (signalled ∷ pieces) = all_text pieces
all_text (got bs ∷ pieces) = bs ++ all_text pieces

abbrev pub AllShort : List Bytes → Type 0
AllShort [] = Unit
AllShort (l ∷ ls) = (length l < line_buf - 1) × AllShort ls

-- Every line, and the text behind the last, leaves room in the buffer.
abbrev pub ShortLines : List Bytes × Bytes → Type 0
ShortLines (ls, rest) = AllShort ls × (length rest < line_buf - 1)

sanitize-append :
    (s : State) (a b : List Bytes) → sanitize s (a ++ b) ≡ sanitize s a ++ sanitize s b
sanitize-append s [] b = refl
sanitize-append s (l ∷ a) b =
    ap (◌++◌ (emit_line s l)) (sanitize-append s a b)
    ∙ sym (append_assoc (emit_line s l) (sanitize s a) (sanitize s b))

abbrev Found : Bytes → Option (Bytes × Bytes) → Type 0
Found buf none = lines_of buf ≡ ([], buf)
Found buf (some (line, rest)) =
    (lines_of buf ≡ (line ∷ (lines_of rest).0, (lines_of rest).1)) × (length rest < length buf)

Found-cons :
    (c : ℕ) (s : Bytes) (r : Option (Bytes × Bytes))
    → (c == newline) ≡ false
    → Found s r
    → Found (c ∷ s) (elim r [ none ↦ none | some (line, rest) ↦ some (c ∷ line, rest) ])
unfolding lines_of
Found-cons c s none miss h = ground arith
Found-cons c s (some (line, rest)) miss h = ground arith

find_newline-Found : (buf : Bytes) → Found buf (find_newline buf)
unfolding find_newline lines_of
find_newline-Found [] = refl
find_newline-Found (c ∷ s) = elim (Bool-cases (c == newline)) [
  | inl hit ↦ rw hit (ground arith, omega arith)
  | inr miss ↦ rw miss (Found-cons c s (find_newline s) miss (find_newline-Found s))
]

drained-lines_of :
    (s : State) (buf : Bytes) (r : Option (Bytes × Bytes)) (next : Bytes → Bytes × Bytes)
    → Found buf r
    → ((rest : Bytes)
        → length rest < length buf
        → next rest ≡ (sanitize s (lines_of rest).0, (lines_of rest).1))
    → drained s buf r next ≡ (sanitize s (lines_of buf).0, (lines_of buf).1)
drained-lines_of s buf none next f ih = rw f refl
drained-lines_of s buf (some (line, rest)) next f ih = rw (f.0, ih rest f.1) refl

drain-lines_of :
    (fuel : ℕ) (s : State) (buf : Bytes)
    → length buf < fuel
    → drain fuel s buf ≡ (sanitize s (lines_of buf).0, (lines_of buf).1)
unfolding drain
drain-lines_of zero s buf h = absurd (omega arith)
drain-lines_of (suc fuel) s buf h =
    drained-lines_of s buf (find_newline buf) (λ rest. drain fuel s rest) (find_newline-Found buf)
      (λ rest lt. drain-lines_of fuel s rest (omega arith))

-- The lines of a text behind `x`, where `x` are the lines of what stands before it.
abbrev then_lines : List Bytes × Bytes → Bytes → List Bytes × Bytes
then_lines x b = (x.0 ++ (lines_of (x.1 ++ b)).0, (lines_of (x.1 ++ b)).1)

push_first-then_lines :
    (c : ℕ) (x : List Bytes × Bytes) (b : Bytes)
    → (c == newline) ≡ false
    → push_first c (then_lines x b) ≡ then_lines (push_first c x) b
unfolding lines_of
push_first-then_lines c ([], rest) b miss = rw miss refl
push_first-then_lines c (l ∷ ls, rest) b miss = refl

lines_of-append : (a b : Bytes) → lines_of (a ++ b) ≡ then_lines (lines_of a) b
unfolding lines_of
lines_of-append [] b = refl
lines_of-append (c ∷ a) b = elim (Bool-cases (c == newline)) [
  | inl hit ↦ rw hit (ap (λ x. ([] ∷ x.0, x.1)) (lines_of-append a b))
  | inr miss ↦
      rw miss
        (ap (push_first c) (lines_of-append a b) ∙ push_first-then_lines c (lines_of a) b miss)
]

push_first-rest :
    (c : ℕ) (x : List Bytes × Bytes)
    → (c == newline) ≡ false
    → lines_of x.1 ≡ ([], x.1)
    → lines_of (push_first c x).1 ≡ ([], (push_first c x).1)
unfolding lines_of
push_first-rest c ([], rest) miss h = rw (miss, h) refl
push_first-rest c (l ∷ ls, rest) miss h = h

-- What stands behind the last newline has no newline.
lines_of-rest : (a : Bytes) → lines_of (lines_of a).1 ≡ ([], (lines_of a).1)
unfolding lines_of
lines_of-rest [] = refl
lines_of-rest (c ∷ a) = elim (Bool-cases (c == newline)) [
  | inl hit ↦ rw hit (lines_of-rest a)
  | inr miss ↦ rw miss (push_first-rest c (lines_of a) miss (lines_of-rest a))
]

abbrev first_line : List Bytes × Bytes → Bytes
first_line ([], rest) = rest
first_line (l ∷ ls, rest) = l

first_line_bound : (x : List Bytes × Bytes) → ShortLines x → length (first_line x) < line_buf - 1
first_line_bound ([], rest) h = h.1
first_line_bound (l ∷ ls, rest) h = h.0.0

first_line-push_first :
    (c : ℕ) (x : List Bytes × Bytes)
    → length (first_line (push_first c x)) ≡ suc (length (first_line x))
first_line-push_first c ([], rest) = refl
first_line-push_first c (l ∷ ls, rest) = refl

push_first-whole :
    (c : ℕ) (x : List Bytes × Bytes) (a : Bytes) → push_first c x ≡ ([], c ∷ a) → x ≡ ([], a)
push_first-whole c ([], rest) a h = ground arith
push_first-whole c (l ∷ ls, rest) a h = cc

first_line-append :
    (a b : Bytes) → lines_of a ≡ ([], a) → length a ≤ length (first_line (lines_of (a ++ b)))
unfolding lines_of
first_line-append [] b h = omega arith
first_line-append (c ∷ a) b h = elim (Bool-cases (c == newline)) [
  | inl hit ↦ cc (
      subst
        (λ t.
          (if t then ([] ∷ (lines_of a).0, (lines_of a).1) else push_first c (lines_of a))
          ≡ ([], c ∷ a))
        hit h)
  | inr miss ↦
      let h' : push_first c (lines_of a) ≡ ([], c ∷ a) =
        subst
          (λ t.
            (if t then ([] ∷ (lines_of a).0, (lines_of a).1) else push_first c (lines_of a))
            ≡ ([], c ∷ a))
          miss h in
      rw miss (
        omega (
          arith,
          first_line-push_first c (lines_of (a ++ b)),
          first_line-append a b (push_first-whole c (lines_of a) a h'),
        ))
]

AllShort-append : (a b : List Bytes) → AllShort (a ++ b) → AllShort b
AllShort-append [] b h = h
AllShort-append (l ∷ a) b h = AllShort-append a b h.1

-- What the outer loop does with the output and the rest of one round.
abbrev go_on : State → List Piece → Bytes × Bytes → Bytes
go_on s pieces (out, left) =
    out ++ emit_maps s pieces (if leb (line_buf - 1) (length left) then [] else left)

go_on_room :
    (s : State) (pieces : List Piece) (out left : Bytes)
    → length left < line_buf - 1
    → go_on s pieces (out, left) ≡ out ++ emit_maps s pieces left
go_on_room s pieces out left room =
    let fits : leb (line_buf - 1) (length left) ≡ false = ground arith in rw fits refl

emit_maps_from :
    (s : State) (pieces : List Piece) (buf : Bytes)
    → lines_of buf ≡ ([], buf)
    → ShortLines (lines_of (buf ++ all_text pieces))
    → emit_maps s pieces buf ≡ sanitize s (lines_of (buf ++ all_text pieces)).0
unfolding emit_maps
emit_maps_from s [] buf whole short = rw (append-nil buf, whole) refl
emit_maps_from s (signalled ∷ pieces) buf whole short = emit_maps_from s pieces buf whole short
emit_maps_from s (got bs ∷ pieces) buf whole short =
    let all = buf ++ bs in
    let left = (lines_of all).1 in
    let more = lines_of (left ++ all_text pieces) in
    let joined : lines_of (buf ++ (bs ++ all_text pieces)) ≡ ((lines_of all).0 ++ more.0, more.1) =
      ap lines_of (sym (append_assoc buf bs (all_text pieces)))
      ∙ lines_of-append all (all_text pieces) in
    let still : ShortLines ((lines_of all).0 ++ more.0, more.1) = subst ShortLines joined short in
    let short' : ShortLines more = (AllShort-append (lines_of all).0 more.0 still.0, still.1) in
    let room : length left < line_buf - 1 = omega (
      arith,
      first_line-append left (all_text pieces) (lines_of-rest all),
      first_line_bound more short',
    ) in
    ap (go_on s pieces) (drain-lines_of (suc (length all)) s all (omega arith))
    ∙ go_on_room s pieces (sanitize s (lines_of all).0) left room
    ∙ ap (λ t. sanitize s (lines_of all).0 ++ t)
        (emit_maps_from s pieces left (lines_of-rest all) short')
    ∙ sym (sanitize-append s (lines_of all).0 more.0)
    ∙ ap (λ x. sanitize s x.0) (sym joined)

-- If every line of the maps is shorter than 4095 bytes, the guest sees each whole line sanitized
-- on its own, however read(2) cuts the text and is interrupted.
pub emit_maps-sanitize :
    (s : State) (pieces : List Piece)
    → ShortLines (lines_of (all_text pieces))
    → emit_maps s pieces [] ≡ sanitize s (lines_of (all_text pieces)).0
emit_maps-sanitize s pieces short = emit_maps_from s pieces [] (unfold lines_of in refl) short
