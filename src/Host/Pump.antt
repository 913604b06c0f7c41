-- ===== src/Host/Pump.antt =====
-- The two readers of a guest's output: logcatPump of core/launcher.cpp and the log thread of
-- `startContainer` in core/guest_launcher.cpp. A reader sees the pieces that read(2) returns up to
-- the end of the pipe; the lines it logs are its result.
use virtualaosp.Base.{
  ℕ, Bool, true, false, List, [], ◌∷◌, ◌++◌, ◌≡◌, refl, ap, ap₂, ◌∙◌, sym, arith, ◌==◌, inl, inr,
  if◌then◌else◌, append_assoc, append-nil, Bool-cases, Bytes,
}
use virtualaosp.Host.Interp.{until_nul}

abbrev newline : ℕ
newline = 10

abbrev carriage_return : ℕ
carriage_return = 13

-- The open line, and the lines logged so far.
pub record Reader : Type 0 where
  pub line : Bytes
  pub logged : List Bytes

abbrev pub fresh : Reader
fresh = record { line = []; logged = [] }

-- A character of logcatPump; "%s" of c_str() prints a line up to its first NUL.
abbrev pub take_char : Reader → ℕ → Reader
take_char r c =
    if c == newline
    then record { line = []; logged = r.logged ++ (until_nul r.line ∷ []) }
    else record r { line = r.line ++ (c ∷ []) }

-- A line that is not empty, as "%s" of its c_str() prints it.
abbrev pub log_line : Bytes → List Bytes → List Bytes
log_line [] logged = logged
log_line (c ∷ line) logged = logged ++ (until_nul (c ∷ line) ∷ [])

-- A character of the log thread: it logs no empty line and drops carriage returns.
abbrev pub take_guest_char : Reader → ℕ → Reader
take_guest_char r c =
    if c == newline
    then record { line = []; logged = log_line r.line r.logged }
    else if c == carriage_return
    then r
    else record r { line = r.line ++ (c ∷ []) }

-- The for loop over one piece.
unfoldable pub take_piece : Reader → Bytes → Reader
take_piece r [] = r
take_piece r (c ∷ cs) = take_piece (take_char r c) cs

unfoldable pub take_guest_piece : Reader → Bytes → Reader
take_guest_piece r [] = r
take_guest_piece r (c ∷ cs) = take_guest_piece (take_guest_char r c) cs

-- The while loop over the pieces.
unfoldable pub take_pieces : Reader → List Bytes → Reader
unfolding take_piece
take_pieces r [] = r
take_pieces r (p ∷ ps) = take_pieces (take_piece r p) ps

unfoldable pub take_guest_pieces : Reader → List Bytes → Reader
unfolding take_guest_piece
take_guest_pieces r [] = r
take_guest_pieces r (p ∷ ps) = take_guest_pieces (take_guest_piece r p) ps

-- `if (!line.empty())` behind the loop.
abbrev pub last_line : Reader → List Bytes
last_line r = log_line r.line r.logged

unfoldable pub logcat_pump : List Bytes → List Bytes
unfolding take_pieces
logcat_pump pieces = last_line (take_pieces fresh pieces)

unfoldable pub guest_log_pump : List Bytes → List Bytes
unfolding take_guest_pieces
guest_log_pump pieces = last_line (take_guest_pieces fresh pieces)

abbrev pub open_line : Bytes → List Bytes
open_line [] = []
open_line (c ∷ line) = (c ∷ line) ∷ []

-- What is printed of lines: each up to its first NUL.
abbrev pub printed : List Bytes → List Bytes
printed [] = []
printed (line ∷ ls) = until_nul line ∷ printed ls

-- The lines of a text, an open last line included, in front of which `line` stands.
unfoldable pub lines_from : Bytes → Bytes → List Bytes
lines_from line [] = open_line line
lines_from line (c ∷ cs) =
    let rest = lines_from [] cs in
    let longer = lines_from (line ++ (c ∷ [])) cs in if c == newline then line ∷ rest else longer

-- The text without its carriage returns, and the lines that are not empty.
unfoldable pub without_returns : Bytes → Bytes
without_returns [] = []
without_returns (c ∷ cs) =
    let rest = without_returns cs in if c == carriage_return then rest else c ∷ rest

unfoldable pub filled : List Bytes → List Bytes
filled [] = []
filled ([] ∷ ls) = filled ls
filled ((c ∷ l) ∷ ls) = (c ∷ l) ∷ filled ls

abbrev pub concat : List Bytes → Bytes
concat [] = []
concat (p ∷ ps) = p ++ concat ps

log_line-append :
    (line : Bytes) (ls : List Bytes) → log_line line ls ≡ ls ++ printed (open_line line)
log_line-append [] ls = sym (append-nil ls)
log_line-append (c ∷ line) ls = refl

take_piece-append :
    (r : Reader) (xs ys : Bytes) → take_piece r (xs ++ ys) ≡ take_piece (take_piece r xs) ys
unfolding take_piece
take_piece-append r [] ys = refl
take_piece-append r (x ∷ xs) ys = take_piece-append (take_char r x) xs ys

take_pieces-concat : (r : Reader) (ps : List Bytes) → take_pieces r ps ≡ take_piece r (concat ps)
unfolding take_pieces take_piece
take_pieces-concat r [] = refl
take_pieces-concat r (p ∷ ps) =
    take_pieces-concat (take_piece r p) ps ∙ sym (take_piece-append r p (concat ps))

lines_from-newline :
    (line : Bytes) (c : ℕ) (cs : Bytes)
    → (c == newline) ≡ true
    → lines_from line (c ∷ cs) ≡ line ∷ lines_from [] cs
unfolding lines_from
lines_from-newline line c cs h = rw h refl

lines_from-char :
    (line : Bytes) (c : ℕ) (cs : Bytes)
    → (c == newline) ≡ false
    → lines_from line (c ∷ cs) ≡ lines_from (line ++ (c ∷ [])) cs
unfolding lines_from
lines_from-char line c cs h = rw h refl

last-take_piece :
    (r : Reader) (cs : Bytes)
    → last_line (take_piece r cs) ≡ r.logged ++ printed (lines_from r.line cs)
unfolding take_piece
last-take_piece r [] = (unfold lines_from in log_line-append r.line r.logged)
last-take_piece r (c ∷ cs) =
    let ended : Reader = record { line = []; logged = r.logged ++ (until_nul r.line ∷ []) } in
    let longer : Reader = record r { line = r.line ++ (c ∷ []) } in
    elim (Bool-cases (c == newline)) [
      | inl h ↦
          ap (λ b. last_line (take_piece (if b then ended else longer) cs)) h
          ∙ last-take_piece ended cs
          ∙ append_assoc r.logged (until_nul r.line ∷ []) (printed (lines_from [] cs))
          ∙ ap (λ l. r.logged ++ printed l) (sym (lines_from-newline r.line c cs h))
      | inr h ↦
          ap (λ b. last_line (take_piece (if b then ended else longer) cs)) h
          ∙ last-take_piece longer cs
          ∙ ap (λ l. r.logged ++ printed l) (sym (lines_from-char r.line c cs h))
    ]

take_guest_piece-append :
    (r : Reader) (xs ys : Bytes)
    → take_guest_piece r (xs ++ ys) ≡ take_guest_piece (take_guest_piece r xs) ys
unfolding take_guest_piece
take_guest_piece-append r [] ys = refl
take_guest_piece-append r (x ∷ xs) ys = take_guest_piece-append (take_guest_char r x) xs ys

take_guest_pieces-concat :
    (r : Reader) (ps : List Bytes) → take_guest_pieces r ps ≡ take_guest_piece r (concat ps)
unfolding take_guest_pieces take_guest_piece
take_guest_pieces-concat r [] = refl
take_guest_pieces-concat r (p ∷ ps) =
    take_guest_pieces-concat (take_guest_piece r p) ps
    ∙ sym (take_guest_piece-append r p (concat ps))

filled-open_line : (line : Bytes) → filled (open_line line) ≡ open_line line
unfolding filled
filled-open_line [] = refl
filled-open_line (c ∷ line) = refl

printed-filled :
    (line : Bytes) (ls : List Bytes)
    → printed (filled (line ∷ ls)) ≡ printed (open_line line) ++ printed (filled ls)
unfolding filled
printed-filled [] ls = refl
printed-filled (c ∷ line) ls = refl

without_returns-drop :
    (c : ℕ) (cs : Bytes)
    → (c == carriage_return) ≡ true
    → without_returns (c ∷ cs) ≡ without_returns cs
unfolding without_returns
without_returns-drop c cs h = rw h refl

without_returns-keep :
    (c : ℕ) (cs : Bytes)
    → (c == carriage_return) ≡ false
    → without_returns (c ∷ cs) ≡ c ∷ without_returns cs
unfolding without_returns
without_returns-keep c cs h = rw h refl

newline-kept : (c : ℕ) → (c == newline) ≡ true → (c == carriage_return) ≡ false
newline-kept c h = ground arith

last-take_guest_piece :
    (r : Reader) (cs : Bytes)
    → last_line (take_guest_piece r cs)
      ≡ r.logged ++ printed (filled (lines_from r.line (without_returns cs)))
unfolding take_guest_piece
last-take_guest_piece r [] =
    unfold without_returns lines_from in
    log_line-append r.line r.logged
    ∙ ap (λ l. r.logged ++ printed l) (sym (filled-open_line r.line))
last-take_guest_piece r (c ∷ cs) =
    let ended : Reader = record { line = []; logged = log_line r.line r.logged } in
    let longer : Reader = record r { line = r.line ++ (c ∷ []) } in
    let rest = without_returns cs in
    let after : Bool → Bool → List Bytes =
      λ b b'. last_line (take_guest_piece (if b then ended else if b' then r else longer) cs) in
    elim (Bool-cases (c == newline)) [
      | inl h ↦
          ap (λ b. after b (c == carriage_return)) h
          ∙ last-take_guest_piece ended cs
          ∙ ap (λ l. l ++ printed (filled (lines_from [] rest))) (log_line-append r.line r.logged)
          ∙ append_assoc r.logged (printed (open_line r.line))
              (printed (filled (lines_from [] rest)))
          ∙ ap (λ l. r.logged ++ l)
              (sym (printed-filled r.line (lines_from [] rest))
                ∙ sym (
                    ap (λ l. printed (filled l))
                      (ap (lines_from r.line) (without_returns-keep c cs (newline-kept c h))
                        ∙ lines_from-newline r.line c rest h)))
      | inr h ↦ elim (Bool-cases (c == carriage_return)) [
        | inl cr ↦
            ap₂ after h cr
            ∙ last-take_guest_piece r cs
            ∙ ap (λ t. r.logged ++ printed (filled (lines_from r.line t)))
                (sym (without_returns-drop c cs cr))
        | inr kept ↦
            ap₂ after h kept
            ∙ last-take_guest_piece longer cs
            ∙ ap (λ l. r.logged ++ printed (filled l))
                (sym (
                  ap (lines_from r.line) (without_returns-keep c cs kept)
                  ∙ lines_from-char r.line c rest h))
      ]
    ]

-- Both readers log lines that do not depend on how read(2) cut the output: logcatPump the lines of
-- the whole text, and the log thread those of the text without carriage returns that are not empty,
-- each line up to its first NUL.
pub pumps_log_lines :
    (pieces : List Bytes)
    → (logcat_pump pieces ≡ printed (lines_from [] (concat pieces)))
      × (guest_log_pump pieces ≡ printed (filled (lines_from [] (without_returns (concat pieces)))))
unfolding logcat_pump guest_log_pump
pumps_log_lines pieces = (
  ap last_line (take_pieces-concat fresh pieces) ∙ last-take_piece fresh (concat pieces),
  ap last_line (take_guest_pieces-concat fresh pieces)
      ∙ last-take_guest_piece fresh (concat pieces),
)
