-- ===== src/Guest/Vfs/Content.antt =====
-- What the emulated files of fake/vfs_emu.cpp hold: copy_file, emit_mount_list, emit_maps and
-- stream_sanitized_status. Their writes go to a memfd, which takes them whole.
use virtualaosp.Base.{
  ℕ, zero, suc, ◌-◌, Bool, ◌||◌, Option, none, some, List, [], ◌∷◌, ◌++◌, leb, ◌==◌, if◌then◌else◌,
  length, Bytes, codes, strip_prefix, is_absolute,
}
use virtualaosp.Base.Int.{ℤ}
use virtualaosp.Guest.State.{State}
use virtualaosp.Guest.Libc.{Piece, got, signalled}
use virtualaosp.Guest.Redirect.{unmap_path}
use virtualaosp.Guest.Vfs.{starts}

-- kLineBuf
abbrev pub line_buf : ℕ
line_buf = 4096

-- copy_file: a call that is interrupted ends the copy.
unfoldable pub copy_file : List Piece → Bytes
copy_file [] = []
copy_file (signalled ∷ pieces) = []
copy_file (got bs ∷ pieces) = bs ++ copy_file pieces

abbrev pub newline : ℕ
newline = 10

abbrev pub tab : ℕ
tab = 9

abbrev pub line_of : Bytes → Bytes
line_of text = text ++ (newline ∷ [])

-- emit_mount_list: the fixed table, and the value of AC_MOUNTS if it is set and not empty.
unfoldable pub emit_mount_list : Option Bytes → Bytes
emit_mount_list extra =
    line_of (codes "rootfs / rootfs rw 0 0")
    ++ (line_of (codes "/dev /dev devtmpfs rw 0 0")
        ++ (line_of (codes "/dev/pts /dev/pts devpts rw 0 0")
            ++ (line_of (codes "/proc /proc proc rw 0 0")
                ++ (line_of (codes "/sys /sys sysfs rw 0 0")
                    ++ (line_of (codes "/system /system ext4 ro 0 0")
                        ++ (line_of (codes "/vendor /vendor ext4 ro 0 0")
                            ++ (line_of (codes "/product /product ext4 ro 0 0")
                                ++ (line_of (codes "/apex /apex tmpfs ro 0 0")
                                    ++ (line_of (codes "/data /data ext4 rw,nosuid,nodev 0 0")
                                        ++ (line_of (codes "/cache /cache ext4 rw,nosuid,nodev 0 0")
                                            ++ elim extra [
                                              | none ↦ []
                                              | some [] ↦ []
                                              | some (c ∷ text) ↦ line_of (c ∷ text)
                                            ]))))))))))

abbrev pub is_blank : ℕ → Bool
is_blank c = (c == b' ') || (c == tab)

-- `while (*p == ' ' || *p == '\t') ++p;`: what is skipped, and the rest.
unfoldable pub skip_blanks : Bytes → Bytes × Bytes
skip_blanks [] = ([], [])
skip_blanks (c ∷ p) =
    let (skipped, rest) = skip_blanks p in if is_blank c then (c ∷ skipped, rest) else ([], c ∷ p)

-- `while (*p && *p != ' ' && *p != '\t') ++p;`
unfoldable pub skip_word : Bytes → Bytes × Bytes
skip_word [] = ([], [])
skip_word (c ∷ p) =
    let (skipped, rest) = skip_word p in if is_blank c then ([], c ∷ p) else (c ∷ skipped, rest)

-- Up to `n` fields, and the blanks behind them.
unfoldable pub skip_fields : ℕ → Bytes → Bytes × Bytes
unfolding skip_blanks skip_word
skip_fields zero p = skip_blanks p
skip_fields (suc n) [] = ([], [])
skip_fields (suc n) (c ∷ p) =
    let (blanks, q) = skip_blanks (c ∷ p) in
    let (word, r) = skip_word q in
    let (more, rest) = skip_fields n r in (blanks ++ (word ++ more), rest)

-- One line of the maps, without its newline.
unfoldable pub emit_line : State → Bytes → Bytes
unfolding skip_fields is_absolute
emit_line s line =
    let (head, p) = skip_fields 5 line in
    if is_absolute p
    then elim (unmap_path s p line_buf) [ some unmapped ↦ head ++ line_of unmapped | none ↦ [] ]
    else line_of line

-- `strchr(line, '\n')`: the text before the newline and behind it.
unfoldable pub find_newline : Bytes → Option (Bytes × Bytes)
find_newline [] = none
find_newline (c ∷ s) =
    let later = find_newline s in
    if c == newline
    then some ([], s)
    else elim later [ none ↦ none | some (line, rest) ↦ some (c ∷ line, rest) ]

-- A round of the inner loop: a whole line of the buffer goes out, or the buffer stays.
abbrev pub drained :
    State → Bytes → Option (Bytes × Bytes) → (Bytes → Bytes × Bytes) → Bytes × Bytes
drained s buf none next = ([], buf)
drained s buf (some (line, rest)) next =
    let (out, left) = next rest in (emit_line s line ++ out, left)

-- The inner loop; the fuel bounds the lines.
unfoldable pub drain : ℕ → State → Bytes → Bytes × Bytes
unfolding find_newline emit_line
drain zero s buf = ([], buf)
drain (suc fuel) s buf = drained s buf (find_newline buf) (λ rest. drain fuel s rest)

-- emit_maps from a buffer; each line has a newline, so the length of the buffer is fuel enough. A
-- buffer that is full is dropped.
unfoldable pub emit_maps : State → List Piece → Bytes → Bytes
unfolding drain
emit_maps s [] buf = []
emit_maps s (signalled ∷ pieces) buf = emit_maps s pieces buf
emit_maps s (got bs ∷ pieces) buf =
    let (out, left) = drain (suc (length (buf ++ bs))) s (buf ++ bs) in
    out ++ emit_maps s pieces (if leb (line_buf - 1) (length left) then [] else left)

-- "CapI", "CapP", "CapE", "CapB" and "CapA"
abbrev pub is_cap_line : Bytes → Bool
is_cap_line line =
    starts (codes "CapI") line
    || (starts (codes "CapP") line
        || (starts (codes "CapE") line
            || (starts (codes "CapB") line || starts (codes "CapA") line)))

-- The text up to the first colon, with it; `none` if there is no colon.
unfoldable pub label : Bytes → Option Bytes
label [] = none
label (c ∷ s) =
    let later = label s in
    if c == b':' then some (c ∷ []) else elim later [ none ↦ none | some l ↦ some (c ∷ l) ]

abbrev pub id_line : Bytes → Bytes → Bytes
id_line name id = line_of (name ++ (tab ∷ id ++ (tab ∷ id ++ (tab ∷ id ++ (tab ∷ id)))))

-- One string that fgets returned.
unfoldable pub status_line : (ℤ → Bytes) → State → Bytes → Bytes
unfolding strip_prefix label
status_line print s line =
    if starts (codes "Uid:") line
    then id_line (codes "Uid:") (print s.fake_uid)
    else if starts (codes "Gid:") line
    then id_line (codes "Gid:") (print s.fake_gid)
    else if is_cap_line line
    then elim (label line) [ none ↦ [] | some l ↦ line_of (l ++ codes "00000000ffffffff") ]
    else line

unfoldable pub sanitized_status : (ℤ → Bytes) → State → List Bytes → Bytes
unfolding status_line
sanitized_status print s [] = []
sanitized_status print s (line ∷ lines) = status_line print s line ++ sanitized_status print s lines
