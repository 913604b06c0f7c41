-- ===== src/Guest/Vfs/View.antt =====
-- The paths that the sanitizer of /proc/self/maps in fake/vfs_emu.cpp shows.
use virtualaosp.Base.{
  ◌+◌, ◌<◌, true, false, none, some, [], ◌∷◌, ◌++◌, ◌≡◌, refl, ap, ◌∙◌, arith, if◌then◌else◌,
  length, Bytes, is_absolute,
}
use virtualaosp.Guest.State.{State}
use virtualaosp.Guest.Redirect.{Engine, starts_with_rootfs, mapped, bypasses, map_path, unmap_path}
use virtualaosp.Guest.Redirect.Confine.{IsActive, guest_view}
use virtualaosp.Guest.Redirect.RoundTrip.{unmap-map_path, unmap_path-append, guest_view-absolute}
use virtualaosp.Guest.Translate.{path_buf_size}
use virtualaosp.Guest.Vfs.Content.{line_buf, line_of, skip_fields, emit_line}

-- An absolute path stays absolute behind the root.
root-absolute : (r y : Bytes) → is_absolute r ≡ true → is_absolute (r ++ y) ≡ true
unfolding is_absolute
root-absolute [] y h = cc
root-absolute (c ∷ r) y h = h

abbrev shown_line : State → Bytes → Bytes × Bytes → Bytes
shown_line s line (head, p) =
    if is_absolute p
    then elim (unmap_path s p line_buf) [ some unmapped ↦ head ++ line_of unmapped | none ↦ [] ]
    else line_of line

emit_line-fields :
    (s : State) (line head p shown : Bytes)
    → skip_fields 5 line ≡ (head, p)
    → is_absolute p ≡ true
    → unmap_path s p line_buf ≡ some shown
    → emit_line s line ≡ head ++ line_of shown
unfolding emit_line
emit_line-fields s line head p shown f a u =
    ap (λ (x : Bytes × Bytes). shown_line s line x) f ∙ rw (a, u) refl

emit_line-hidden :
    (s : State) (line head p : Bytes)
    → skip_fields 5 line ≡ (head, p)
    → is_absolute p ≡ true
    → starts_with_rootfs s p ≡ false
    → emit_line s line ≡ []
unfolding emit_line unmap_path
emit_line-hidden s line head p f a out =
    ap (λ (x : Bytes × Bytes). shown_line s line x) f ∙ rw (a, out) refl

-- Where an active engine maps a path, the guest reads back, in a line of the maps whose path field
-- is the mapped file, its own view of the path behind the same five fields; a line whose path
-- field is absolute and outside the sandbox is left out.
pub emit_line-guest_view :
    (e : Engine) (p line other head head' host : Bytes)
    → IsActive e
    → is_absolute p ≡ true
    → bypasses e p ≡ false
    → length e.root + length (guest_view e p) < line_buf
    → skip_fields 5 line ≡ (head, e.root ++ guest_view e p)
    → skip_fields 5 other ≡ (head', host)
    → is_absolute host ≡ true
    → starts_with_rootfs e.state host ≡ false
    → (map_path e (some p) path_buf_size ≡ mapped (e.root ++ guest_view e p))
      × (emit_line e.state line ≡ head ++ line_of (guest_view e p))
      × (emit_line e.state other ≡ [])
emit_line-guest_view e p line other head head' host v a b room f f' h out = (
  (unmap-map_path e p path_buf_size v a b (omega arith)).0,
  emit_line-fields e.state line head (e.root ++ guest_view e p) (guest_view e p) f
      (root-absolute e.root (guest_view e p) v.rooted.absolute)
      (unmap_path-append e (guest_view e p) line_buf v (guest_view-absolute e p v a) (omega arith)),
  emit_line-hidden e.state other head' host f' h out,
)
