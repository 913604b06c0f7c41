-- ===== src/Frame/Producer.antt =====
-- fake/frame_producer.cpp without the copying of `frame_publish`: the attachment to the region
-- that a descriptor from the environment names, and the queries. The kernel's calls on descriptors
-- and strtol(3) are parameters.
use Prim.Native.String.{String}
use virtualaosp.Base.{
  ℕ, ◌+◌, ◌-◌, ◌*◌, ◌/◌, ◌%◌, ◌^◌, Bool, true, false, not, ◌&&◌, Option, none, some, ◌∷◌, ◌≡◌, refl,
  ap, ap₂, ◌∙◌, arith, ◌==◌, ltb, if◌then◌else◌, Bytes,
}
use virtualaosp.Base.Int.{ℤ, to_int}
use virtualaosp.Frame.Layout.{
  AcFrameRegionHeader, Channel, frame_magic, frame_version, page_size, ac_frame_region_size, create,
}

-- fcntl(fd, F_GETFD), pread of a whole header at offset 0, and mmap of a number of bytes, which
-- shows the header of the region.
pub record Descriptors : Type 0 where
  pub is_open : ℤ → Bool
  pub read_header : ℤ → Option AcFrameRegionHeader
  pub mmap : ℤ → ℕ → Option AcFrameRegionHeader

-- g_fd, g_region_size and *g_header; no region before the attachment.
pub record Attached : Type 0 where
  pub fd : ℤ
  pub region_size : ℕ
  pub header : AcFrameRegionHeader

-- memfd_create("ac_frames", MFD_CLOEXEC), and the rule of execve(2) for a descriptor so made.
abbrev pub memfd_flags : ℕ
memfd_flags = 1

abbrev pub survives_exec : ℕ → Bool
survives_exec flags = flags % 2 == 0

abbrev pub region_total : AcFrameRegionHeader → ℕ
region_total h = ac_frame_region_size h.width h.height h.format h.slot_count

-- `((total + kPageSize - 1) / kPageSize) * kPageSize` as a size_t
abbrev pub map_length : ℕ → ℕ
map_length total = (total + page_size - 1) % 2 ^ 64 / page_size * page_size % 2 ^ 64

abbrev pub attached_as : ℤ → ℕ → Option AcFrameRegionHeader → Option Attached
attached_as fd total none = none
attached_as fd total (some h) = some (record { fd = fd; region_size = total; header = h })

abbrev pub is_known : AcFrameRegionHeader → Bool
is_known h = (h.magic == frame_magic) && (h.version == frame_version)

abbrev pub attach_probed : Descriptors → ℤ → Option AcFrameRegionHeader → Option Attached
attach_probed d fd none = none
attach_probed d fd (some probe) =
    if is_known probe
    then attached_as fd (region_total probe) (d.mmap fd (map_length (region_total probe)))
    else none

unfoldable pub attach : Descriptors → ℤ → Option Attached
unfolding ac_frame_region_size
attach d fd = if d.is_open fd then attach_probed d fd (d.read_header fd) else none

-- The region after the call; it returns true exactly if there is one. A text of no digits gives 0.
unfoldable pub frame_producer_init_from_env :
    (String → Option Bytes) → (Bytes → ℤ) → Descriptors → Bool → Option Attached
unfolding attach
frame_producer_init_from_env getenv strtol d false = none
frame_producer_init_from_env getenv strtol d true = elim (getenv "AC_FRAME_FD") [
  | some (c ∷ text) ↦ attach d (to_int (strtol (c ∷ text)))
  | _ ↦ none
]

unfoldable pub frame_producer_active : Option Attached → Bool
frame_producer_active none = false
frame_producer_active (some a) = true

unfoldable pub frame_width : Option Attached → ℕ
frame_width none = 0
frame_width (some a) = a.header.width

unfoldable pub frame_height : Option Attached → ℕ
frame_height none = 0
frame_height (some a) = a.header.height

-- The two guards of `frame_publish`; the frame's size as a size_t.
unfoldable pub may_publish : Option Attached → Bool → ℕ → Bool
may_publish none has_pixels len = false
may_publish (some a) false len = false
may_publish (some a) true len = len == a.header.width * a.header.height * 4 % 2 ^ 64

-- The guards of `ReadLatest` on a buffer of `dst_len` bytes.
unfoldable pub may_read : Option AcFrameRegionHeader → ℕ → Bool
may_read none dst_len = false
may_read (some h) dst_len =
    (h.magic == frame_magic) && not (ltb dst_len (h.width * h.height * 4 % 2 ^ 64))

create_header :
    (w h n : ℕ) {c : Channel}
    → create w h n ≡ some c
    → (is_known c.header ≡ true)
      × (region_total c.header ≡ c.total)
      × (map_length c.total ≡ c.region_size)
      × (c.header.width ≡ w)
      × (c.header.height ≡ h)
unfolding create
create_header w h n {c} e = ground arith

attach_open :
    (d : Descriptors) (fd : ℤ) (h shown : AcFrameRegionHeader)
    → is_known h ≡ true
    → d.is_open fd ≡ true
    → d.read_header fd ≡ some h
    → d.mmap fd (map_length (region_total h)) ≡ some shown
    → attach d fd ≡ some (record { fd = fd; region_size = region_total h; header = shown })
unfolding attach
attach_open d fd h shown known opened read mapped = rw (opened, read) (rw (known, mapped) refl)

may_read_known :
    (h : AcFrameRegionHeader) (len : ℕ)
    → is_known h ≡ true
    → may_read (some h) len ≡ not (ltb len (h.width * h.height * 4 % 2 ^ 64))
unfolding may_read
may_read_known h len known = ground arith

pub attach_shut : (d : Descriptors) (fd : ℤ) → d.is_open fd ≡ false → attach d fd ≡ none
unfolding attach
attach_shut d fd shut = rw shut refl

-- Over an open descriptor of the region that `FrameChannelHost::Create` laid out, where mapping
-- the host's number of bytes succeeds, the producer attaches with the host's header and
-- size; it then publishes only frames of width times height times four bytes, the least buffer
-- that `ReadLatest` accepts for them.
pub attach-create :
    (d : Descriptors) (fd : ℤ) (w h n len : ℕ) {c : Channel}
    → create w h n ≡ some c
    → d.read_header fd ≡ some c.header
    → d.mmap fd c.region_size ≡ some c.header
    → d.is_open fd ≡ true
    → (attach d fd ≡ some (record { fd = fd; region_size = c.total; header = c.header }))
      × (may_publish (attach d fd) true len ≡ (len == w * h * 4 % 2 ^ 64))
      × (may_read (some c.header) len ≡ not (ltb len (w * h * 4 % 2 ^ 64)))
attach-create d fd w h n len {c} made read mapped o =
    let k = create_header w h n made in
    let area : c.header.width * c.header.height ≡ w * h = ap₂ (λ a b. a * b) k.3 k.4 in
    let shown : d.mmap fd (map_length (region_total c.header)) ≡ some c.header =
      ap (λ t. d.mmap fd (map_length t)) k.1 ∙ ap (d.mmap fd) k.2 ∙ mapped in
    let attached =
      attach_open d fd c.header c.header k.0 o read shown
      ∙ ap (λ t. some (record { fd = fd; region_size = t; header = c.header })) k.1 in
    (
      attached,
      unfold may_publish in
          ap (λ a. may_publish a true len) attached ∙ ap (λ s. len == s * 4 % 2 ^ 64) area,
      may_read_known c.header len k.0 ∙ ap (λ s. not (ltb len (s * 4 % 2 ^ 64))) area,
    )
