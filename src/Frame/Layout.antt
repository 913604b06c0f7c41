-- ===== src/Frame/Layout.antt =====
-- The layout of the frame region: common/include/frame_protocol.h, FrameChannelHost::Create and
-- the slot addresses of core/frame_channel.cpp. A size_t has 64 bits and wraps.
use virtualaosp.Base.{
  ℕ, ◌+◌, ◌-◌, ◌*◌, ◌/◌, ◌%◌, ◌^◌, ◌≤◌, ◌<◌, ◌||◌, Option, none, some, ◌≡◌, ap, arith, ◌==◌, ltb,
  if◌then◌else◌,
}

pub record AcFrameRegionHeader : Type 0 where
  pub magic : ℕ
  pub version : ℕ
  pub width : ℕ
  pub height : ℕ
  pub format : ℕ
  pub slot_count : ℕ
  pub slot_stride : ℕ

abbrev pub frame_magic : ℕ
frame_magic = 0x41435246

abbrev pub frame_version : ℕ
frame_version = 1

abbrev pub format_rgba8888 : ℕ
format_rgba8888 = 1

-- sizeof(struct AcFrameRegionHeader) and sizeof(struct AcFrameSlotMeta)
abbrev pub region_header_size : ℕ
region_header_size = 32

abbrev pub slot_meta_size : ℕ
slot_meta_size = 16

abbrev pub page_size : ℕ
page_size = 4096

-- Four bytes a pixel for every format.
unfoldable pub ac_frame_slot_size : ℕ → ℕ → ℕ → ℕ
ac_frame_slot_size w h fmt = (slot_meta_size + w * h * 4) % 2 ^ 64

unfoldable pub ac_frame_region_size : ℕ → ℕ → ℕ → ℕ → ℕ
ac_frame_region_size w h fmt slots =
    (region_header_size + slots * ac_frame_slot_size w h fmt) % 2 ^ 64

-- The offset of SlotMeta and of SlotPixels from the region's base.
unfoldable pub slot_meta : AcFrameRegionHeader → ℕ → ℕ
slot_meta h i = (region_header_size + i * h.slot_stride) % 2 ^ 64

unfoldable pub slot_pixels : AcFrameRegionHeader → ℕ → ℕ
unfolding slot_meta
slot_pixels h i = (slot_meta h i + slot_meta_size) % 2 ^ 64

-- The header, the length given to ftruncate, and the length mapped.
pub record Channel : Type 0 where
  pub header : AcFrameRegionHeader
  pub total : ℕ
  pub region_size : ℕ

-- `Create`, where memfd_create, ftruncate and mmap succeed; each failure of those returns null.
unfoldable pub create : ℕ → ℕ → ℕ → Option Channel
create width height slot_count =
    if width == 0 || (height == 0 || (ltb slot_count 2 || ltb 16 slot_count))
    then none
    else let total = ac_frame_region_size width height format_rgba8888 slot_count in
      some (record {
        header = record {
          magic = frame_magic;
          version = frame_version;
          width = width;
          height = height;
          format = format_rgba8888;
          slot_count = slot_count;
          slot_stride = ac_frame_slot_size width height format_rgba8888;
        };
        total = total;
        region_size = (total + page_size - 1) % 2 ^ 64 / page_size * page_size % 2 ^ 64;
      })

-- No size of a channel wraps: the frame has fewer than 2 ^ 57 pixels.
abbrev pub max_pixels : ℕ
max_pixels = 2 ^ 57

-- Slot `i` of a channel, its meta data and its pixels, lies in the file and in the mapping, and in
-- front of slot `j` if `i < j`.
pub record SlotFits (c : Channel) (i : ℕ) : Type 0 where
  pub pixels_behind : slot_pixels c.header i ≡ slot_meta c.header i + slot_meta_size
  pub in_file : slot_pixels c.header i + c.header.width * c.header.height * 4 ≤ c.total
  pub in_mapping : c.total ≤ c.region_size
  pub behind_header : region_header_size ≤ slot_meta c.header i
  pub before_next :
      (j : ℕ)
      → i < j
      → j < c.header.slot_count
      → slot_pixels c.header i + c.header.width * c.header.height * 4 ≤ slot_meta c.header j

stride_mono : (s i n : ℕ) → i < n → i * s + s ≤ n * s
stride_mono s i n h = grind arith

stride_bound : (s n : ℕ) → n ≤ 16 → n * s ≤ 16 * s
stride_bound s n h = grind arith

create_guard :
    (w h n : ℕ) {c : Channel} → create w h n ≡ some c → (0 < w) × (0 < h) × (2 ≤ n) × (n ≤ 16)
unfolding create
create_guard w h n {c} e = ground arith

-- The sizes of a channel, with nothing wrapped.
record Exact (w h n : ℕ) (c : Channel) : Type 0 where
  stride : c.header.slot_stride ≡ slot_meta_size + w * h * 4
  total : c.total ≡ region_header_size + n * c.header.slot_stride
  mapping : c.region_size ≡ (c.total + page_size - 1) % 2 ^ 64 / page_size * page_size % 2 ^ 64
  width : c.header.width ≡ w
  height : c.header.height ≡ h
  count : c.header.slot_count ≡ n

create_fields :
    (w h n : ℕ) {c : Channel}
    → create w h n ≡ some c
    → (c.header.slot_stride ≡ ac_frame_slot_size w h format_rgba8888)
      × (c.total ≡ ac_frame_region_size w h format_rgba8888 n)
      × (c.region_size ≡ (c.total + page_size - 1) % 2 ^ 64 / page_size * page_size % 2 ^ 64)
      × (c.header.width ≡ w)
      × (c.header.height ≡ h)
      × (c.header.slot_count ≡ n)
unfolding create
create_fields w h n {c} e = ground arith

create-Exact :
    (w h n : ℕ) {c : Channel} → create w h n ≡ some c → w * h < max_pixels → Exact w h n c
create-Exact w h n {c} e small =
    let f = create_fields w h n e in
    let few = create_guard w h n e in
    let stride : c.header.slot_stride ≡ slot_meta_size + w * h * 4 =
      unfold ac_frame_slot_size in omega (arith, f.0) in
    record {
      stride = stride;
      total =
          unfold ac_frame_region_size in
          omega (
            arith,
            f.0,
            f.1,
            stride,
            stride_bound (ac_frame_slot_size w h format_rgba8888) n few.3,
            ap (λ t. n * t) f.0,
          );
      mapping = f.2;
      width = f.3;
      height = f.4;
      count = f.5;
    }

-- Every slot of a channel that `Create` returns, with fewer than 2 ^ 57 pixels a frame, has its
-- meta data and pixels inside the file and the mapping, apart from the header and other slots.
pub create-SlotFits :
    (w h n i : ℕ) {c : Channel} → create w h n ≡ some c → w * h < max_pixels → i < n → SlotFits c i
create-SlotFits w h n i {c} e small lt =
    let x = create-Exact w h n e small in
    let g = create_guard w h n e in
    let s = c.header.slot_stride in
    let bound = stride_bound s n g.3 in
    let room = stride_mono s i n lt in
    let area : c.header.width * c.header.height * 4 ≡ w * h * 4 = rw (x.width, x.height) in
    let meta : slot_meta c.header i ≡ region_header_size + i * s =
      unfold slot_meta in omega (arith, bound, room, x.stride) in
    let pixels : slot_pixels c.header i ≡ region_header_size + i * s + slot_meta_size =
      unfold slot_pixels in omega (arith, bound, room, x.stride) in
    record {
      pixels_behind = omega (arith, meta, pixels);
      in_file = omega (arith, area, pixels, room, x.stride, x.total);
      in_mapping = omega (arith, bound, x.stride, x.total, x.mapping);
      behind_header = omega (arith, meta);
      before_next = λ j ij jn.
          let next = stride_mono s i j ij in
          let last = stride_mono s j n (omega (arith, x.count)) in
          let meta' : slot_meta c.header j ≡ region_header_size + j * s =
            unfold slot_meta in omega (arith, bound, last, x.stride) in
          omega (arith, area, pixels, meta', next, x.stride);
    }
