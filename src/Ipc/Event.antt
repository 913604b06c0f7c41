-- ===== src/Ipc/Event.antt =====
-- The event structs of common/include/ac_ipc_protocol.h, copied to and from bytes on the
-- little-endian targets of the build (arm64 and x86_64), the host's dispatch of them
-- (core/input_consumer.cpp), and the records that fake/input_injector.cpp spools.
use virtualaosp.Base.{
  ℕ, ◌+◌, ◌*◌, ◌/◌, ◌%◌, ◌^◌, ◌<◌, Bool, Option, none, some, [], ◌∷◌, ◌++◌, ◌≡◌, arith,
  if◌then◌else◌, Bytes,
}

pub record AcTouchEvent : Type 0 where
  pub action : ℕ
  pub pointer_id : ℕ
  pub x_fixed : ℕ
  pub y_fixed : ℕ
  pub pressure : ℕ

pub record AcKeyEvent : Type 0 where
  pub keycode : ℕ
  pub action : ℕ

-- sizeof(struct AcTouchEvent) and sizeof(struct AcKeyEvent)
abbrev pub touch_size : ℕ
touch_size = 20

abbrev pub key_size : ℕ
key_size = 8

abbrev pub le32 : ℕ → Bytes
le32 n = (n % 2 ^ 8) ∷ (n / 2 ^ 8 % 2 ^ 8) ∷ (n / 2 ^ 16 % 2 ^ 8) ∷ (n / 2 ^ 24 % 2 ^ 8) ∷ []

abbrev pub read32 : ℕ → ℕ → ℕ → ℕ → ℕ
read32 a b c d = a + b * 2 ^ 8 + c * 2 ^ 16 + d * 2 ^ 24

-- The bytes of the struct that `dispatchTouch` broadcasts.
unfoldable pub touch_bytes : AcTouchEvent → Bytes
touch_bytes ev =
    le32 ev.action
    ++ (le32 ev.pointer_id ++ (le32 ev.x_fixed ++ (le32 ev.y_fixed ++ le32 ev.pressure)))

-- `ev.action = isDown ? 0u : 1u;`
unfoldable pub key_event : ℕ → Bool → AcKeyEvent
key_event keycode is_down = record { keycode = keycode; action = if is_down then 0 else 1 }

unfoldable pub key_bytes : AcKeyEvent → Bytes
key_bytes ev = le32 ev.keycode ++ le32 ev.action

-- memcpy into the struct, after the length test: `none` stands for another length.
unfoldable pub copy_touch : Bytes → Option AcTouchEvent
copy_touch (a ∷ b ∷ c ∷ d ∷ e ∷ f ∷ g ∷ h ∷ i ∷ j ∷ k ∷ l ∷ m ∷ n ∷ o ∷ p ∷ q ∷ r ∷ s ∷ t ∷ []) =
    some (record {
      action = read32 a b c d;
      pointer_id = read32 e f g h;
      x_fixed = read32 i j k l;
      y_fixed = read32 m n o p;
      pressure = read32 q r s t;
    })
copy_touch other = none

unfoldable pub copy_key : Bytes → Option AcKeyEvent
copy_key (a ∷ b ∷ c ∷ d ∷ e ∷ f ∷ g ∷ h ∷ []) =
    some (record { keycode = read32 a b c d; action = read32 e f g h })
copy_key other = none

-- The two iovecs of `inject_touch` and `inject_key`: the struct's size and the struct.
unfoldable pub touch_record : AcTouchEvent → Bytes
unfolding touch_bytes
touch_record ev = le32 touch_size ++ touch_bytes ev

unfoldable pub key_record : AcKeyEvent → Bytes
unfolding key_bytes
key_record ev = le32 key_size ++ key_bytes ev

-- Each field is a uint32_t.
pub record TouchFits (ev : AcTouchEvent) : Type 0 where
  pub action : ev.action < 2 ^ 32
  pub pointer_id : ev.pointer_id < 2 ^ 32
  pub x_fixed : ev.x_fixed < 2 ^ 32
  pub y_fixed : ev.y_fixed < 2 ^ 32
  pub pressure : ev.pressure < 2 ^ 32

read32-le32 :
    (n : ℕ)
    → n < 2 ^ 32
    → read32 (n % 2 ^ 8) (n / 2 ^ 8 % 2 ^ 8) (n / 2 ^ 16 % 2 ^ 8) (n / 2 ^ 24 % 2 ^ 8) ≡ n
read32-le32 n h = omega arith

pub copy_touch-touch_bytes :
    (ev : AcTouchEvent) → TouchFits ev → copy_touch (touch_bytes ev) ≡ some ev
unfolding copy_touch touch_bytes
copy_touch-touch_bytes ev v = λ i. some (record {
  action = read32-le32 ev.action v.action i;
  pointer_id = read32-le32 ev.pointer_id v.pointer_id i;
  x_fixed = read32-le32 ev.x_fixed v.x_fixed i;
  y_fixed = read32-le32 ev.y_fixed v.y_fixed i;
  pressure = read32-le32 ev.pressure v.pressure i;
})

pub copy_key-key_bytes :
    (ev : AcKeyEvent) → ev.keycode < 2 ^ 32 → ev.action < 2 ^ 32 → copy_key (key_bytes ev) ≡ some ev
unfolding copy_key key_bytes
copy_key-key_bytes ev k a =
    λ i. some (record { keycode = read32-le32 ev.keycode k i; action = read32-le32 ev.action a i })
