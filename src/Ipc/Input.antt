-- ===== src/Ipc/Input.antt =====
-- The calls of core/input_consumer.cpp on the server, and those of core/native_bridge.cpp on them.
-- What send(2) answers is an argument, for a batch one for each of its events. A Java array is a
-- list, and null is `none`; its elements are read without a look at its length.
use virtualaosp.Base.{ℕ, zero, suc, ◌+◌, Bool, Option, none, some, List, [], ◌∷◌, ◌++◌}
use virtualaosp.Base.Int.{ℤ, pos, negsuc, to_u32}
use virtualaosp.Ipc.Wire.{input_touch, input_key}
use virtualaosp.Ipc.Send.{Answer}
use virtualaosp.Ipc.Server.{Impl}
use virtualaosp.Ipc.Event.{AcTouchEvent, touch_bytes, key_event, key_bytes}
use virtualaosp.Ipc.Consumer.{Float, Surface, Pointer, batch}
use virtualaosp.Ipc.Broadcast.{Sent, broadcast, client_count}

unfoldable pub dispatch_touch : Option Impl → (ℕ → List Answer) → AcTouchEvent → Sent
unfolding broadcast touch_bytes
dispatch_touch impl answers ev = broadcast impl answers input_touch (touch_bytes ev)

unfoldable pub dispatch_key_event : Option Impl → (ℕ → List Answer) → ℕ → Bool → Sent
unfolding broadcast key_event key_bytes
dispatch_key_event impl answers keycode is_down =
    broadcast impl answers input_key (key_bytes (key_event keycode is_down))

unfoldable pub connected_guests : Option Impl → ℕ
unfolding client_count
connected_guests impl = client_count impl

-- The sum of what the broadcasts return, unless one does not; behind that nothing goes out.
abbrev pub plus : Sent → Sent → Sent
plus (none, wires) rest = (none, wires)
plus (some k, wires) (none, more) = (none, wires ++ more)
plus (some k, wires) (some n, more) = (some (k + n), wires ++ more)

unfoldable pub dispatch_events : Option Impl → (ℕ → ℕ → List Answer) → List AcTouchEvent → Sent
unfolding dispatch_touch
dispatch_events impl answers [] = (some 0, [])
dispatch_events impl answers (ev ∷ evs) =
    plus (dispatch_touch impl (answers zero) ev) (dispatch_events impl (λ n. answers (suc n)) evs)

unfoldable pub dispatch_touch_event_batch :
    (R : Float) → Option Impl → (ℕ → ℕ → List Answer) → Surface → ℕ → List (Pointer R) → Sent
unfolding dispatch_events batch
dispatch_touch_event_batch R impl answers surface action pointers =
    dispatch_events impl answers (batch R surface action pointers)

-- The first pointers of the four arrays; `none`: one of them is shorter and read behind its end.
unfoldable pub pointers_of :
    (R : Float) → ℕ → List ℤ → List R.F → List R.F → List R.F → Option (List (Pointer R))
pointers_of R zero ids xs ys ps = some []
pointers_of R (suc n) (id ∷ ids) (x ∷ xs) (y ∷ ys) (p ∷ ps) = elim (pointers_of R n ids xs ys ps) [
  | none ↦ none
  | some rest ↦ some (record { id = to_u32 id; x = x; y = y; pressure = p } ∷ rest)
]
pointers_of R (suc n) ids xs ys ps = none

-- The four arrays of nativeSendTouchEvent.
pub record Arrays (R : Float) : Type 0 where
  pub pointer_ids : Option (List ℤ)
  pub x_coords : Option (List R.F)
  pub y_coords : Option (List R.F)
  pub pressures : Option (List R.F)

abbrev pub all_pointers :
    (R : Float)
    → ℕ
    → Option (List ℤ)
    → Option (List R.F)
    → Option (List R.F)
    → Option (List R.F)
    → Option (List (Pointer R))
all_pointers R n (some ids) (some xs) (some ys) (some ps) = pointers_of R n ids xs ys ps
all_pointers R n none xs ys ps = some []
all_pointers R n (some ids) none ys ps = some []
all_pointers R n (some ids) (some xs) none ps = some []
all_pointers R n (some ids) (some xs) (some ys) none = some []

abbrev pub dispatch_all :
    (R : Float)
    → Option Impl
    → (ℕ → ℕ → List Answer)
    → Surface
    → ℕ
    → Option (List (Pointer R))
    → Option Sent
dispatch_all R impl answers surface action none = none
dispatch_all R impl answers surface action (some pointers) =
    some (dispatch_touch_event_batch R impl answers surface action pointers)

-- A count that is not above 0, or an array that is null, dispatches nothing.
unfoldable pub native_send_touch_event :
    (R : Float) → Option Impl → (ℕ → ℕ → List Answer) → Surface → ℤ → ℤ → Arrays R → Option Sent
unfolding dispatch_touch_event_batch pointers_of
native_send_touch_event R impl answers surface action (pos count) a =
    dispatch_all R impl answers surface (to_u32 action)
      (all_pointers R count a.pointer_ids a.x_coords a.y_coords a.pressures)
native_send_touch_event R impl answers surface action (negsuc count) a = some (some 0, [])

unfoldable pub native_send_touch : Option Impl → (ℕ → List Answer) → ℤ → ℤ → ℤ → ℤ → ℤ → Sent
unfolding dispatch_touch
native_send_touch impl answers action pointer_id x_fixed y_fixed pressure =
    dispatch_touch impl answers (record {
      action = to_u32 action;
      pointer_id = to_u32 pointer_id;
      x_fixed = to_u32 x_fixed;
      y_fixed = to_u32 y_fixed;
      pressure = to_u32 pressure;
    })

unfoldable pub native_send_key_event : Option Impl → (ℕ → List Answer) → ℤ → Bool → Sent
unfolding dispatch_key_event
native_send_key_event impl answers key_code is_down =
    dispatch_key_event impl answers (to_u32 key_code) is_down
