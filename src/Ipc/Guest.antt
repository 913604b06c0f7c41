-- ===== src/Ipc/Guest.antt =====
-- The guest's side of a connection: Dispatch, AnnounceReady and the frame loop of ClientThread in
-- fake/ipc_client.cpp.
use virtualaosp.Base.{
  ℕ, zero, suc, ◌≤◌, ◌<◌, ◌^◌, Option, none, some, List, [], ◌∷◌, ◌++◌, map, ◌≡◌, refl, sym, ap,
  subst, ◌∙◌, arith, ◌==◌, if◌then◌else◌, length, append_assoc, Bytes,
}
use virtualaosp.Ipc.Wire.{
  PacketHeader, header_size, max_payload, guest_ready, input_touch, input_key, encode_header,
  decode_header, is_bad, length-encode_header,
}
use virtualaosp.Ipc.Stream.{
  Input, piece, interrupted, closed, Read, full, disconnect, blocked, read_full,
}
use virtualaosp.Ipc.Stream.Whole.{Arrives, read_full-Took}
use virtualaosp.Ipc.Send.{header_of, frame}
use virtualaosp.Ipc.Event.{
  AcTouchEvent, AcKeyEvent, copy_touch, copy_key, touch_bytes, key_bytes, TouchFits,
  copy_touch-touch_bytes, copy_key-key_bytes,
}
use virtualaosp.Ipc.Loop.{Message, frames, AllFit, good_header}

-- The one packet that a fresh connection sends.
unfoldable pub announce_ready : Bytes
announce_ready = encode_header (header_of guest_ready [])

pub data Injection : Type 0 where
  touch : AcTouchEvent → Injection
  key : AcKeyEvent → Injection

abbrev pub one_of {ℓ} : {A : Type ℓ} → (A → Injection) → Option A → List Injection
one_of inject none = []
one_of inject (some ev) = inject ev ∷ []

-- An input packet of another size is dropped, and so is every other type.
unfoldable pub dispatch : ℕ → Bytes → List Injection
unfolding copy_touch copy_key
dispatch type payload =
    if type == input_touch
    then one_of touch (copy_touch payload)
    else if type == input_key
    then one_of key (copy_key payload)
    else []

-- The payload is read only if there is one; `none` breaks out of the loop.
abbrev pub read_payload : PacketHeader → List Input → Read
read_payload h inputs = if h.length == 0 then full [] inputs else read_full h.length inputs

abbrev pub serve_payload : PacketHeader → Read → (List Input → List Injection) → List Injection
serve_payload h (full payload inputs) next = dispatch h.type payload ++ next inputs
serve_payload h disconnect next = []
serve_payload h blocked next = []

abbrev pub serve_header : Read → (List Input → List Injection) → List Injection
serve_header (full header inputs) next =
    let h = decode_header header in
    if is_bad h then [] else serve_payload h (read_payload h inputs) next
serve_header disconnect next = []
serve_header blocked next = []

-- The injections of one connection, until it breaks; the fuel bounds the rounds.
unfoldable pub frame_loop : ℕ → List Input → List Injection
unfolding decode_header is_bad read_full dispatch
frame_loop zero inputs = []
frame_loop (suc fuel) inputs =
    serve_header (read_full header_size inputs) (λ rest. frame_loop fuel rest)

abbrev pub injections : List Message → List Injection
injections [] = []
injections ((type, payload) ∷ ms) = dispatch type payload ++ injections ms

frame_loop_step :
    (fuel : ℕ) (inputs : List Input)
    → frame_loop (suc fuel) inputs
      ≡ serve_header (read_full header_size inputs) (λ rest. frame_loop fuel rest)
unfolding frame_loop
frame_loop_step fuel inputs = refl

read_nothing :
    (n : ℕ) (inputs : List Input)
    → (if n == 0 then full [] inputs else read_full n inputs) ≡ read_full n inputs
unfolding read_full
read_nothing zero inputs = refl
read_nothing (suc n) inputs = ground arith

read_payload_same :
    (h : PacketHeader) (inputs : List Input) → read_payload h inputs ≡ read_full h.length inputs
read_payload_same h inputs = read_nothing h.length inputs

frame_loop-frame :
    (fuel type : ℕ) (payload more : Bytes) (inputs : List Input)
    → type < 65536
    → length payload ≤ max_payload
    → Arrives inputs (frame type payload ++ more)
    → (left : List Input) × Arrives left more
      × (frame_loop (suc fuel) inputs ≡ dispatch type payload ++ frame_loop fuel left)
frame_loop-frame fuel type payload more inputs t p a =
    let header = encode_header (header_of type payload) in
    let split : Arrives inputs (header ++ (payload ++ more)) =
      subst (Arrives inputs) (append_assoc header payload more) (unfold frame in a) in
    let first = read_full-Took inputs header (payload ++ more) split in
    let second = read_full-Took first.left payload more first.arrives in
    let g = good_header type payload t p in
    let e : read_full header_size inputs ≡ full header first.left =
      ap (λ k. read_full k inputs) (sym (length-encode_header (header_of type payload)))
      ∙ first.reads in
    let e' = read_payload_same (header_of type payload) first.left ∙ second.reads in
    (second.left, second.arrives, frame_loop_step fuel inputs ∙ rw (e, g.0, g.1, e'))

frame_loop_end : (fuel : ℕ) (inputs : List Input) → Arrives inputs [] → frame_loop fuel inputs ≡ []
unfolding frame_loop
frame_loop_end zero inputs a = refl
frame_loop_end (suc fuel) [] a = absurd a
frame_loop_end (suc fuel) (closed ∷ inputs) a = refl
frame_loop_end (suc fuel) (interrupted ∷ inputs) a = frame_loop_end (suc fuel) inputs a
frame_loop_end (suc fuel) (piece [] ∷ inputs) (ne, (rest, e, a)) = absurd (ne refl)
frame_loop_end (suc fuel) (piece (b ∷ bs) ∷ inputs) (ne, (rest, e, a)) = cc

-- Over a stream of packets within the limits, cut into non-empty pieces in any way, with
-- interrupted calls anywhere, the guest dispatches exactly the packets sent, in order.
pub frame_loop-frames :
    (ms : List Message) (fuel : ℕ) (inputs : List Input)
    → AllFit ms
    → Arrives inputs (frames ms)
    → length ms < fuel
    → frame_loop fuel inputs ≡ injections ms
frame_loop-frames ms zero inputs fit a h = absurd (omega arith)
frame_loop-frames [] (suc fuel) inputs fit a h = frame_loop_end (suc fuel) inputs a
frame_loop-frames ((type, payload) ∷ ms) (suc fuel) inputs (t, (p, fit)) a h =
    let (left, a', e) = frame_loop-frame fuel type payload (frames ms) inputs t p a in
    e ∙ ap (λ r. dispatch type payload ++ r) (frame_loop-frames ms fuel left fit a' (omega arith))

-- The packet that the host broadcasts for an event (core/input_consumer.cpp).
unfoldable pub packet_of : Injection → Message
packet_of (touch ev) = (input_touch, touch_bytes ev)
packet_of (key ev) = (input_key, key_bytes ev)

abbrev pub EventFits : Injection → Type 0
EventFits (touch ev) = TouchFits ev
EventFits (key ev) = (ev.keycode < 2 ^ 32) × (ev.action < 2 ^ 32)

abbrev pub AllEventsFit : List Injection → Type 0
AllEventsFit [] = Unit
AllEventsFit (ev ∷ evs) = EventFits ev × AllEventsFit evs

packets-AllFit : (evs : List Injection) → AllFit (map packet_of evs)
unfolding packet_of touch_bytes key_bytes
packets-AllFit [] = tt
packets-AllFit (touch ev ∷ evs) = (omega arith, (omega arith, packets-AllFit evs))
packets-AllFit (key ev ∷ evs) = (omega arith, (omega arith, packets-AllFit evs))

injections-packets :
    (evs : List Injection) → AllEventsFit evs → injections (map packet_of evs) ≡ evs
unfolding packet_of dispatch
injections-packets [] fit = refl
injections-packets (touch ev ∷ evs) (v, fit) =
    rw (copy_touch-touch_bytes ev v) (ap (λ r. touch ev ∷ r) (injections-packets evs fit))
injections-packets (key ev ∷ evs) (v, fit) =
    rw (copy_key-key_bytes ev v.0 v.1) (ap (λ r. key ev ∷ r) (injections-packets evs fit))

-- Touch and key events with 32-bit fields that the host sends as packets are injected in the
-- guest unchanged and in order, however the stream is cut and interrupted.
pub events_delivered :
    (evs : List Injection) (fuel : ℕ) (inputs : List Input)
    → AllEventsFit evs
    → Arrives inputs (frames (map packet_of evs))
    → length (map packet_of evs) < fuel
    → frame_loop fuel inputs ≡ evs
events_delivered evs fuel inputs fit a h =
    frame_loop-frames (map packet_of evs) fuel inputs (packets-AllFit evs) a h
    ∙ injections-packets evs fit
