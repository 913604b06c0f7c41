-- ===== src/Ipc/Loop.antt =====
-- IpcServer::ClientLoop of core/ipc.cpp: what the host does with the frames of one client. Each
-- round reads one frame; the fuel bounds the rounds.
use virtualaosp.Base.{
  ℕ, zero, suc, ◌≤◌, ◌<◌, false, List, [], ◌∷◌, ◌++◌, ◌≡◌, refl, sym, ap, subst, ◌∙◌, arith, ◌==◌,
  if◌then◌else◌, length, append_assoc, Bytes,
}
use virtualaosp.Ipc.Wire.{
  PacketHeader, header_size, max_payload, ping, encode_header, decode_header, is_bad,
  decode-encode_header, length-encode_header,
}
use virtualaosp.Ipc.Stream.{
  Input, piece, interrupted, closed, Read, full, disconnect, blocked, recv_exact, read_full,
}
use virtualaosp.Ipc.Stream.Whole.{Arrives, IsSteady, Took, recv_exact-read_full, read_full-Took}
use virtualaosp.Ipc.Send.{header_of, frame}

-- `pong` is the call Send(fd, kIpcPong, payload), whose result is not used; `message` the call of
-- the handler; `drop_client` the end of the loop.
pub data Action : Type 0 where
  pong : Bytes → Action
  message : ℕ → Bytes → Action
  drop_client : Action

-- While the server is not stopped and has a handler, which `Start` is given.
abbrev pub act : PacketHeader → Bytes → Action
act h payload = if h.type == ping then pong payload else message h.type payload

-- The payload of a good header, then the next frame.
abbrev pub take_payload : PacketHeader → Read → (List Input → List Action) → List Action
take_payload h (full payload inputs) next = act h payload ∷ next inputs
take_payload h disconnect next = drop_client ∷ []
take_payload h blocked next = []

abbrev pub take_header : Read → (List Input → List Action) → List Action
take_header (full header inputs) next =
    let h = decode_header header in
    if is_bad h then drop_client ∷ [] else take_payload h (recv_exact h.length inputs) next
take_header disconnect next = drop_client ∷ []
take_header blocked next = []

unfoldable pub client_loop : ℕ → List Input → List Action
unfolding decode_header is_bad recv_exact
client_loop zero inputs = []
client_loop (suc fuel) inputs =
    take_header (recv_exact header_size inputs) (λ rest. client_loop fuel rest)

-- A message as the peer hands it to its sender.
abbrev pub Message : Type 0
Message = ℕ × Bytes

abbrev pub frames : List Message → Bytes
frames [] = []
frames ((type, payload) ∷ ms) = frame type payload ++ frames ms

-- Types are 16 bits wide, and payloads within the cap.
abbrev pub AllFit : List Message → Type 0
AllFit [] = Unit
AllFit ((type, payload) ∷ ms) = (type < 65536) × ((length payload ≤ max_payload) × AllFit ms)

-- What the protocol asks of the host for a message: a PING, type 1, is echoed, all else is for
-- the handler.
abbrev pub reply_to : ℕ → Bytes → Action
reply_to type payload = if type == 1 then pong payload else message type payload

abbrev pub actions : List Message → List Action
actions [] = drop_client ∷ []
actions ((type, payload) ∷ ms) = reply_to type payload ∷ actions ms

pub good_header :
    (type : ℕ) (payload : Bytes)
    → type < 65536
    → length payload ≤ max_payload
    → (decode_header (encode_header (header_of type payload)) ≡ header_of type payload)
      × (is_bad (header_of type payload) ≡ false)
unfolding is_bad
good_header type payload t p =
    (decode-encode_header (header_of type payload) (omega arith), ground arith)

client_loop_step :
    (fuel : ℕ) (inputs : List Input)
    → client_loop (suc fuel) inputs
      ≡ take_header (recv_exact header_size inputs) (λ rest. client_loop fuel rest)
unfolding client_loop
client_loop_step fuel inputs = refl

recv_exact-Took :
    (n : ℕ) (inputs : List Input) (xs ys : Bytes)
    → n ≡ length xs
    → IsSteady inputs
    → (t : Took inputs xs ys) → recv_exact n inputs ≡ full xs t.left
recv_exact-Took n inputs xs ys e s t =
    recv_exact-read_full n inputs s ∙ ap (λ k. read_full k inputs) e ∙ t.reads

-- One good frame, whatever its pieces: its action, and the loop goes on with what is left.
client_loop-frame :
    (fuel type : ℕ) (payload more : Bytes) (inputs : List Input)
    → type < 65536
    → length payload ≤ max_payload
    → IsSteady inputs
    → Arrives inputs (frame type payload ++ more)
    → (left : List Input) × IsSteady left
      × Arrives left more
      × (client_loop (suc fuel) inputs ≡ reply_to type payload ∷ client_loop fuel left)
client_loop-frame fuel type payload more inputs t p s a =
    let header = encode_header (header_of type payload) in
    let split : Arrives inputs (header ++ (payload ++ more)) =
      subst (Arrives inputs) (append_assoc header payload more) (unfold frame in a) in
    let first = read_full-Took inputs header (payload ++ more) split in
    let second = read_full-Took first.left payload more first.arrives in
    let g = good_header type payload t p in
    let e =
      recv_exact-Took header_size inputs header (payload ++ more)
        (sym (length-encode_header (header_of type payload))) s first in
    let e' =
      recv_exact-Took (length payload) first.left payload more refl (first.steady s) second in
    (
      second.left,
      second.steady (first.steady s),
      second.arrives,
      client_loop_step fuel inputs ∙ rw (e, g.0, g.1, e'),
    )

client_loop_end :
    (fuel : ℕ) (inputs : List Input)
    → Arrives inputs []
    → IsSteady inputs
    → client_loop (suc fuel) inputs ≡ drop_client ∷ []
unfolding client_loop
client_loop_end fuel [] a s = absurd a
client_loop_end fuel (closed ∷ inputs) a s = refl
client_loop_end fuel (interrupted ∷ inputs) a s = absurd s
client_loop_end fuel (piece [] ∷ inputs) (ne, (rest, e, a)) s = absurd (ne refl)
client_loop_end fuel (piece (b ∷ bs) ∷ inputs) (ne, (rest, e, a)) s = cc

-- If the peer's stream is a sequence of packets, each of a 16-bit type and at most 1 MiB, cut into
-- non-empty pieces in any way, with no interrupted call, and then closed, the host answers each
-- PING, type 1, with its payload, hands every packet of another type than 1 to the handler with its type and
-- payload, in order, and then drops the client; one round of fuel for each packet and one more suffice.
pub client_loop-frames :
    (ms : List Message) (fuel : ℕ) (inputs : List Input)
    → AllFit ms
    → IsSteady inputs
    → Arrives inputs (frames ms)
    → length ms < fuel
    → client_loop fuel inputs ≡ actions ms
client_loop-frames ms zero inputs fit s a h = absurd (omega arith)
client_loop-frames [] (suc fuel) inputs fit s a h = client_loop_end fuel inputs a s
client_loop-frames ((type, payload) ∷ ms) (suc fuel) inputs (t, (p, fit)) s a h =
    let (left, s', a', e) = client_loop-frame fuel type payload (frames ms) inputs t p s a in
    e
    ∙ ap (λ r. reply_to type payload ∷ r) (client_loop-frames ms fuel left fit s' a' (omega arith))
