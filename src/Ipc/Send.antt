-- ===== src/Ipc/Send.antt =====
-- WriteAll and IpcServer::Send of core/ipc.cpp. What send(2) returns is a list of answers, one a
-- call; what goes out on the wire is part of the result.
use virtualaosp.Base.{
  ℕ, zero, suc, ◌≤◌, ◌<◌, false, List, [], ◌∷◌, ◌++◌, ◌≡◌, refl, inl, inr, sym, ap, ◌∙◌, arith, ltb,
  leb, if◌then◌else◌, length, take, drop, take-append-drop, append_assoc, append-nil, Bool-cases,
  Bytes,
}
use native.Mathlib.Decide.{dec_le}
use virtualaosp.Ipc.Wire.{PacketHeader, ipc_magic, ipc_version, max_payload, encode_header}

-- `wrote n` is a return value of `n`, at most what was asked; `again` is EINTR.
pub data Answer : Type 0 where
  wrote : ℕ → Answer
  again broken : Answer

-- `stalled`: the call that no answer is given for never returns.
pub data Status : Type 0 where
  sent refused stalled : Status

pub record Outcome : Type 0 where
  pub status : Status
  pub wire : Bytes
  pub answers : List Answer

-- Each round sends the rest of the buffer.
unfoldable pub write_all : List Answer → Bytes → Outcome
write_all rs [] = record { status = sent; wire = []; answers = rs }
write_all [] (b ∷ buf) = record { status = stalled; wire = []; answers = [] }
write_all (again ∷ rs) (b ∷ buf) = write_all rs (b ∷ buf)
write_all (broken ∷ rs) (b ∷ buf) = record { status = refused; wire = []; answers = rs }
write_all (wrote zero ∷ rs) (b ∷ buf) = record { status = refused; wire = []; answers = rs }
write_all (wrote (suc n) ∷ rs) (b ∷ buf) =
    let o = write_all rs (drop (suc n) (b ∷ buf)) in
    record o { wire = take (suc n) (b ∷ buf) ++ o.wire }

abbrev pub header_of : ℕ → Bytes → PacketHeader
header_of type payload = record {
  magic = ipc_magic;
  version = ipc_version;
  type = type;
  length = length payload;
}

-- The bytes of one packet.
unfoldable pub frame : ℕ → Bytes → Bytes
frame type payload = encode_header (header_of type payload) ++ payload

-- What follows a first write, made only if that went through.
abbrev pub continue_with : Status → Outcome → (List Answer → Outcome) → Outcome
continue_with sent o next = let o' = next o.answers in record o' { wire = o.wire ++ o'.wire }
continue_with refused o next = o
continue_with stalled o next = o

-- A payload of up to 512 bytes goes out together with its header, a longer one behind it.
unfoldable pub send : List Answer → ℕ → Bytes → Outcome
unfolding write_all
send rs type payload =
    let header = encode_header (header_of type payload) in
    if ltb max_payload (length payload)
    then record { status = refused; wire = []; answers = rs }
    else if leb (length payload) 512
    then write_all rs (header ++ payload)
    else let o = write_all rs header in continue_with o.status o (λ rest. write_all rest payload)

-- The wire holds the front of the buffer, and all of it exactly if the status says so.
record Front (buf : Bytes) (o : Outcome) : Type 0 where
  unsent : Bytes
  front : o.wire ++ unsent ≡ buf
  whole : o.status ≡ sent → unsent ≡ []

write_all-Front : (rs : List Answer) (buf : Bytes) → Front buf (write_all rs buf)
unfolding write_all
write_all-Front rs [] = record { unsent = []; front = refl; whole = λ h. refl }
write_all-Front [] (b ∷ buf) = record { unsent = b ∷ buf; front = refl; whole = λ h. cc }
write_all-Front (again ∷ rs) (b ∷ buf) = write_all-Front rs (b ∷ buf)
write_all-Front (broken ∷ rs) (b ∷ buf) = record { unsent = b ∷ buf; front = refl; whole = λ h. cc }
write_all-Front (wrote zero ∷ rs) (b ∷ buf) = record {
  unsent = b ∷ buf;
  front = refl;
  whole = λ h. cc;
}
write_all-Front (wrote (suc n) ∷ rs) (b ∷ buf) =
    let f = write_all-Front rs (drop (suc n) (b ∷ buf)) in
    record {
      unsent = f.unsent;
      front =
          append_assoc (take (suc n) (b ∷ buf)) _ f.unsent
          ∙ ap (λ r. take (suc n) (b ∷ buf) ++ r) f.front
          ∙ take-append-drop (suc n) (b ∷ buf);
      whole = f.whole;
    }

continue_with-Front :
    (xs ys : Bytes) (st : Status) (o : Outcome) (next : List Answer → Outcome)
    → o.status ≡ st
    → Front xs o
    → ((rs : List Answer) → Front ys (next rs))
    → Front (xs ++ ys) (continue_with st o next)
continue_with-Front xs ys sent o next e f g =
    let rest = g o.answers in
    record {
      unsent = rest.unsent;
      front =
          append_assoc o.wire (next o.answers).wire rest.unsent
          ∙ ap (λ r. o.wire ++ r) rest.front
          ∙ ap (λ r. r ++ ys)
              (sym (append-nil o.wire) ∙ ap (λ r. o.wire ++ r) (sym (f.whole e)) ∙ f.front);
      whole = rest.whole;
    }
continue_with-Front xs ys refused o next e f g = record {
  unsent = f.unsent ++ ys;
  front = sym (append_assoc o.wire f.unsent ys) ∙ ap (λ r. r ++ ys) f.front;
  whole = λ h. cc (e, h);
}
continue_with-Front xs ys stalled o next e f g = record {
  unsent = f.unsent ++ ys;
  front = sym (append_assoc o.wire f.unsent ys) ∙ ap (λ r. r ++ ys) f.front;
  whole = λ h. cc (e, h);
}

send-Front :
    (rs : List Answer) (type : ℕ) (payload : Bytes)
    → length payload ≤ max_payload
    → Front (frame type payload) (send rs type payload)
unfolding send frame
send-Front rs type payload fits =
    let header = encode_header (header_of type payload) in
    let short : ltb max_payload (length payload) ≡ false = ground arith in
    elim (Bool-cases (leb (length payload) 512)) [
      | inl small ↦ rw (short, small) (write_all-Front rs (header ++ payload))
      | inr large ↦
          rw (short, large)
            (continue_with-Front header payload (write_all rs header).status (write_all rs header)
              (λ rest. write_all rest payload) refl (write_all-Front rs header)
              (λ rest. write_all-Front rest payload))
    ]

send_too_long :
    (rs : List Answer) (type : ℕ) (payload : Bytes)
    → max_payload < length payload
    → send rs type payload ≡ record { status = refused; wire = []; answers = rs }
unfolding send
send_too_long rs type payload long = ground arith

-- Whatever send(2) answers, `Send` puts a front part of the one packet on the wire, and returns
-- true only if it is the whole packet and the payload has at most 1 MiB; a longer payload puts
-- nothing on the wire.
pub send_front :
    (rs : List Answer) (type : ℕ) (payload : Bytes)
    → ((unsent : Bytes) × ((send rs type payload).wire ++ unsent ≡ frame type payload))
      × ((send rs type payload).status ≡ sent
          → ((send rs type payload).wire ≡ frame type payload) × (length payload ≤ max_payload))
      × (max_payload < length payload → (send rs type payload).wire ≡ [])
send_front rs type payload = elim (dec_le (length payload) max_payload) [
  | yes fits ↦
      let f = send-Front rs type payload fits in
      (
        (f.unsent, f.front),
        (λ ok. (
          sym (append-nil _)
              ∙ ap (λ r. (send rs type payload).wire ++ r) (sym (f.whole ok))
              ∙ f.front,
          fits,
        )),
        (λ long. absurd (omega arith)),
      )
  | no long ↦
      let e = send_too_long rs type payload (omega arith) in
      (
        (frame type payload, ap (λ (o : Outcome). o.wire ++ frame type payload) e),
        (λ ok. cc (ap (λ (o : Outcome). o.status) e, ok)),
        (λ h. ap (λ (o : Outcome). o.wire) e),
      )
]
