-- ===== src/Ipc/Broadcast.antt =====
-- Broadcast and client_count of core/ipc.cpp, and the calls of core/container_core.cpp on the
-- server: nativeIpcStart, nativeIpcStop and nativeIpcBroadcast. What send(2) answers on a
-- descriptor is an argument. The handler only logs.
use virtualaosp.Base.{
  ℕ, zero, suc, ◌%◌, ◌^◌, Bool, true, false, Option, none, some, List, [], ◌∷◌, ◌++◌, ◌≡◌, ◌≢◌,
  refl, ap, ◌∙◌, ◌⊎◌, inl, inr, arith, Bytes, length,
}
use virtualaosp.Base.Int.{ℤ, pos, negsuc, to_u32}
use virtualaosp.Ipc.Send.{Answer, Status, sent, refused, stalled, Outcome, frame, send, send_front}
use virtualaosp.Ipc.Server.{Impl, Act, Answers, start, stop}

unfoldable pub client_count : Option Impl → ℕ
client_count none = 0
client_count (some impl) = length impl.clients

-- What Broadcast returns, unless one of its Sends does not, and what went out to each client.
abbrev pub Sent : Type 0
Sent = Option ℕ × List (ℕ × Bytes)

abbrev pub one_more : Option ℕ → Option ℕ
one_more none = none
one_more (some k) = some (suc k)

-- A Send, and the rest of the loop, which comes only if the Send returns.
abbrev pub and_then : ℕ → Outcome → Status → Sent → Sent
and_then fd o sent (k, wires) = (one_more k, (fd, o.wire) ∷ wires)
and_then fd o refused (k, wires) = (k, (fd, o.wire) ∷ wires)
and_then fd o stalled rest = (none, (fd, o.wire) ∷ [])

-- The loop over the copy of the table.
unfoldable pub send_each : (ℕ → List Answer) → ℕ → Bytes → List ℕ → Sent
unfolding send
send_each answers type payload [] = (some 0, [])
send_each answers type payload (fd ∷ fds) =
    let rest = send_each answers type payload fds in
    let o = send (answers fd) type payload in and_then fd o o.status rest

unfoldable pub broadcast : Option Impl → (ℕ → List Answer) → ℕ → Bytes → Sent
unfolding send_each
broadcast none answers type payload = (some 0, [])
broadcast (some impl) answers type payload = send_each answers type payload impl.clients

-- A path that is null is empty.
abbrev pub is_success : ℤ × Option Impl × List Act → Bool × Option Impl × List Act
is_success (pos zero, impl, acts) = (true, impl, acts)
is_success (pos (suc n), impl, acts) = (false, impl, acts)
is_success (negsuc n, impl, acts) = (false, impl, acts)

unfoldable pub native_ipc_start :
    Option Impl → Option Bytes → Answers → Bool × Option Impl × List Act
unfolding start
native_ipc_start impl none a = (false, impl, [])
native_ipc_start impl (some []) a = (false, impl, [])
native_ipc_start impl (some (c ∷ path)) a = is_success (start impl (c ∷ path) a)

unfoldable pub native_ipc_stop : Option Impl → Option Impl × List Act
unfolding stop
native_ipc_stop impl = stop impl

-- `static_cast<uint16_t>(type)`; no payload is an empty one.
unfoldable pub native_ipc_broadcast : Option Impl → (ℕ → List Answer) → ℤ → Option Bytes → Sent
unfolding broadcast
native_ipc_broadcast impl answers type none = broadcast impl answers (to_u32 type % 2 ^ 16) []
native_ipc_broadcast impl answers type (some payload) =
    broadcast impl answers (to_u32 type % 2 ^ 16) payload

-- The packets that went out: each client of the list once, in its order. A client whose Send, with
-- the status of `st`, succeeds got all of the packet and is one of the `k` that are counted; any
-- other got a front part of it and is not counted.
pub Delivered : (ℕ → Status) → Bytes → List ℕ → List (ℕ × Bytes) → ℕ → Type 0
Delivered st packet [] [] k = k ≡ 0
Delivered st packet [] (out ∷ wires) k = ⊥
Delivered st packet (fd ∷ fds) [] k = ⊥
Delivered st packet (fd ∷ fds) ((fd', wire) ∷ wires) k =
    (fd' ≡ fd)
    × (((st fd ≡ sent)
          × ((j : ℕ) × (k ≡ suc j) × (wire ≡ packet) × Delivered st packet fds wires j))
        ⊎ ((st fd ≢ sent)
            × ((unsent : Bytes) × (wire ++ unsent ≡ packet))
            × Delivered st packet fds wires k))

-- How the Send of a packet to each client ends.
abbrev pub statuses : (ℕ → List Answer) → ℕ → Bytes → ℕ → Status
statuses answers type payload fd = (send (answers fd) type payload).status

not_sent : {x : Status} → x ≡ refused → x ≢ sent
not_sent e = λ h. ground (arith, e, h)

more-Delivered :
    (s : ℕ → Status) (fd : ℕ) (fds : List ℕ) (packet : Bytes) (o : Outcome) (rest : Sent) (k : ℕ)
    → s fd ≡ o.status
    → ((unsent : Bytes) × (o.wire ++ unsent ≡ packet))
    → (o.status ≡ sent → o.wire ≡ packet)
    → ((j : ℕ) → rest.0 ≡ some j → Delivered s packet fds rest.1 j)
    → (st : Status) → o.status ≡ st
    → (and_then fd o st rest).0 ≡ some k
    → Delivered s packet (fd ∷ fds) (and_then fd o st rest).1 k
unfolding Delivered
more-Delivered s fd fds packet o (none, wires) k at front whole ih sent e h = ground (arith, h)
more-Delivered s fd fds packet o (some j, wires) k at front whole ih sent e h =
    (refl, inl (at ∙ e, (j, ground (arith, h), whole e, ih j refl)))
more-Delivered s fd fds packet o (n, wires) k at front whole ih refused e h =
    (refl, inr (not_sent (at ∙ e), front, ih k h))
more-Delivered s fd fds packet o rest k at front whole ih stalled e h = ground (arith, h)

each-Delivered :
    (answers : ℕ → List Answer) (type : ℕ) (payload : Bytes) (fds : List ℕ) (k : ℕ)
    → (send_each answers type payload fds).0 ≡ some k
    → Delivered
        (statuses answers type payload)
        (frame type payload)
        fds
        (send_each answers type payload fds).1
        k
unfolding send_each
each-Delivered answers type payload [] k h = (unfold Delivered in ground (arith, h))
each-Delivered answers type payload (fd ∷ fds) k h =
    let o = send (answers fd) type payload in
    let sends = send_front (answers fd) type payload in
    more-Delivered (statuses answers type payload) fd fds (frame type payload) o
      (send_each answers type payload fds) k refl sends.0 (λ ok. (sends.1 ok).0)
      (each-Delivered answers type payload fds) o.status refl h

then_returns :
    (fd : ℕ) (o : Outcome) (rest : Sent) (st : Status)
    → o.status ≡ st
    → o.status ≢ stalled
    → ((k : ℕ) × (rest.0 ≡ some k))
    → (k : ℕ) × ((and_then fd o st rest).0 ≡ some k)
then_returns fd o rest sent e ne (k, h) = (suc k, ap one_more h)
then_returns fd o rest refused e ne (k, h) = (k, h)
then_returns fd o rest stalled e ne (k, h) = absurd (ne e)

each_returns :
    (answers : ℕ → List Answer) (type : ℕ) (payload : Bytes) (fds : List ℕ)
    → ((fd : ℕ) → (send (answers fd) type payload).status ≢ stalled)
    → (k : ℕ) × ((send_each answers type payload fds).0 ≡ some k)
unfolding send_each
each_returns answers type payload [] ne = (0, refl)
each_returns answers type payload (fd ∷ fds) ne =
    let o = send (answers fd) type payload in
    then_returns fd o (send_each answers type payload fds) o.status refl (ne fd)
      (each_returns answers type payload fds ne)

-- A broadcast from the app returns if each Send of it does, whatever send(2) answers: each client
-- of the table is then sent a packet of that type and payload once, in the table's order; the result
-- counts just the clients whose Send succeeds, which get the whole packet, and each other gets a
-- front part of it.
pub native_ipc_broadcast-Delivered :
    (impl : Impl) (answers : ℕ → List Answer) (type : ℤ) (payload : Bytes)
    → ((fd : ℕ) → (send (answers fd) (to_u32 type % 2 ^ 16) payload).status ≢ stalled)
    → (k : ℕ) × ((native_ipc_broadcast (some impl) answers type (some payload)).0 ≡ some k)
      × Delivered
          (statuses answers (to_u32 type % 2 ^ 16) payload)
          (frame (to_u32 type % 2 ^ 16) payload)
          impl.clients
          (native_ipc_broadcast (some impl) answers type (some payload)).1
          k
unfolding native_ipc_broadcast broadcast
native_ipc_broadcast-Delivered impl answers type payload returns =
    let (k, h) = each_returns answers (to_u32 type % 2 ^ 16) payload impl.clients returns in
    (k, h, each-Delivered answers (to_u32 type % 2 ^ 16) payload impl.clients k h)
