-- ===== src/Ipc/Reconnect.antt =====
-- The outer loop of ClientThread in fake/ipc_client.cpp, which connects again whenever a connection
-- breaks or none is made; nothing in the program clears `g_running`. What a connection brings up to
-- its end is an answer of the system.
use virtualaosp.Base.{
  ℕ, zero, suc, ◌<◌, Option, none, some, List, [], ◌∷◌, ◌++◌, map, ◌≡◌, refl, ap, ◌∙◌, length,
  Bytes,
}
use virtualaosp.Guest.Redirect.{Engine}
use virtualaosp.Ipc.Stream.{Input}
use virtualaosp.Ipc.Stream.Whole.{Arrives}
use virtualaosp.Ipc.Loop.{frames}
use virtualaosp.Ipc.Guest.{
  Injection, announce_ready, frame_loop, packet_of, AllEventsFit, events_delivered,
}
use virtualaosp.Ipc.Client.{Os, connect_host}

-- send(2) of a few bytes, whose result is not read, and what recv(2) returns on a descriptor until
-- it is closed.
pub record Net (O : Os) : Type 0 where
  pub announce : ℕ → Bytes → O.World → O.World
  pub receive : ℕ → O.World → List Input × O.World

-- One connection, from AnnounceReady to close.
abbrev pub serve_connection : (O : Os) (N : Net O) → ℕ → ℕ → O.World → List Injection × O.World
serve_connection O N fuel fd w =
    let (inputs, w') = N.receive fd (N.announce fd announce_ready w) in
    (frame_loop fuel inputs, O.close fd w')

-- One round of the loop; usleep changes nothing.
abbrev pub serve_round : (O : Os) (N : Net O) → ℕ → Option ℕ × O.World → List Injection × O.World
serve_round O N fuel (none, w) = ([], w)
serve_round O N fuel (some fd, w) = serve_connection O N fuel fd w

-- A number of rounds on a socket path.
unfoldable pub client_thread :
    (O : Os) (N : Net O) → Engine → Bytes → ℕ → ℕ → O.World → List Injection × O.World
unfolding connect_host frame_loop
client_thread O N e sock fuel zero w = ([], w)
client_thread O N e sock fuel (suc rounds) w =
    let (injected, w') = serve_round O N fuel (connect_host O e sock w) in
    let (more, w'') = client_thread O N e sock fuel rounds w' in (injected ++ more, w'')

-- What the rounds meet: no connection, or one over which the host sends the packets of some events
-- and which then breaks.
abbrev pub Meets :
    (O : Os) (N : Net O) → Engine → Bytes → ℕ → List (Option (List Injection)) → O.World → Type 0
Meets O N e sock fuel [] w = Unit
Meets O N e sock fuel (none ∷ rounds) w =
    (w' : O.World) × (connect_host O e sock w ≡ (none, w')) × Meets O N e sock fuel rounds w'
Meets O N e sock fuel (some evs ∷ rounds) w =
    (fd : ℕ) × (w' : O.World) × (inputs : List Input) × (w'' : O.World) × (connect_host O e sock w
      ≡ (some fd, w'))
    × (N.receive fd (N.announce fd announce_ready w') ≡ (inputs, w''))
    × AllEventsFit evs
    × Arrives inputs (frames (map packet_of evs))
    × (length (map packet_of evs) < fuel)
    × Meets O N e sock fuel rounds (O.close fd w'')

-- The events of all rounds.
abbrev pub all_events : List (Option (List Injection)) → List Injection
all_events [] = []
all_events (none ∷ rounds) = all_events rounds
all_events (some evs ∷ rounds) = evs ++ all_events rounds

thread_step :
    (O : Os) (N : Net O) (e : Engine) (sock : Bytes) (fuel rounds : ℕ) (w w' : O.World)
    (injected : List Injection)
    → serve_round O N fuel (connect_host O e sock w) ≡ (injected, w')
    → (client_thread O N e sock fuel (suc rounds) w).0
      ≡ injected ++ (client_thread O N e sock fuel rounds w').0
unfolding client_thread
thread_step O N e sock fuel rounds w w' injected h =
    ap (λ (r : List Injection × O.World). r.0 ++ (client_thread O N e sock fuel rounds r.1).0) h

-- Over any rounds of the client's loop, in each of which it gets no connection or one over which
-- the host sends packets of touch and key events with 32-bit fields, cut and interrupted in any
-- way, the guest injects exactly the events of all connections, unchanged and in order.
pub client_thread_delivers :
    (O : Os) (N : Net O) (e : Engine) (sock : Bytes) (fuel : ℕ)
    (rounds : List (Option (List Injection))) (w : O.World)
    → Meets O N e sock fuel rounds w
    → (client_thread O N e sock fuel (length rounds) w).0 ≡ all_events rounds
client_thread_delivers O N e sock fuel [] w m = (unfold client_thread in refl)
client_thread_delivers O N e sock fuel (none ∷ rounds) w (w', c, m) =
    thread_step O N e sock fuel (length rounds) w w' [] (ap (serve_round O N fuel) c)
    ∙ client_thread_delivers O N e sock fuel rounds w' m
client_thread_delivers O N e sock fuel (some evs ∷ rounds) w
      (fd, w', inputs, w'', c, r, fit, arrives, enough, m) =
    thread_step O N e sock fuel (length rounds) w (O.close fd w'') evs (
      ap (serve_round O N fuel) c
      ∙ ap (λ (x : List Input × O.World). (frame_loop fuel x.0, O.close fd x.1)) r
      ∙ ap (λ i. (i, O.close fd w'')) (events_delivered evs fuel inputs fit arrives enough))
    ∙ ap (λ l. evs ++ l) (client_thread_delivers O N e sock fuel rounds (O.close fd w'') m)
