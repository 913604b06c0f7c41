-- ===== src/Tests/Ipc.antt =====
-- Runs of the packet protocol (core/ipc.cpp, fake/ipc_client.cpp).
use virtualaosp.Base.{
  ℕ, ◌<◌, ◌≤◌, List, [], ◌∷◌, ◌++◌, map, ◌≡◌, refl, arith, length, take, drop, codes,
}
use virtualaosp.Ipc.Wire.{PacketHeader, ping, encode_header}
use virtualaosp.Ipc.Stream.{Input, piece, interrupted, closed}
use virtualaosp.Ipc.Stream.Whole.{Arrives}
use virtualaosp.Ipc.Send.{Answer, wrote, again, sent, header_of, frame, send}
use virtualaosp.Ipc.Loop.{pong, drop_client, Message, frames, client_loop, client_loop-frames}
use virtualaosp.Ipc.Clients
use virtualaosp.Ipc.Clients.{count, count-drop_client}
use virtualaosp.Ipc.Event.{key_bytes}
use virtualaosp.Base.{◌+◌, none, some, true, is_absolute}
use virtualaosp.Guest.Redirect.{bypasses}
use virtualaosp.Guest.Redirect.Confine.{guest_view}
use virtualaosp.Tests.Guest.{engine, engine-IsActive}
use virtualaosp.Ipc.Client.{Os, connect_host, connect_host_confined}
use virtualaosp.Ipc.Reconnect.{Net, client_thread, client_thread_delivers}
use virtualaosp.Ipc.Server.{Answers, socket_fd, Event, start_at, accepts, hangs_up, stops, run}
use virtualaosp.Ipc.Server.Balance.{opens, closes, held, server_closes_all}
use virtualaosp.Ipc.Guest.{Injection, key, packet_of}

abbrev ping_header : PacketHeader
ping_header = header_of ping (codes "hi")

abbrev two_pieces : List Input
two_pieces = piece (codes "ab") ∷ piece (codes "c") ∷ closed ∷ []

abbrev replies : List Answer
replies = wrote 5 ∷ again ∷ wrote 9 ∷ []

send_run : (send replies ping (codes "hi")).status ≡ sent
unfolding send encode_header
send_run = refl

abbrev one_ping : List Message
one_ping = (ping, codes "hi") ∷ []

-- The packet in two pieces.
abbrev ping_inputs : List Input
ping_inputs = piece (take 5 (frames one_ping)) ∷ piece (drop 5 (frames one_ping)) ∷ closed ∷ []

ping_inputs-Arrives : Arrives ping_inputs (frames one_ping)
unfolding frame encode_header
ping_inputs-Arrives = (λ e. cc, (drop 5 (frames one_ping), refl, (λ e. cc, ([], refl, refl))))

client_loop-frames_example : client_loop 2 ping_inputs ≡ pong (codes "hi") ∷ drop_client ∷ []
client_loop-frames_example =
    client_loop-frames one_ping 2 ping_inputs (omega arith, (omega arith, tt)) tt
      ping_inputs-Arrives (omega arith)

abbrev press : List Injection
press = key (record { keycode = 30; action = 0 }) ∷ []

abbrev press_inputs : List Input
press_inputs = interrupted ∷ piece (frames (map packet_of press)) ∷ closed ∷ []

press_inputs-Arrives : Arrives press_inputs (frames (map packet_of press))
unfolding frame encode_header packet_of key_bytes
press_inputs-Arrives = (λ e. cc, ([], refl, refl))

abbrev table : List ℕ
table = 3 ∷ 5 ∷ 7 ∷ []

drop_run : Clients.drop_client 3 table ≡ 7 ∷ 5 ∷ []
unfolding Clients.drop_client
drop_run = refl

-- A system in which every call succeeds; the world counts descriptors.
abbrev system : Os
system = record {
  World = ℕ;
  socket = λ w. (some w, w + 1);
  connect = λ fd target w. (true, w);
  close = λ fd w. w;
  open_append = λ path w. (some w, w + 1);
  writev = λ fd bytes w. (some (length bytes), w);
  start_thread = λ w. (true, w);
}

connect_host_confined_example :
    (23 < 108 → connect_host system engine (codes "/.host.sock") 5 ≡ (some 5, 6))
    × (108 ≤ 23 → connect_host system engine (codes "/.host.sock") 5 ≡ (none, 6))
connect_host_confined_example =
    unfold guest_view in
    connect_host_confined system engine (codes "/.host.sock") 5 5 6 engine-IsActive
      (unfold is_absolute in refl) (unfold bypasses in refl) (unfold guest_view in omega arith) refl

-- A server that is started, gets two clients, loses one, and is stopped.
abbrev willing : Answers
willing = record { socket = socket_fd 5; bind_errno = none; listen_errno = none }

abbrev life : List Event
life = start_at (codes "/s") willing ∷ accepts 6 ∷ accepts 7 ∷ hangs_up 6 ∷ []

server_closes_all_example :
    (opens 7 (run none life).1 ≡ closes 7 (run none life).1 + held 7 (run none life).0)
    × (opens 7 (run none (life ++ (stops ∷ []))).1 ≡ closes 7 (run none (life ++ (stops ∷ []))).1)
server_closes_all_example = server_closes_all 7 life

-- A network that brings the same packet over every connection.
abbrev net : Net system
net = record { announce = λ fd bytes w. w; receive = λ fd w. (press_inputs, w) }

client_thread_delivers_example :
    (client_thread system net engine (codes "/.host.sock") 2 2 5).0 ≡ press ++ (press ++ [])
client_thread_delivers_example =
    client_thread_delivers system net engine (codes "/.host.sock") 2 (some press ∷ some press ∷ [])
      5
      (
        5,
        6,
        press_inputs,
        6,
        unfold connect_host in refl,
        refl,
        ((omega arith, omega arith), tt),
        press_inputs-Arrives,
        omega arith,
        (
          6,
          7,
          press_inputs,
          7,
          unfold connect_host in refl,
          refl,
          ((omega arith, omega arith), tt),
          press_inputs-Arrives,
          omega arith,
          tt,
        ),
      )
