-- ===== src/Tests/Threads.antt =====
-- Runs of the threads of core/ipc.cpp.
use virtualaosp.Base.{List, [], arith, refl, some, suc, zero, ℕ, ◌%◌, ◌<◌, ◌^◌, ◌∷◌, ◌≡◌, ◌≢◌}
use virtualaosp.Base.Int.{pos, to_u32}
use virtualaosp.Ipc.Wire.{encode_header}
use virtualaosp.Ipc.Send.{Answer, wrote, broken, stalled, frame, send, write_all}
use virtualaosp.Ipc.Server.{Impl}
use virtualaosp.Ipc.Broadcast.{
  statuses, Delivered, native_ipc_broadcast, native_ipc_broadcast-Delivered,
}
use virtualaosp.Ipc.Clients.{count}
use virtualaosp.Ipc.Threads.{
  Event, accepts, opens, hangs_up, erases, free, foreign, idle, run, close_all,
}
use virtualaosp.Ipc.Threads.Table.{live, spared, stop_closes_connections, foreign_closed}

-- The first client leaves while a second one is there and a file is open.
abbrev two_clients : List Event
two_clients = accepts 7 ∷ opens 8 ∷ accepts 9 ∷ hangs_up 7 ∷ erases 7 ∷ []

stop_closes_connections_example :
    (count 9 (run idle two_clients).clients ≡ live ((run idle two_clients).fds 9))
    × (close_all (run idle two_clients).clients (run idle two_clients).fds 9
        ≡ spared ((run idle two_clients).fds 9))
unfolding run
stop_closes_connections_example = stop_closes_connections two_clients 9 refl

foreign_closed_example :
    (let s = run (run idle (accepts 7 ∷ [])) (hangs_up 7 ∷ opens 7 ∷ []) in
      (s.fds 7 ≡ foreign) × (0 < count 7 s.clients) × (close_all s.clients s.fds 7 ≡ free))
unfolding run count
foreign_closed_example = foreign_closed (accepts 7 ∷ []) 7 0 refl

-- One client takes the whole packet, the other one hangs up behind four bytes.
abbrev link : ℕ → List Answer
link zero = wrote 14 ∷ []
link (suc fd) = wrote 4 ∷ broken ∷ []

abbrev listening : Impl
listening = record { listen_fd = 3; path = []; clients = 0 ∷ 9 ∷ [] }

link_returns : (fd : ℕ) → (send (link fd) (to_u32 (pos 5) % 2 ^ 16) (1 ∷ 2 ∷ [])).status ≢ stalled
unfolding send write_all encode_header to_u32
link_returns zero = ground arith
link_returns (suc fd) = ground arith

native_ipc_broadcast-Delivered_example :
    (k : ℕ) × ((native_ipc_broadcast (some listening) link (pos 5) (some (1 ∷ 2 ∷ []))).0 ≡ some k)
    × Delivered
        (statuses link (to_u32 (pos 5) % 2 ^ 16) (1 ∷ 2 ∷ []))
        (frame (to_u32 (pos 5) % 2 ^ 16) (1 ∷ 2 ∷ []))
        (0 ∷ 9 ∷ [])
        (native_ipc_broadcast (some listening) link (pos 5) (some (1 ∷ 2 ∷ []))).1
        k
native_ipc_broadcast-Delivered_example =
    native_ipc_broadcast-Delivered listening link (pos 5) (1 ∷ 2 ∷ []) link_returns
