-- ===== src/Ipc/Server.antt =====
-- The life of an IpcServer of core/ipc.cpp: Start, Stop, AcceptLoop and DropClient, each taken as a
-- whole, with their calls on descriptors and on the socket's path as a trace. errno of a call that
-- fails is an answer of the system.
pub mod Balance
use virtualaosp.Base.{
  ℕ, zero, suc, ◌+◌, Option, none, some, List, [], ◌∷◌, ◌++◌, ◌≡◌, refl, ap, subst, ◌≢◌, arith, leb,
  ◌==◌, if◌then◌else◌, length, inl, inr, Bool-cases, Bytes, ==_self,
}
use virtualaosp.Base.Int.{ℤ, pos, negsuc}
use virtualaosp.Ipc.Clients.{push_client, drop_client, count, count-drop_client}

-- IpcServer::Impl; a server without one is not started.
pub record Impl : Type 0 where
  pub listen_fd : ℕ
  pub path : Bytes
  pub clients : List ℕ

pub data Act : Type 0 where
  opened closed shut_down : ℕ → Act
  bound unlinked made_writable : Bytes → Act
  listening : Act

-- The descriptor or errno of socket(2), and errno of bind(2) and listen(2).
pub data SocketAnswer : Type 0 where
  socket_fd socket_errno : ℕ → SocketAnswer

pub record Answers : Type 0 where
  pub socket : SocketAnswer
  pub bind_errno : Option ℕ
  pub listen_errno : Option ℕ

abbrev pub Result : Type 0
Result = ℤ × Option Impl × List Act

abbrev pub minus : ℕ → ℤ
minus zero = pos 0
minus (suc n) = negsuc n

abbrev pub ealready : ℕ
ealready = 114

abbrev pub enametoolong : ℕ
enametoolong = 36

-- sizeof(addr.sun_path)
abbrev pub sun_path_size : ℕ
sun_path_size = 108

abbrev pub after_listen : ℕ → Bytes → Option ℕ → List Act → Result
after_listen fd path (some errno) acts =
    (minus errno, none, acts ++ (closed fd ∷ unlinked path ∷ []))
after_listen fd path none acts =
    (pos 0, some (record { listen_fd = fd; path = path; clients = [] }), acts ++ (listening ∷ []))

abbrev pub after_bind : ℕ → Bytes → Answers → Option ℕ → Result
after_bind fd path a (some errno) = (minus errno, none, opened fd ∷ unlinked path ∷ closed fd ∷ [])
after_bind fd path a none =
    after_listen fd path a.listen_errno
      (opened fd ∷ unlinked path ∷ bound path ∷ made_writable path ∷ [])

abbrev pub after_socket : Bytes → Answers → SocketAnswer → Result
after_socket path a (socket_errno errno) = (minus errno, none, [])
after_socket path a (socket_fd fd) =
    if leb sun_path_size (length path)
    then (minus enametoolong, none, opened fd ∷ closed fd ∷ [])
    else after_bind fd path a a.bind_errno

unfoldable pub start : Option Impl → Bytes → Answers → Result
start (some impl) path a = (minus ealready, some impl, [])
start none path a = after_socket path a a.socket

-- The loop over the clients.
unfoldable pub close_clients : List ℕ → List Act
close_clients [] = []
close_clients (c ∷ clients) = shut_down c ∷ closed c ∷ close_clients clients

unfoldable pub stop : Option Impl → Option Impl × List Act
unfolding close_clients
stop none = (none, [])
stop (some impl) = (
  none,
  shut_down impl.listen_fd
      ∷ closed impl.listen_fd
      ∷ (close_clients impl.clients ++ (unlinked impl.path ∷ [])),
)

-- A round of AcceptLoop that gets a connection.
unfoldable pub accept : Option Impl → ℕ → Option Impl × List Act
unfolding push_client
accept none c = (none, [])
accept (some impl) c = (some (record impl { clients = push_client impl.clients c }), opened c ∷ [])

-- DropClient: the close, and then, under the lock, the erase. Here no call of another thread comes
-- between the two; Ipc.Threads has them as steps of their own.
unfoldable pub hang_up : Option Impl → ℕ → Option Impl × List Act
unfolding drop_client
hang_up none fd = (none, [])
hang_up (some impl) fd =
    (some (record impl { clients = drop_client fd impl.clients }), closed fd ∷ [])

-- The thread that calls it; there is one for each entry of the table.
abbrev pub thread_ends : Option Impl → ℕ → ℕ → Option Impl × List Act
thread_ends s fd zero = (s, [])
thread_ends s fd (suc n) = hang_up s fd

abbrev pub threads_of : ℕ → Option Impl → ℕ
threads_of fd none = 0
threads_of fd (some impl) = count fd impl.clients

pub data Event : Type 0 where
  start_at : Bytes → Answers → Event
  accepts hangs_up : ℕ → Event
  stops : Event

unfoldable pub step : Option Impl → Event → Option Impl × List Act
unfolding start stop accept hang_up
step s (start_at path a) = ((start s path a).1, (start s path a).2)
step s (accepts c) = accept s c
step s (hangs_up fd) = thread_ends s fd (threads_of fd s)
step s stops = stop s

unfoldable pub run : Option Impl → List Event → Option Impl × List Act
unfolding step
run s [] = (s, [])
run s (e ∷ es) = let (s', acts) = step s e in let (s'', more) = run s' es in (s'', acts ++ more)
