-- ===== src/Ipc/Server/Balance.antt =====
-- The descriptors of an IpcServer of core/ipc.cpp over a life without overlapping calls.
use virtualaosp.Base.{
  ℕ, zero, suc, ◌+◌, Option, none, some, List, [], ◌∷◌, ◌++◌, ◌≡◌, refl, ap, subst, ◌≢◌, arith, leb,
  ◌==◌, if◌then◌else◌, length, inl, inr, Bool-cases, Bytes, ==_self,
}
use virtualaosp.Ipc.Clients.{push_client, drop_client, count, count-drop_client}
use virtualaosp.Ipc.Server.{
  Impl, Act, SocketAnswer, Answers, sun_path_size, after_listen, after_bind, after_socket, start,
  close_clients, stop, accept, hang_up, thread_ends, threads_of, Event, step, run, opened, closed,
  unlinked, listening, socket_fd, socket_errno, start_at, accepts, hangs_up, stops,
}

-- How often a descriptor was opened and closed, and how often the server holds it.
abbrev open_of : ℕ → Act → ℕ
open_of fd (opened fd') = if fd' == fd then 1 else 0
open_of fd _ = 0

abbrev close_of : ℕ → Act → ℕ
close_of fd (closed fd') = if fd' == fd then 1 else 0
close_of fd _ = 0

pub opens : ℕ → List Act → ℕ
opens fd [] = 0
opens fd (act ∷ acts) = open_of fd act + opens fd acts

pub closes : ℕ → List Act → ℕ
closes fd [] = 0
closes fd (act ∷ acts) = close_of fd act + closes fd acts

abbrev pub held : ℕ → Option Impl → ℕ
held fd none = 0
held fd (some impl) = (if impl.listen_fd == fd then 1 else 0) + count fd impl.clients

abbrev pub Balanced : ℕ → Option Impl → Option Impl × List Act → Type 0
Balanced fd s (s', acts) = opens fd acts + held fd s ≡ closes fd acts + held fd s'

opens-append : (fd : ℕ) (xs ys : List Act) → opens fd (xs ++ ys) ≡ opens fd xs + opens fd ys
unfolding opens
opens-append fd [] ys = omega arith
opens-append fd (x ∷ xs) ys = omega (arith, opens-append fd xs ys)

closes-append : (fd : ℕ) (xs ys : List Act) → closes fd (xs ++ ys) ≡ closes fd xs + closes fd ys
unfolding closes
closes-append fd [] ys = omega arith
closes-append fd (x ∷ xs) ys = omega (arith, closes-append fd xs ys)

count-push_client :
    (fd c : ℕ) (clients : List ℕ)
    → count fd (push_client clients c) ≡ count fd clients + (if c == fd then 1 else 0)
unfolding count push_client
count-push_client fd c [] = ground arith
count-push_client fd c (d ∷ clients) = ground (arith, count-push_client fd c clients)

closes-close_clients :
    (fd : ℕ) (clients : List ℕ) → closes fd (close_clients clients) ≡ count fd clients
unfolding closes close_clients count
closes-close_clients fd [] = refl
closes-close_clients fd (c ∷ clients) = ground (arith, closes-close_clients fd clients)

opens-close_clients : (fd : ℕ) (clients : List ℕ) → opens fd (close_clients clients) ≡ 0
unfolding opens close_clients
opens-close_clients fd [] = refl
opens-close_clients fd (c ∷ clients) = omega (arith, opens-close_clients fd clients)

listen-Balanced :
    (fd l : ℕ) (path : Bytes) (o : Option ℕ) (acts : List Act)
    → opens fd acts ≡ (if l == fd then 1 else 0)
    → closes fd acts ≡ 0
    → Balanced fd none ((after_listen l path o acts).1, (after_listen l path o acts).2)
unfolding opens closes count
listen-Balanced fd l path none acts e z =
    ground
      (arith, e, z, opens-append fd acts (listening ∷ []), closes-append fd acts (listening ∷ []))
listen-Balanced fd l path (some errno) acts e z =
    let tail = closed l ∷ unlinked path ∷ [] in
    ground (arith, e, z, opens-append fd acts tail, closes-append fd acts tail)

bind-Balanced :
    (fd l : ℕ) (path : Bytes) (a : Answers) (o : Option ℕ)
    → Balanced fd none ((after_bind l path a o).1, (after_bind l path a o).2)
unfolding opens closes
bind-Balanced fd l path a none =
    listen-Balanced fd l path a.listen_errno _ (omega arith) (omega arith)
bind-Balanced fd l path a (some errno) = omega arith

socket-Balanced :
    (fd : ℕ) (path : Bytes) (a : Answers) (o : SocketAnswer)
    → Balanced fd none ((after_socket path a o).1, (after_socket path a o).2)
unfolding opens closes
socket-Balanced fd path a (socket_errno errno) = refl
socket-Balanced fd path a (socket_fd l) = elim (Bool-cases (leb sun_path_size (length path))) [
  | inl long ↦ rw long (omega arith)
  | inr fits ↦ rw fits (bind-Balanced fd l path a a.bind_errno)
]

start-Balanced :
    (fd : ℕ) (s : Option Impl) (path : Bytes) (a : Answers)
    → Balanced fd s ((start s path a).1, (start s path a).2)
unfolding start opens closes
start-Balanced fd none path a = socket-Balanced fd path a a.socket
start-Balanced fd (some impl) path a = omega arith

stop-Balanced : (fd : ℕ) (s : Option Impl) → Balanced fd s (stop s)
unfolding stop opens closes
stop-Balanced fd none = refl
stop-Balanced fd (some impl) =
    let rest = unlinked impl.path ∷ [] in
    omega (
      arith,
      opens-append fd (close_clients impl.clients) rest,
      closes-append fd (close_clients impl.clients) rest,
      opens-close_clients fd impl.clients,
      closes-close_clients fd impl.clients,
    )

accept-Balanced : (fd : ℕ) (s : Option Impl) (c : ℕ) → Balanced fd s (accept s c)
unfolding accept opens closes
accept-Balanced fd none c = refl
accept-Balanced fd (some impl) c = omega (arith, count-push_client fd c impl.clients)

drop_self :
    (fd c : ℕ) (clients : List ℕ) (n : ℕ)
    → count c clients ≡ suc n
    → count fd clients ≡ count fd (drop_client c clients) + (if c == fd then 1 else 0)
drop_self fd c clients n h = elim (Bool-cases (c == fd)) [
  | inl e ↦
      let same : c ≡ fd = ground arith in
      subst (λ f. count f clients ≡ count f (drop_client c clients) + (if c == f then 1 else 0))
        same (ground (arith, ==_self c, (count-drop_client c c clients).0))
  | inr e ↦
      let apart : fd ≢ c = ground arith in ground (arith, (count-drop_client c fd clients).1 apart)
]

hang_up-Balanced :
    (fd : ℕ) (s : Option Impl) (c n : ℕ) → threads_of c s ≡ n → Balanced fd s (thread_ends s c n)
unfolding hang_up opens closes
hang_up-Balanced fd s c zero h = omega arith
hang_up-Balanced fd none c (suc n) h = omega arith
hang_up-Balanced fd (some impl) c (suc n) h = omega (arith, drop_self fd c impl.clients n h)

step-Balanced : (fd : ℕ) (s : Option Impl) (e : Event) → Balanced fd s (step s e)
unfolding step
step-Balanced fd s (start_at path a) = start-Balanced fd s path a
step-Balanced fd s (accepts c) = accept-Balanced fd s c
step-Balanced fd s (hangs_up c) = hang_up-Balanced fd s c (threads_of c s) refl
step-Balanced fd s stops = stop-Balanced fd s

run-Balanced : (fd : ℕ) (s : Option Impl) (es : List Event) → Balanced fd s (run s es)
unfolding run
run-Balanced fd s [] = (unfold opens closes in omega arith)
run-Balanced fd s (e ∷ es) =
    let first = step s e in
    let rest = run first.0 es in
    omega (
      arith,
      step-Balanced fd s e,
      run-Balanced fd first.0 es,
      opens-append fd first.1 rest.1,
      closes-append fd first.1 rest.1,
    )

stop_empties : (s : Option Impl) → (stop s).0 ≡ none
unfolding stop
stop_empties none = refl
stop_empties (some impl) = refl

run-stops : (s : Option Impl) (es : List Event) → (run s (es ++ (stops ∷ []))).0 ≡ none
unfolding run
run-stops s [] = unfold step in stop_empties s
run-stops s (e ∷ es) = run-stops (step s e).0 es

-- Over any sequence of calls of a server (starts, accepted connections, hang-ups and stops) in which
-- each call ends before the next begins, so that no other call comes between the close of
-- `DropClient` and its erase, and with whatever failures of socket, bind and listen, every descriptor has been opened
-- as often as it has been closed and is still held; behind a stop none is held, so each has been
-- closed exactly as often as it was opened.
pub server_closes_all :
    (fd : ℕ) (es : List Event)
    → (opens fd (run none es).1 ≡ closes fd (run none es).1 + held fd (run none es).0)
      × (opens fd (run none (es ++ (stops ∷ []))).1 ≡ closes fd (run none (es ++ (stops ∷ []))).1)
server_closes_all fd es =
    let behind = es ++ (stops ∷ []) in
    (
      omega (arith, run-Balanced fd none es),
      omega (arith, run-Balanced fd none behind, ap (held fd) (run-stops none es)),
    )
