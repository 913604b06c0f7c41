-- ===== src/Ipc/Threads.antt =====
-- The threads of an IpcServer of core/ipc.cpp on the descriptors of the process: AcceptLoop, the
-- two halves of DropClient, which closes a descriptor before it takes the entry out of the table,
-- and the loop of Stop over the table. The rest of the process opens and closes descriptors too,
-- and a descriptor that is closed is given out again.
pub mod Table
use virtualaosp.Base.{
  ℕ, zero, suc, ◌+◌, Bool, true, false, List, [], ◌∷◌, ◌++◌, ◌==◌, if◌then◌else◌,
}
use virtualaosp.Ipc.Clients.{push_client, drop_client, count}

-- What a descriptor of the process is: nothing, a connection of the server, or another file.
pub data Owner : Type 0 where
  free connection foreign : Owner

abbrev pub Descriptors : Type 0
Descriptors = ℕ → Owner

abbrev pub set_fd : ℕ → Owner → Descriptors → Descriptors
set_fd fd owner table n = if fd == n then owner else table n

-- The table under clients_mu, the descriptors of the client threads that read, and the ones of the
-- client threads in DropClient between close(2) and the lock.
pub record Server : Type 0 where
  pub fds : Descriptors
  pub clients : List ℕ
  pub reading : List ℕ
  pub erasing : List ℕ

abbrev pub idle : Server
idle = record { fds = λ fd. free; clients = []; reading = []; erasing = [] }

-- A thread leaves one of the two lists.
unfoldable pub leave : ℕ → List ℕ → List ℕ
leave fd [] = []
leave fd (c ∷ cs) = let later = leave fd cs in if c == fd then cs else c ∷ later

-- A thread accepts a connection on a free descriptor; another part of the process opens a free
-- descriptor, or closes one that it opened; a client thread closes its descriptor, and takes the
-- entry out of the table.
pub data Event : Type 0 where
  accepts opens closes hangs_up erases : ℕ → Event

abbrev pub accept_on : Owner → Server → ℕ → Server
accept_on free s c = record {
  fds = set_fd c connection s.fds;
  clients = push_client s.clients c;
  reading = c ∷ s.reading;
  erasing = s.erasing;
}
accept_on connection s c = s
accept_on foreign s c = s

abbrev pub open_on : Owner → Server → ℕ → Server
open_on free s fd = record s { fds = set_fd fd foreign s.fds }
open_on connection s fd = s
open_on foreign s fd = s

abbrev pub close_on : Owner → Server → ℕ → Server
close_on foreign s fd = record s { fds = set_fd fd free s.fds }
close_on connection s fd = s
close_on free s fd = s

-- The first half of DropClient, by one of the threads that read `fd`.
abbrev pub hang_up_on : ℕ → Server → ℕ → Server
hang_up_on zero s fd = s
hang_up_on (suc n) s fd = record {
  fds = set_fd fd free s.fds;
  clients = s.clients;
  reading = leave fd s.reading;
  erasing = fd ∷ s.erasing;
}

-- The second half, under the lock.
abbrev pub erase_on : ℕ → Server → ℕ → Server
erase_on zero s fd = s
erase_on (suc n) s fd = record s {
  clients = drop_client fd s.clients;
  erasing = leave fd s.erasing;
}

unfoldable pub step : Server → Event → Server
unfolding push_client drop_client leave count
step s (accepts c) = accept_on (s.fds c) s c
step s (opens fd) = open_on (s.fds fd) s fd
step s (closes fd) = close_on (s.fds fd) s fd
step s (hangs_up fd) = hang_up_on (count fd s.reading) s fd
step s (erases fd) = erase_on (count fd s.erasing) s fd

unfoldable pub run : Server → List Event → Server
unfolding step
run s [] = s
run s (e ∷ es) = run (step s e) es

-- The loop of Stop over the table: what close(2) does to the descriptors of the process.
unfoldable pub close_all : List ℕ → Descriptors → Descriptors
close_all [] fds = fds
close_all (c ∷ cs) fds = close_all cs (set_fd c free fds)
