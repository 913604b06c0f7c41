-- ===== src/Ipc/Threads/Table.antt =====
-- The entries of the client table of core/ipc.cpp against the descriptors they name.
use virtualaosp.Base.{
  ℕ, zero, suc, ◌+◌, ◌-◌, ◌≤◌, ◌<◌, List, [], ◌∷◌, ◌++◌, ◌==◌, ◌≡◌, ◌≢◌, refl, ap, ◌∙◌, sym, subst,
  inl, inr, arith, if◌then◌else◌, Bool-cases, ==_self,
}
use virtualaosp.Ipc.Clients.{push_client, count, count-drop_client}
use virtualaosp.Ipc.Threads.{
  Owner, free, connection, foreign, Descriptors, set_fd, Server, idle, leave, Event, accepts, opens,
  closes, hangs_up, erases, accept_on, open_on, close_on, hang_up_on, erase_on, step, run,
  close_all,
}

-- How many connections a descriptor is.
abbrev pub live : Owner → ℕ
live free = 0
live connection = 1
live foreign = 0

-- Each entry is a live connection or the one of a thread in DropClient, and each thread that reads
-- has its connection.
record Inv (s : Server) : Type 0 where
  entries : (fd : ℕ) → count fd s.clients ≡ live (s.fds fd) + count fd s.erasing
  readers : (fd : ℕ) → count fd s.reading ≡ live (s.fds fd)

count-append :
    (fd c : ℕ) (cs : List ℕ) → count fd (cs ++ (c ∷ [])) ≡ count fd cs + count fd (c ∷ [])
unfolding count
count-append fd c [] = omega arith
count-append fd c (d ∷ cs) = ground (arith, count-append fd c cs)

count-leave :
    (fd other : ℕ) (cs : List ℕ)
    → (count fd (leave fd cs) ≡ count fd cs - 1)
      × (other ≢ fd → count other (leave fd cs) ≡ count other cs)
unfolding leave count
count-leave fd other [] = (refl, λ ne. refl)
count-leave fd other (c ∷ cs) = elim (Bool-cases (c == fd)) [
  | inl hit ↦ rw hit (omega arith, λ ne. ground arith)
  | inr miss ↦ rw miss (
    ground (arith, (count-leave fd other cs).0, miss),
    λ ne. ground (arith, (count-leave fd other cs).1 ne),
  )
]

accept-Inv : (s : Server) (c : ℕ) → s.fds c ≡ free → Inv s → Inv (accept_on free s c)
unfolding push_client count
accept-Inv s c e inv = record {
  entries =
      λ fd. ground (arith, ap live e, inv.entries fd, inv.entries c, count-append fd c s.clients);
  readers = λ fd. ground (arith, ap live e, inv.readers fd, inv.readers c);
}

open-Inv : (s : Server) (c : ℕ) → s.fds c ≡ free → Inv s → Inv (open_on free s c)
open-Inv s c e inv = record {
  entries = λ fd. ground (arith, ap live e, inv.entries fd, inv.entries c);
  readers = λ fd. ground (arith, ap live e, inv.readers fd, inv.readers c);
}

close-Inv : (s : Server) (c : ℕ) → s.fds c ≡ foreign → Inv s → Inv (close_on foreign s c)
close-Inv s c e inv = record {
  entries = λ fd. ground (arith, ap live e, inv.entries fd, inv.entries c);
  readers = λ fd. ground (arith, ap live e, inv.readers fd, inv.readers c);
}

live-le : (o : Owner) → live o ≤ 1
live-le free = omega arith
live-le connection = omega arith
live-le foreign = omega arith

hang_up-Inv :
    (s : Server) (c n : ℕ) → count c s.reading ≡ suc n → Inv s → Inv (hang_up_on (suc n) s c)
unfolding count
hang_up-Inv s c n e inv = record {
  entries = λ fd.
      ground
        (arith, e, inv.entries fd, inv.entries c, inv.readers fd, inv.readers c, live-le (s.fds c));
  readers = λ fd.
      ground
        (arith, e, inv.readers fd, inv.readers c, live-le (s.fds c), count-leave c fd s.reading);
}

erase-Inv : (s : Server) (c n : ℕ) → count c s.erasing ≡ suc n → Inv s → Inv (erase_on (suc n) s c)
erase-Inv s c n e inv = record {
  entries = λ fd. ground (
    arith,
    e,
    inv.entries fd,
    inv.entries c,
    count-leave c fd s.erasing,
    count-drop_client c fd s.clients,
  );
  readers = inv.readers;
}

step-Inv : (s : Server) (e : Event) → Inv s → Inv (step s e)
unfolding step
step-Inv s (accepts c) inv = on (s.fds c) refl
  where
    on : (o : Owner) → s.fds c ≡ o → Inv (accept_on o s c)
    on free e = accept-Inv s c e inv
    on connection e = inv
    on foreign e = inv
step-Inv s (opens c) inv = on (s.fds c) refl
  where
    on : (o : Owner) → s.fds c ≡ o → Inv (open_on o s c)
    on free e = open-Inv s c e inv
    on connection e = inv
    on foreign e = inv
step-Inv s (closes c) inv = on (s.fds c) refl
  where
    on : (o : Owner) → s.fds c ≡ o → Inv (close_on o s c)
    on free e = inv
    on connection e = inv
    on foreign e = close-Inv s c e inv
step-Inv s (hangs_up c) inv = on (count c s.reading) refl
  where
    on : (n : ℕ) → count c s.reading ≡ n → Inv (hang_up_on n s c)
    on zero e = inv
    on (suc n) e = hang_up-Inv s c n e inv
step-Inv s (erases c) inv = on (count c s.erasing) refl
  where
    on : (n : ℕ) → count c s.erasing ≡ n → Inv (erase_on n s c)
    on zero e = inv
    on (suc n) e = erase-Inv s c n e inv

run-Inv : (s : Server) (es : List Event) → Inv s → Inv (run s es)
unfolding run
run-Inv s [] inv = inv
run-Inv s (e ∷ es) inv = run-Inv (step s e) es (step-Inv s e inv)

idle-Inv : Inv idle
unfolding count
idle-Inv = record { entries = λ fd. refl; readers = λ fd. refl }

closed-free :
    (cs : List ℕ) (fds : Descriptors) (fd : ℕ) → fds fd ≡ free → close_all cs fds fd ≡ free
unfolding close_all
closed-free [] fds fd e = e
closed-free (c ∷ cs) fds fd e = closed-free cs (set_fd c free fds) fd (ground (arith, e))

-- What the loop of Stop makes of a descriptor: it is closed if it is in the table.
close_all-in :
    (cs : List ℕ) (fds : Descriptors) (fd n : ℕ) → count fd cs ≡ suc n → close_all cs fds fd ≡ free
unfolding close_all count
close_all-in [] fds fd n e = ground arith
close_all-in (c ∷ cs) fds fd n e = elim (Bool-cases (c == fd)) [
  | inl hit ↦ closed-free cs (set_fd c free fds) fd (rw hit refl)
  | inr miss ↦ close_all-in cs (set_fd c free fds) fd n (ground (arith, e, miss))
]

close_all-out :
    (cs : List ℕ) (fds : Descriptors) (fd : ℕ) → count fd cs ≡ 0 → close_all cs fds fd ≡ fds fd
unfolding close_all count
close_all-out [] fds fd e = refl
close_all-out (c ∷ cs) fds fd e = elim (Bool-cases (c == fd)) [
  | inl hit ↦ ground (arith, e, hit)
  | inr miss ↦ close_all-out cs (set_fd c free fds) fd (ground (arith, e, miss)) ∙ (rw miss refl)
]

count-nil : (fd : ℕ) → count fd [] ≡ 0
unfolding count
count-nil fd = refl

-- A connection is closed, and nothing else.
abbrev pub spared : Owner → Owner
spared free = free
spared connection = free
spared foreign = foreign

-- In every run of the server's threads beside the rest of the process, while no thread is between
-- close(2) and its table entry, each entry of the table names a connection of the server, each
-- connection has one entry, and the loop of Stop closes the connections and no other descriptor.
pub stop_closes_connections :
    (es : List Event) (fd : ℕ)
    → (run idle es).erasing ≡ []
    → (count fd (run idle es).clients ≡ live ((run idle es).fds fd))
      × (close_all (run idle es).clients (run idle es).fds fd ≡ spared ((run idle es).fds fd))
stop_closes_connections es fd settled = (entries, on (s.fds fd) refl)
  where
    s : Server
    s = run idle es

    entries : count fd s.clients ≡ live (s.fds fd)
    entries =
        omega (arith, (run-Inv idle es idle-Inv).entries fd, ap (count fd) settled, count-nil fd)

    on : (o : Owner) → s.fds fd ≡ o → close_all s.clients s.fds fd ≡ spared o
    on free e = close_all-out s.clients s.fds fd (entries ∙ ap live e) ∙ e
    on connection e = close_all-in s.clients s.fds fd 0 (entries ∙ ap live e)
    on foreign e = close_all-out s.clients s.fds fd (entries ∙ ap live e) ∙ e

-- The server behind the first half of DropClient and an open(2) of the same number.
reused :
    (s : Server) (fd n : ℕ)
    → count fd s.reading ≡ suc n
    → run s (hangs_up fd ∷ opens fd ∷ []) ≡ open_on free (hang_up_on (suc n) s fd) fd
unfolding run step
reused s fd n reads =
    ap (λ k. open_on ((hang_up_on k s fd).fds fd) (hang_up_on k s fd) fd) reads
    ∙ ap (λ b. open_on (if b then free else s.fds fd) (hang_up_on (suc n) s fd) fd) (==_self fd)

set_fd-same : (fd : ℕ) (o : Owner) (fds : Descriptors) → set_fd fd o fds fd ≡ o
set_fd-same fd o fds = ap (λ b. if b then o else fds fd) (==_self fd)

-- In every run that has a client thread reading on a descriptor: if the thread closes it, and
-- before the thread gets the lock another part of the process opens a file, which gets the same
-- number, then the table names that file, and the loop of Stop closes it.
pub foreign_closed :
    (es : List Event) (fd n : ℕ)
    → count fd (run idle es).reading ≡ suc n
    → (let s = run (run idle es) (hangs_up fd ∷ opens fd ∷ []) in
        (s.fds fd ≡ foreign) × (0 < count fd s.clients) × (close_all s.clients s.fds fd ≡ free))
foreign_closed es fd n reads =
    subst
      (λ t. (t.fds fd ≡ foreign) × (0 < count fd t.clients) × (close_all t.clients t.fds fd ≡ free))
      (sym (reused (run idle es) fd n reads))
      (
        set_fd-same fd foreign behind.fds,
        some_entry,
        close_all-in behind.clients (open_on free behind fd).fds fd (count fd behind.clients - 1)
            (omega (arith, some_entry)),
      )
  where
    behind : Server
    behind = hang_up_on (suc n) (run idle es) fd

    some_entry : 0 < count fd (run idle es).clients
    some_entry =
        let inv = run-Inv idle es idle-Inv in omega (arith, inv.entries fd, inv.readers fd, reads)
