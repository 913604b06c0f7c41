-- ===== src/Guest/RealLibc.antt =====
-- fake/real_libc.cpp: the accessors to the functions of libc behind the hooks. Each has a static
-- slot, which `next_sym` fills with what dlsym(3) finds, on whatever thread comes first; the same
-- `next_sym` stands in fake/syscall_hooks_read.cpp and fake/syscall_hooks_write.cpp. dlsym is a
-- parameter that gives the address of a function. The steps of a thread are the load of the slot,
-- dlsym, and the store.
pub mod Resolves
pub mod Returns
use Prim.Native.String.{String}
use virtualaosp.Base.{ℕ, zero, suc, Option, none, some, List, [], ◌∷◌, ◌==◌, if◌then◌else◌, Bytes}
use virtualaosp.Guest.Libc.{Arg, path, num, text, Call}

-- The calls of the accessors; buffers and structs are numbers.
pub data Request : Type 0 where
  real_open : Option Bytes → ℕ → ℕ → Request
  real_close : ℕ → Request
  real_read real_lseek : ℕ → ℕ → ℕ → Request
  real_readlink : Option Bytes → ℕ → ℕ → Request
  real_fstat : ℕ → ℕ → Request
  real_fdopen : ℕ → Option Bytes → Request
  real_opendir : Option Bytes → Request
  real_getpid : Request

-- The static slot of an accessor.
abbrev pub slot_of : Request → ℕ
slot_of (real_open file flags mode) = 0
slot_of (real_close fd) = 1
slot_of (real_read fd buf count) = 2
slot_of (real_lseek fd offset whence) = 3
slot_of (real_readlink file buf size) = 4
slot_of (real_fstat fd st) = 5
slot_of (real_fdopen fd mode) = 6
slot_of (real_opendir file) = 7
slot_of real_getpid = 8

-- What an accessor gives to `next_sym`, and how it calls the function.
unfoldable pub call_of : Request → Call
call_of (real_open file flags mode) = record {
  symbol = "open";
  args = path file ∷ num flags ∷ num mode ∷ [];
}
call_of (real_close fd) = record { symbol = "close"; args = num fd ∷ [] }
call_of (real_read fd buf count) = record {
  symbol = "read";
  args = num fd ∷ num buf ∷ num count ∷ [];
}
call_of (real_lseek fd offset whence) = record {
  symbol = "lseek";
  args = num fd ∷ num offset ∷ num whence ∷ [];
}
call_of (real_readlink file buf size) = record {
  symbol = "readlink";
  args = path file ∷ num buf ∷ num size ∷ [];
}
call_of (real_fstat fd st) = record { symbol = "fstat"; args = num fd ∷ num st ∷ [] }
call_of (real_fdopen fd mode) = record { symbol = "fdopen"; args = num fd ∷ text mode ∷ [] }
call_of (real_opendir file) = record { symbol = "opendir"; args = path file ∷ [] }
call_of real_getpid = record { symbol = "getpid"; args = [] }

-- Where a thread is in an accessor: in front of the load, behind a load of null, with what dlsym
-- found, in the function, or in abort.
pub data Pc : Type 0 where
  outside : Pc
  loading looking aborted : Request → Pc
  storing called : Request → ℕ → Pc

pub record Process : Type 0 where
  pub slots : ℕ → Option ℕ
  pub pcs : ℕ → Pc

abbrev pub fresh : Process
fresh = record { slots = λ slot. none; pcs = λ thread. outside }

abbrev pub update : {A : Type 0} → ℕ → A → (ℕ → A) → ℕ → A
update i a f j = if i == j then a else f j

abbrev pub found : Request → Option ℕ → Pc
found r none = aborted r
found r (some fn) = storing r fn

abbrev pub loaded : Request → Option ℕ → Pc
loaded r none = looking r
loaded r (some fn) = called r fn

-- A step of a thread in `next_sym`.
abbrev pub move : (String → Option ℕ) → Process → ℕ → Pc → Process
move dlsym p i outside = p
move dlsym p i (loading r) = record p { pcs = update i (loaded r (p.slots (slot_of r))) p.pcs }
move dlsym p i (looking r) = record p { pcs = update i (found r (dlsym (call_of r).symbol)) p.pcs }
move dlsym p i (storing r fn) = record {
  slots = update (slot_of r) (some fn) p.slots;
  pcs = update i (called r fn) p.pcs;
}
move dlsym p i (called r fn) = p
move dlsym p i (aborted r) = p

-- A thread that is in no accessor, or in a function that it called, enters one.
abbrev pub enter : Process → ℕ → Request → Pc → Process
enter p i r outside = record p { pcs = update i (loading r) p.pcs }
enter p i r (called r' fn) = record p { pcs = update i (loading r) p.pcs }
enter p i r (loading r') = p
enter p i r (looking r') = p
enter p i r (storing r' fn) = p
enter p i r (aborted r') = p

pub data Event : Type 0 where
  enters : ℕ → Request → Event
  moves : ℕ → Event

unfoldable pub step : (String → Option ℕ) → Process → Event → Process
unfolding call_of
step dlsym p (enters i r) = enter p i r (p.pcs i)
step dlsym p (moves i) = move dlsym p i (p.pcs i)

unfoldable pub run : (String → Option ℕ) → Process → List Event → Process
unfolding step
run dlsym p [] = p
run dlsym p (e ∷ es) = run dlsym (step dlsym p e) es
