-- ===== src/Ipc/Stream.antt =====
-- A socket's input as the readers see it: what recv(2) has to give, in order. A reader takes at
-- most what it asks for of the first piece, and the rest of the piece stays.
pub mod Whole
use virtualaosp.Base.{
  ℕ, zero, suc, ◌+◌, ◌-◌, ◌≤◌, ◌<◌, Bool, true, false, Option, none, some, List, [], ◌∷◌, ◌++◌, ◌≡◌,
  refl, sym, ap, ◌∙◌, arith, ltb, leb, if◌then◌else◌, length, length-append, take, drop,
  append_assoc, Bytes,
}

-- `piece` is data that arrives together, `interrupted` is -1 with EINTR, `closed` the end of the
-- stream or another error. A stream that runs out blocks for ever.
pub data Input : Type 0 where
  piece : Bytes → Input
  interrupted : Input
  closed : Input

-- What the reading loops of the two sides come to.
pub data Read : Type 0 where
  full : Bytes → List Input → Read
  disconnect : Read
  blocked : Read

abbrev pub prepend : Bytes → Read → Read
prepend bs (full rest inputs) = full (bs ++ rest) inputs
prepend bs disconnect = disconnect
prepend bs blocked = blocked

-- `while (got < len) { n = recv(...); if (n <= 0) goto disconnect; got += n; }` of the host; an
-- empty piece is a return value of 0.
unfoldable pub recv_exact : ℕ → List Input → Read
recv_exact zero inputs = full [] inputs
recv_exact (suc n) [] = blocked
recv_exact (suc n) (interrupted ∷ inputs) = disconnect
recv_exact (suc n) (closed ∷ inputs) = disconnect
recv_exact (suc n) (piece [] ∷ inputs) = disconnect
recv_exact (suc n) (piece (b ∷ bs) ∷ inputs) =
    let more = prepend (b ∷ bs) (recv_exact (suc n - length (b ∷ bs)) inputs) in
    if leb (length (b ∷ bs)) (suc n)
    then more
    else full (take (suc n) (b ∷ bs)) (piece (drop (suc n) (b ∷ bs)) ∷ inputs)

-- ReadFull of the guest: the same, but an interrupted call is made again.
unfoldable pub read_full : ℕ → List Input → Read
read_full zero inputs = full [] inputs
read_full (suc n) [] = blocked
read_full (suc n) (interrupted ∷ inputs) = read_full (suc n) inputs
read_full (suc n) (closed ∷ inputs) = disconnect
read_full (suc n) (piece [] ∷ inputs) = disconnect
read_full (suc n) (piece (b ∷ bs) ∷ inputs) =
    let more = prepend (b ∷ bs) (read_full (suc n - length (b ∷ bs)) inputs) in
    if leb (length (b ∷ bs)) (suc n)
    then more
    else full (take (suc n) (b ∷ bs)) (piece (drop (suc n) (b ∷ bs)) ∷ inputs)
