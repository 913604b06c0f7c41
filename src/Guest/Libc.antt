-- ===== src/Guest/Libc.antt =====
-- The libc behind the hooks (what `next_sym` finds by dlsym) is a parameter: a world, and one
-- transition for each call that returns a number or a pointer, and for each that fills a stat.
use Prim.Native.String.{String}
use virtualaosp.Base.{ℕ, Option, List, Bytes}

-- `path` is a location for the callee, `text` a string that it only stores or reads, `num` a
-- scalar or a pointer that the hooks pass on.
pub data Arg : Type 0 where
  path : Option Bytes → Arg
  text : Option Bytes → Arg
  num : ℕ → Arg

pub record Call : Type 0 where
  pub symbol : String
  pub args : List Arg

-- -1 or a null pointer with errno, or another result.
pub data Reply : Type 0 where
  done : ℕ → Reply
  failed : ℕ → Reply

-- The fields that the program reads or writes; `others` stands for the rest of the struct, and
-- is empty where they are all zero.
pub record Stat : Type 0 where
  pub st_mode : ℕ
  pub st_nlink : ℕ
  pub st_uid : ℕ
  pub st_gid : ℕ
  pub st_size : ℕ
  pub others : List ℕ

pub data StatReply : Type 0 where
  filled : Stat → StatReply
  refused : ℕ → StatReply

-- One call of read(2) that does not end the loop: some bytes, or EINTR.
pub data Piece : Type 0 where
  got : Bytes → Piece
  signalled : Piece

pub data LinkReply : Type 0 where
  target : Bytes → LinkReply
  no_link : ℕ → LinkReply

pub record Libc : Type 1 where
  pub World : Type 0
  pub call : Call → World → Reply × World
  pub stat_call : Call → World → StatReply × World
  -- A file opened for reading, read until read(2) returns 0 or fails with another errno than
  -- EINTR, and closed; `none` if it cannot be opened. The bytes hold no NUL.
  pub read_file : Bytes → World → Option (List Piece) × World
  -- The strings that fgets returns of a file with a buffer of 4096 bytes.
  pub read_lines : Bytes → World → Option (List Bytes) × World
  -- Everything written to a fresh memfd, which takes it all, and the offset set back to 0.
  pub fill : ℕ → Bytes → World → World
  -- readlink(2) with a buffer of 4095 bytes: the text, or errno.
  pub read_link : Bytes → World → LinkReply × World

-- errno values of the Linux ABI.
abbrev pub enoent : ℕ
enoent = 2

abbrev pub eacces : ℕ
eacces = 13

abbrev pub efault : ℕ
efault = 14

abbrev pub eexist : ℕ
eexist = 17

abbrev pub einval : ℕ
einval = 22

abbrev pub enametoolong : ℕ
enametoolong = 36
