-- ===== src/Io61.antt =====
-- pset5/io61.cc: byte input and output. The system calls are parameters: each takes the state of
-- the operating system, a `World`, and returns what it answers and the new state. `read` and `write`
-- are called for one byte alone.
pub mod Read
pub mod Write
pub mod Utilities
mod Tests
use cs61_f26_psets.Common.{
  ℕ, zero, suc, Option, none, some, ◌+◌, ◌%◌, Bool, true, false, not, ◌&&◌, ◌==◌, if◌then◌else◌,
}
use cs61_f26_psets.Common.Int.{ℤ, pos, negsuc}
use cs61_f26_psets.Common.Memory.{Memory, store}

-- What `read(fd, &ch, 1)` answers: 1 and the byte, 0, or -1 with `errno` set.
pub data ReadAnswer : Type 0 where
  byte : ℕ → ReadAnswer
  at_end : ReadAnswer
  failed : ℕ → ReadAnswer

-- What `write(fd, &ch, 1)` answers: 1, 0, or -1 with `errno` set.
pub data WriteAnswer : Type 0 where
  written : WriteAnswer
  refused : WriteAnswer
  broken : ℕ → WriteAnswer

-- `io61_file`
pub record File : Type 0 where
  pub fd : ℕ
  pub mode : ℕ

-- The operating system, `errno`, and memory.
pub record State (World : Type 0) : Type 0 where
  pub world : World
  pub errno : ℕ
  pub memory : Memory

-- `io61_fdopen`
abbrev pub fdopen : ℕ → ℕ → File
fdopen fd mode = record { fd = fd; mode = mode }

-- `io61_fileno`
abbrev pub fileno : File → ℕ
fileno f = f.fd

module _ {World : Type 0} where
  -- `io61_flush`, which has nothing to write
  abbrev pub flush : File → State World → ℤ × State World
  flush f st = (pos 0, st)

  -- `io61_close`, with the answer of `close` as its result. The errno of a failing close or lseek
  -- is not kept.
  unfoldable pub close : (ℕ → World → ℤ × World) → File → State World → ℤ × State World
  close sys_close f st =
      let (_, st') = flush f st in
      let (r, world') = sys_close f.fd st'.world in (r, record st' { world = world' })

  -- `io61_seek`, which maps every offset that `lseek` answers to 0
  unfoldable pub seek : (ℕ → ℤ → World → ℤ × World) → File → ℤ → State World → ℤ × State World
  seek sys_lseek f off st =
      let (r, world') = sys_lseek f.fd off st.world in
      (elim r [ negsuc zero ↦ negsuc 0 | _ ↦ pos 0 ], record st { world = world' })

  -- `io61_filesize`: `fstat` answers `none` for an error, or whether the file is regular and its
  -- `st_size`.
  unfoldable pub filesize : (ℕ → World → Option (Bool × ℤ)) → File → State World → ℤ
  filesize sys_fstat f st = elim (sys_fstat f.fd st.world) [
    | none ↦ negsuc 0
    | some (regular, st_size) ↦ if regular then st_size else negsuc 0
  ]

  -- `io61_readc`: the byte, or -1 for EOF.
  unfoldable pub readc : (ℕ → World → ReadAnswer × World) → File → State World → ℤ × State World
  readc sys_read f st =
      let (answer, world') = sys_read f.fd st.world in
      elim answer [
        | byte ch ↦ (pos (ch % 256), record st { world = world' })
        | at_end ↦ (negsuc 0, record st { world = world'; errno = 0 })
        | failed e ↦ (negsuc 0, record st { world = world'; errno = e })
      ]

  -- The loop of `io61_read` with `left` bytes to go: `nread` and the state where it ends.
  unfoldable pub read_from :
      (ℕ → World → ReadAnswer × World) → File → ℕ → ℕ → ℕ → State World → ℕ × State World
  read_from sys_read f buf nread zero st = (nread, st)
  read_from sys_read f buf nread (suc left) st =
      let (ch, st') = readc sys_read f st in
      elim ch [
        | negsuc n ↦ (nread, st')
        | pos c ↦
            read_from sys_read f buf (nread + 1) left
              (record st' { memory = store st'.memory (buf + nread) c })
      ]

  -- `io61_read`
  unfoldable pub read :
      (ℕ → World → ReadAnswer × World) → File → ℕ → ℕ → State World → ℤ × State World
  read sys_read f buf sz st =
      let (nread, st') = read_from sys_read f buf 0 sz st in
      if nread == 0 && (not (sz == 0) && not (st'.errno == 0))
      then (negsuc 0, st')
      else (pos nread, st')

  -- `io61_writec`
  unfoldable pub writec :
      (ℕ → ℕ → World → WriteAnswer × World) → File → ℕ → State World → ℤ × State World
  writec sys_write f c st =
      let (answer, world') = sys_write f.fd (c % 256) st.world in
      elim answer [
        | written ↦ (pos 0, record st { world = world' })
        | refused ↦ (negsuc 0, record st { world = world' })
        | broken e ↦ (negsuc 0, record st { world = world'; errno = e })
      ]

  -- The loop of `io61_write` with `left` bytes to go.
  unfoldable pub write_from :
      (ℕ → ℕ → World → WriteAnswer × World) → File → ℕ → ℕ → ℕ → State World → ℕ × State World
  write_from sys_write f buf nwritten zero st = (nwritten, st)
  write_from sys_write f buf nwritten (suc left) st =
      let (r, st') = writec sys_write f (st.memory (buf + nwritten)) st in
      elim r [
        | negsuc n ↦ (nwritten, st')
        | pos z ↦ write_from sys_write f buf (nwritten + 1) left st'
      ]

  -- `io61_write`
  unfoldable pub write :
      (ℕ → ℕ → World → WriteAnswer × World) → File → ℕ → ℕ → State World → ℤ × State World
  write sys_write f buf sz st =
      let (nwritten, st') = write_from sys_write f buf 0 sz st in
      if nwritten == 0 && not (sz == 0) then (negsuc 0, st') else (pos nwritten, st')
