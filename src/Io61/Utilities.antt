-- ===== src/Io61/Utilities.antt =====
-- pset5: the utilities that copy files, cat61.cc, blockcat61.cc, reverse61.cc and stridecat61.cc, with
-- io61_open_check of io61.cc and the block functions of helpers.cc. Delays have no effect on the
-- modelled state. A failed assertion aborts.
pub mod Streams
pub mod Copies
pub mod Blocks
pub mod Blockcat
pub mod Columns
pub mod Backwards
pub mod Rounds
pub mod Positions
pub mod Strides
mod Tests
use cs61_f26_psets.Common.{
  ℕ, zero, suc, Option, none, some, ◌+◌, ◌-◌, ◌%◌, ◌^◌, Bool, true, false, not, ◌&&◌, ◌||◌, ltb,
  leb, ◌==◌, if◌then◌else◌,
}
use cs61_f26_psets.Common.Int.{ℤ, pos, negsuc}
use cs61_f26_psets.Common.Memory.{store}
use cs61_f26_psets.Io61
use cs61_f26_psets.Io61.{
  File, ReadAnswer, State, WriteAnswer, fdopen, flush, read_from, readc, seek, write_from, writec,
}

-- What `io61_args` says of a copy.
pub record Args : Type 0 where
  pub file_size : ℕ
  pub block_size : ℕ
  pub initial_offset : ℕ
  pub stride : ℕ
  pub read_bytewise : Bool
  pub write_bytewise : Bool
  pub flush_writes : Bool
  pub quiet : Bool

-- `SIZE_MAX`
abbrev pub size_max : ℕ
size_max = 2 ^ 64 - 1

-- One round of a loop: it goes on, the loop ends, or the program aborts.
pub data Progress (S : Type 0) : Type 0 where
  goes : S → Progress S
  stops : S → Progress S
  aborts : Progress S

-- A loop in `fuel` rounds.
pub data Exit (S : Type 0) : Type 0 where
  completed : S → Exit S
  aborted : Exit S
  unfinished : Exit S

unfoldable pub loop : {S : Type 0} → ℕ → (S → Progress S) → S → Exit S
loop zero round s = unfinished
loop (suc fuel) round s = elim (round s) [
  | goes s' ↦ loop fuel round s'
  | stops s' ↦ completed s'
  | aborts ↦ aborted
]

-- `r == 0`
abbrev pub is_zero : ℤ → Bool
is_zero (pos n) = n == 0
is_zero (negsuc n) = false

-- A number of 64 bits as the parameter of type off_t.
abbrev pub offset_of : ℕ → ℤ
offset_of n = if ltb n (2 ^ 63) then pos n else negsuc (2 ^ 64 - 1 - n)

-- A file name is its address, 0 for nullptr. O_RDONLY is 0, and O_ACCMODE is 3.
unfoldable pub open_check :
    {World : Type 0} → (ℕ → ℕ → World → ℤ × World) → ℕ → ℕ → State World → Option File × State World
open_check sys_open filename mode st =
    if filename == 0
    then (some (fdopen (if mode % 4 == 0 then 0 else 1) (mode % 4)), st)
    else (let (fd, world') = sys_open filename mode st.world in
        (
          elim fd [ pos n ↦ some (fdopen n (mode % 4)) | negsuc n ↦ none ],
          record st { world = world' },
        ))

module _ {World : Type 0} (sys_read : ℕ → World → ReadAnswer × World)
    (sys_write : ℕ → ℕ → World → WriteAnswer × World) (sys_lseek : ℕ → ℤ → World → ℤ × World)
    (args : Args) (inf outf : File) where
  -- `args.after_write(outf)`; `none` is the failed assertion
  unfoldable pub after_write : State World → Option (State World)
  after_write st =
      if args.flush_writes
      then (let (r, st') = flush outf st in if is_zero r then some st' else none)
      else some st

  -- The writing of one byte, and its assertion.
  unfoldable pub put_byte : ℕ → State World → Option (State World)
  put_byte ch st =
      let (r, st') = writec sys_write outf ch st in if is_zero r then after_write st' else none

  -- A block is read whole or, on request, byte by byte (io61_read_bytewise).
  unfoldable pub read_block : ℕ → ℕ → State World → ℤ × State World
  read_block buf sz st =
      if args.read_bytewise
      then (let (nr, st') = read_from sys_read inf buf 0 sz st in (pos nr, st'))
      else Io61.read sys_read inf buf sz st

  -- A block is written whole or byte by byte (io61_write_bytewise).
  unfoldable pub write_block : ℕ → ℕ → State World → ℤ × State World
  write_block buf sz st =
      if args.write_bytewise
      then (let (nw, st') = write_from sys_write outf buf 0 sz st in (pos nw, st'))
      else Io61.write sys_write outf buf sz st

  -- `assert(nw == nr)` for the `nr` bytes of a block that was read
  unfoldable pub put_block : ℕ → ℕ → State World → Option (State World)
  put_block buf nr st =
      let (nw, st') = write_block buf nr st in
      elim nw [ negsuc n ↦ none | pos n ↦ if n == nr then after_write st' else none ]

  -- cat61: a round of its loop, with the bytes that are left to copy.
  unfoldable pub cat_round : ℕ × State World → Progress (ℕ × State World)
  cat_round (left, st) =
      if left == 0
      then stops (left, st)
      else (let (ch, st') = readc sys_read inf st in
          elim ch [
            | negsuc n ↦ stops (left, st')
            | pos c ↦ elim (put_byte c st') [ none ↦ aborts | some st'' ↦ goes (left - 1, st'') ]
          ])

  unfoldable pub cat61 : ℕ → State World → Exit (ℕ × State World)
  cat61 fuel st = loop fuel cat_round (args.file_size, st)

  -- blockcat61: a round of its loop, with the buffer's address.
  unfoldable pub blockcat_round : ℕ → State World → Progress (State World)
  blockcat_round buf st =
      let (nr, st') = read_block buf args.block_size st in
      elim nr [
        | negsuc n ↦ stops st'
        | pos n ↦
            if n == 0
            then stops st'
            else elim (put_block buf n st') [ none ↦ aborts | some st'' ↦ goes st'' ]
      ]

  unfoldable pub blockcat61 : ℕ → ℕ → State World → Exit (State World)
  blockcat61 fuel buf st = loop fuel (blockcat_round buf) st

  -- reverse61: the byte at the position, when `left` bytes stand before it.
  unfoldable pub copy_back : ℕ → State World → Progress (ℕ × State World)
  copy_back left st =
      let (ch, st') = readc sys_read inf st in
      elim ch [
        | negsuc n ↦ aborts
        | pos c ↦ elim (put_byte c st') [ none ↦ aborts | some st'' ↦ goes (left, st'') ]
      ]

  -- A round of its loop, with the bytes that are left to copy.
  unfoldable pub reverse_round : ℕ × State World → Progress (ℕ × State World)
  reverse_round (left, st) =
      if left == 0
      then stops (left, st)
      else (let (r, st') = seek sys_lseek inf (offset_of (left - 1)) st in
          if is_zero r || args.quiet then copy_back (left - 1) st' else aborts)

  unfoldable pub reverse61 : ℕ → ℕ → State World → Exit (ℕ × State World)
  reverse61 fuel file_size st = loop fuel reverse_round (file_size, st)

  -- stridecat61: the position, the bytes that were written, and the state.
  unfoldable pub stride_next : ℕ → ℕ
  stride_next at =
      let at' = (at + args.stride) % 2 ^ 64 in
      if leb args.file_size at' then (at' % args.stride + args.block_size) % 2 ^ 64 else at'

  unfoldable pub stride_round : ℕ → ℕ × ℕ × State World → Progress (ℕ × ℕ × State World)
  stride_round buf (at, done, st) =
      if ltb done args.file_size
      then (let (r, st') = seek sys_lseek inf (offset_of at) st in
          let sz =
            (if ltb args.file_size ((at + args.block_size) % 2 ^ 64)
              then (args.file_size + 2 ^ 64 - at) % 2 ^ 64
              else args.block_size) in
          elim r [
            | negsuc n ↦ aborts
            | pos z ↦
                let (nr, st'') = read_block buf sz st' in
                elim nr [
                  | negsuc n ↦ stops (at, done, st'')
                  | pos n ↦ if n == 0 then stops (at, done, st'') else elim (put_block buf n st'') [
                    | none ↦ aborts
                    | some st''' ↦ goes (stride_next at, (done + n) % 2 ^ 64, st''')
                  ]
                ]
          ])
      else stops (at, done, st)

  unfoldable pub stridecat61 : ℕ → ℕ → State World → Exit (ℕ × ℕ × State World)
  stridecat61 fuel buf st = loop fuel (stride_round buf) (args.initial_offset, 0, st)
