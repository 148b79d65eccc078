-- ===== src/Io61/Utilities/Tests.antt =====
-- The utilities on a file of five bytes.
use mathlib.Core.List.{Perm}
use cs61_f26_psets.Common.{
  ℕ, zero, suc, ◌<◌, ◌≡◌, ◌≢◌, inr, refl, ap, ◌∙◌, List, [], ◌∷◌, ◌++◌, All, true, false, arith,
  drop, codes,
}
use cs61_f26_psets.Common.Int.{ℤ, pos, negsuc}
use cs61_f26_psets.Io61.{File, ReadAnswer, State, WriteAnswer, at_end, byte, failed, written}
use cs61_f26_psets.Io61.Utilities.{
  Args, blockcat61, cat61, completed, reverse61, size_max, stridecat61,
}
use cs61_f26_psets.Io61.Utilities.Streams.{Streams}
use cs61_f26_psets.Io61.Utilities.Copies.{IsCopy, cat61_copies}
use cs61_f26_psets.Io61.Utilities.Blockcat.{IsWholeCopy, blockcat61_copies}
use cs61_f26_psets.Io61.Utilities.Columns.{columns}
use cs61_f26_psets.Io61.Utilities.Strides.{stridecat61_shuffles}
use cs61_f26_psets.Io61.Utilities.Backwards.{IsReversed, Seekable, reverse61_reverses}

abbrev hello : List ℕ
hello = codes "hello"

-- The position in the input, and the output.
abbrev World : Type 0
World = ℕ × List ℕ

-- The answer of a read where `l` is still to come.
abbrev next_of : List ℕ → World → ReadAnswer × World
next_of [] w = (at_end, w)
next_of (c ∷ l) (p, o) = (byte c, (suc p, o))

abbrev moved : List ℕ → World → World
moved [] w = w
moved (c ∷ l) (p, o) = (suc p, o)

abbrev read_file : ℕ → World → ReadAnswer × World
read_file fd w = next_of (drop w.0 hello) w

abbrev write_file : ℕ → ℕ → World → WriteAnswer × World
write_file fd b (p, o) = (written, (p, o ++ b ∷ []))

abbrev seek_file : ℕ → ℤ → World → ℤ × World
seek_file fd (pos n) (p, o) = (pos n, (n, o))
seek_file fd (negsuc n) w = (negsuc 0, w)

All-drop : (n : ℕ) (l : List ℕ) → All (λ c. c < 256) l → All (λ c. c < 256) (drop n l)
All-drop zero l h = h
All-drop (suc n) [] h = tt
All-drop (suc n) (x ∷ l) h = All-drop n l h.1

hello_bytes : All (λ c. c < 256) hello
hello_bytes = omega arith

drop-more : (p c : ℕ) (bs l : List ℕ) → drop p l ≡ c ∷ bs → drop (suc p) l ≡ bs
drop-more zero c bs [] e = cc
drop-more zero c bs (x ∷ l) e = cc
drop-more (suc p) c bs [] e = cc
drop-more (suc p) c bs (x ∷ l) e = drop-more p c bs l e

next_of-never_fails : (l : List ℕ) (w w' : World) (k : ℕ) → next_of l w ≡ (failed k, w') → k ≢ 0
next_of-never_fails [] w w' k e = cc
next_of-never_fails (c ∷ l) w w' k e = cc

moved-output : (l : List ℕ) (w : World) → (moved l w).1 ≡ w.1
moved-output [] w = refl
moved-output (c ∷ l) w = refl

files : Streams World read_file write_file 3 4
files = record {
  input = λ w. drop w.0 hello;
  output = λ w. w.1;
  world_read = λ w. moved (drop w.0 hello) w;
  world_written = λ b w. (w.0, w.1 ++ b ∷ []);
  are_bytes = λ w. All-drop w.0 hello hello_bytes;
  reads = λ w c bs e. rw e refl;
  read_moves = λ w c bs e. ap (λ l. drop (moved l w).0 hello) e ∙ drop-more w.0 c bs hello e;
  ends = λ w e. rw e refl;
  stays = λ w e. ap (λ l. drop (moved l w).0 hello) e ∙ e;
  read_keeps = λ w. moved-output (drop w.0 hello) w;
  writes = λ b w lt. refl;
  write_appends = λ b w. refl;
  write_keeps = λ b w. refl;
  errors_set = λ fd v v' k e. next_of-never_fails (drop v.0 hello) v v' k e;
}

seekable : Seekable World read_file write_file seek_file 3 4 files
unfolding files
seekable = record {
  contents = hello;
  after_seek = λ n w. (n, w.1);
  seeks = λ n w le. refl;
  seek_moves = λ n w. refl;
  seek_keeps = λ n w. refl;
}

abbrev in_file : File
in_file = record { fd = 3; mode = 0 }

abbrev out_file : File
out_file = record { fd = 4; mode = 1 }

abbrev args : Args
args = record {
  file_size = size_max;
  block_size = 2;
  initial_offset = 0;
  stride = 1024;
  read_bytewise = false;
  write_bytewise = true;
  flush_writes = true;
  quiet = false;
}

abbrev at_start : State World
at_start = record { world = (0, []); errno = 0; memory = λ a. 0 }

cat61_example :
    (left : ℕ) × (st' : State World) × (cat61 read_file write_file seek_file args in_file out_file 6
        at_start
      ≡ completed (left, st'))
    × IsCopy seek_file args in_file out_file files size_max at_start st'
unfolding files
cat61_example = cat61_copies seek_file args in_file out_file files 6 at_start (inr (omega arith))

blockcat61_example :
    (st' : State World) × (blockcat61 read_file write_file seek_file args in_file out_file 6 100
        at_start
      ≡ completed st')
    × IsWholeCopy seek_file args in_file out_file files at_start st'
unfolding files
blockcat61_example =
    blockcat61_copies seek_file args in_file out_file files 6 100 at_start (omega arith)
      (omega arith)

reverse61_example :
    (st' : State World) × (reverse61 read_file write_file seek_file args in_file out_file 6 5
        at_start
      ≡ completed (0, st'))
    × IsReversed seek_file args in_file out_file files seekable 5 at_start st'
unfolding seekable
reverse61_example =
    reverse61_reverses seek_file args in_file out_file files seekable 6 5 at_start (omega arith)
      (omega arith) (omega arith)

-- Every second byte.
abbrev strided : Args
strided = record {
  file_size = 5;
  block_size = 1;
  initial_offset = 0;
  stride = 2;
  read_bytewise = false;
  write_bytewise = false;
  flush_writes = false;
  quiet = false;
}

stridecat61_shuffles_example :
    (i : ℕ) × (st' : State World) × (stridecat61 read_file write_file seek_file strided in_file
        out_file 6 100 at_start
      ≡ completed (i, 5, st'))
    × (st'.world.1 ≡ columns 2 2 0 hello)
    × Perm (columns 2 2 0 hello) hello
unfolding files seekable
stridecat61_shuffles_example =
    stridecat61_shuffles seek_file strided in_file out_file 100 files seekable refl refl
      (omega arith) (omega arith) (omega arith) 6 at_start refl (omega arith)

columns-hello : columns 2 2 0 hello ≡ codes "hloel"
columns-hello = refl
