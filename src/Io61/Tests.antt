-- ===== src/Io61/Tests.antt =====
-- io61 on small files: one that holds a list of bytes, and one that has room for a number of them.
use cs61_f26_psets.Common.{ℕ, zero, suc, ◌≡◌, ◌≢◌, List, [], ◌∷◌, ◌++◌, codes, get_or, arith}
use cs61_f26_psets.Io61.{
  ReadAnswer, byte, at_end, failed, WriteAnswer, written, broken, File, State, read, write,
}
use cs61_f26_psets.Io61.Read.{End, Delivers, HasRead, read_result, read-Delivers}
use cs61_f26_psets.Io61.Write.{Accepts, write_result, write-Accepts}

abbrev list_file : ℕ → List ℕ → ReadAnswer × List ℕ
list_file fd [] = (at_end, [])
list_file fd (b ∷ bs) = (byte b, bs)

abbrev file : File
file = record { fd = 3; mode = 0 }

abbrev start_state : State (List ℕ)
start_state = record { world = codes "hello"; errno = 7; memory = λ a. 0 }

list_file-succeeds : (fd : ℕ) (v v' : List ℕ) (k : ℕ) → list_file fd v ≡ (failed k, v') → k ≢ 0
list_file-succeeds fd [] v' k e = cc
list_file-succeeds fd (b ∷ bs) v' k e = cc

read_example :
    (bs : List ℕ) × (e : End) × (w : List ℕ) × Delivers list_file 3 8 (codes "hello") bs e w
    × ((st' : State (List ℕ)) × (read list_file file 100 8 start_state ≡ (read_result bs e, st'))
        × HasRead start_state 100 bs e w st')
read_example = read-Delivers list_file file 100 8 start_state list_file-succeeds

abbrev small_disk : ℕ → ℕ → ℕ × List ℕ → WriteAnswer × (ℕ × List ℕ)
small_disk fd b (zero, bs) = (broken 28, (0, bs))
small_disk fd b (suc room, bs) = (written, (room, bs ++ b ∷ []))

abbrev disk_state : State (ℕ × List ℕ)
disk_state = record { world = (3, []); errno = 0; memory = λ a. get_or (codes "hello") a 0 }

write_example :
    (k : ℕ) × (w : ℕ × List ℕ) × Accepts small_disk 3 (codes "hello") (3, []) k w
    × ((st' : State (ℕ × List ℕ)) × (write small_disk file 0 5 disk_state ≡ (write_result 5 k, st'))
        × (st'.world ≡ w)
        × (st'.memory ≡ disk_state.memory))
write_example = write-Accepts small_disk file 0 (codes "hello") disk_state (ground arith)
