-- ===== src/Io61/Read.antt =====
-- io61_read delivers what the file delivers, byte by byte.
use cs61_f26_psets.Common.{
  ℕ, zero, suc, ◌+◌, ◌%◌, ◌≡◌, ◌≢◌, refl, inl, inr, not, ◌&&◌, List, [], ◌∷◌, arith, ◌==◌,
  if◌then◌else◌, Bool-cases, length, subst, sym, ap, ◌∙◌,
}
use cs61_f26_psets.Common.Int.{ℤ, pos, negsuc}
use cs61_f26_psets.Common.Memory.{Holds, SameOutside, store}
use cs61_f26_psets.Io61.{ReadAnswer, byte, at_end, failed, File, State, readc, read_from, read}

-- Why a read ends: it has all bytes, the file is at its end, or an error.
pub data End : Type 0 where
  complete : End
  ended : End
  error : ℕ → End

-- From `w` the file answers to `n` reads of a byte with the bytes `bs`, and then ends so.
pub data Delivers {World : Type 0} (sys_read : ℕ → World → ReadAnswer × World) (fd : ℕ)
    : ℕ → World → List ℕ → End → World → Type 0 where
  all_read : (w : World) → Delivers sys_read fd 0 w [] complete w
  next_byte :
      (n : ℕ) (w w' w'' : World) (c : ℕ) (bs : List ℕ) (e : End)
      → sys_read fd w ≡ (byte c, w')
      → Delivers sys_read fd n w' bs e w''
      → Delivers sys_read fd (suc n) w (c % 256 ∷ bs) e w''
  file_end :
      (n : ℕ) (w w' : World)
      → sys_read fd w ≡ (at_end, w')
      → Delivers sys_read fd (suc n) w [] ended w'
  read_error :
      (n : ℕ) (w w' : World) (e : ℕ)
      → sys_read fd w ≡ (failed e, w')
      → Delivers sys_read fd (suc n) w [] (error e) w'

-- `errno` behind a read that ends so.
abbrev pub errno_at : ℕ → End → ℕ
errno_at errno complete = errno
errno_at errno ended = 0
errno_at errno (error e) = e

-- What the loop leaves when it has read `bs` to the address `a`.
pub record HasRead {World : Type 0} (st : State World) (a : ℕ) (bs : List ℕ) (e : End) (w : World)
    (st' : State World) : Type 0 where
  pub in_buffer : Holds st'.memory a bs
  pub nothing_else : SameOutside st.memory st'.memory a (length bs)
  pub errno_set : st'.errno ≡ errno_at st.errno e
  pub world_at : st'.world ≡ w

-- What a read returns for its bytes and its end.
abbrev pub read_result : List ℕ → End → ℤ
read_result (b ∷ bs) e = pos (suc (length bs))
read_result [] complete = pos 0
read_result [] ended = pos 0
read_result [] (error k) = negsuc 0

module _ {World : Type 0} (sys_read : ℕ → World → ReadAnswer × World) (f : File) where
  pub readc-byte :
      (c : ℕ) (st : State World) (w' : World)
      → sys_read f.fd st.world ≡ (byte c, w')
      → readc sys_read f st ≡ (pos (c % 256), record st { world = w' })
  unfolding readc
  readc-byte c st w' e = rw (ap (λ p. p.0) e, ap (λ p. p.1) e, readc) refl

  pub readc-end :
      (st : State World) (w' : World)
      → sys_read f.fd st.world ≡ (at_end, w')
      → readc sys_read f st ≡ (negsuc 0, record st { world = w'; errno = 0 })
  unfolding readc
  readc-end st w' e = rw (ap (λ p. p.0) e, ap (λ p. p.1) e, readc) refl

  readc-error :
      (k : ℕ) (st : State World) (w' : World)
      → sys_read f.fd st.world ≡ (failed k, w')
      → readc sys_read f st ≡ (negsuc 0, record st { world = w'; errno = k })
  unfolding readc
  readc-error k st w' e = rw (ap (λ p. p.0) e, ap (λ p. p.1) e, readc) refl

  read_from-byte :
      (buf nread n c : ℕ) (st st' : State World)
      → readc sys_read f st ≡ (pos c, st')
      → read_from sys_read f buf nread (suc n) st
        ≡ read_from sys_read f buf
            (nread + 1)
            n
            (record st' { memory = store st'.memory (buf + nread) c })
  unfolding read_from
  read_from-byte buf nread n c st st' e = rw (ap (λ p. p.0) e, ap (λ p. p.1) e, read_from) refl

  read_from-stop :
      (buf nread n k : ℕ) (st st' : State World)
      → readc sys_read f st ≡ (negsuc k, st')
      → read_from sys_read f buf nread (suc n) st ≡ (nread + 0, st')
  unfolding read_from
  read_from-stop buf nread n k st st' e =
      rw (ap (λ p. p.0) e, ap (λ p. p.1) e, read_from) (ap (λ i. (i, st')) (omega arith))

  step_none :
      (buf nread : ℕ) (st : State World) → read_from sys_read f buf nread 0 st ≡ (nread + 0, st)
  unfolding read_from
  step_none buf nread st = ap (λ k. (k, st)) (omega arith)

  HasRead-cons :
      (a c : ℕ) (bs : List ℕ) (e : End) (w w' : World) (st st' : State World)
      → HasRead (record st { world = w'; memory = store st.memory a c }) (a + 1) bs e w st'
      → HasRead st a (c ∷ bs) e w st'
  HasRead-cons a c bs e w w' st st' h = record {
    in_buffer = (ground (arith, h.nothing_else a (inl (omega arith))), h.in_buffer);
    nothing_else = λ x o. elim o [
      | inl lt ↦ ground (arith, h.nothing_else x (inl (omega arith)))
      | inr le ↦ ground (arith, h.nothing_else x (inr (omega arith)))
    ];
    errno_set = h.errno_set;
    world_at = h.world_at;
  }

  pub read_from_lem :
      (n : ℕ) (w w'' : World) (bs : List ℕ) (e : End)
      → Delivers sys_read f.fd n w bs e w''
      → (buf nread : ℕ) (st : State World) → st.world ≡ w
      → (st' : State World) × (read_from sys_read f buf nread n st ≡ (nread + length bs, st'))
        × HasRead st (buf + nread) bs e w'' st'
  read_from_lem n w w'' bs e (all_read w₀) buf nread st at = (
    st,
    step_none buf nread st,
    record { in_buffer = tt; nothing_else = λ x o. refl; errno_set = refl; world_at = at },
  )
  read_from_lem n w w'' bs e (next_byte n' w₀ w' w₂ c bs' e' got rest) buf nread st at =
      let st₁ : State World = record st {
        world = w';
        memory = store st.memory (buf + nread) (c % 256);
      } in
      let (st', runs, left) = read_from_lem n' w' w'' bs' e rest buf (nread + 1) st₁ refl in
      (
        st',
        read_from-byte buf nread n' (c % 256) st (record st { world = w' })
              (readc-byte c st w' (subst (λ v. sys_read f.fd v ≡ (byte c, w')) (sym at) got))
            ∙ runs
            ∙ ap (λ k. (k, st')) (omega arith),
        HasRead-cons (buf + nread) (c % 256) bs' e w'' w' st st'
            (subst (λ a. HasRead st₁ a bs' e' w'' st') (omega arith) left),
      )
  read_from_lem n w w'' bs e (file_end n' w₀ w' got) buf nread st at = (
    record st { world = w'; errno = 0 },
    read_from-stop buf nread n' 0 st (record st { world = w'; errno = 0 })
        (readc-end st w' (subst (λ v. sys_read f.fd v ≡ (at_end, w')) (sym at) got)),
    record { in_buffer = tt; nothing_else = λ x o. refl; errno_set = refl; world_at = refl },
  )
  read_from_lem n w w'' bs e (read_error n' w₀ w' k got) buf nread st at = (
    record st { world = w'; errno = k },
    read_from-stop buf nread n' 0 st (record st { world = w'; errno = k })
        (readc-error k st w' (subst (λ v. sys_read f.fd v ≡ (failed k, w')) (sym at) got)),
    record { in_buffer = tt; nothing_else = λ x o. refl; errno_set = refl; world_at = refl },
  )

  unfoldable pub Delivered : ℕ → World → Type 0
  Delivered n w = (bs : List ℕ) × (e : End) × (w'' : World) × Delivers sys_read f.fd n w bs e w''

  Delivers-first :
      (n : ℕ) (w : World) (r : ReadAnswer × World)
      → sys_read f.fd w ≡ r
      → ((w' : World) → Delivered n w')
      → Delivered (suc n) w
  unfolding Delivered
  Delivers-first n w (byte c, w') got rest =
      let (bs, e, w'', d) = rest w' in (c % 256 ∷ bs, e, w'', next_byte n w w' w'' c bs e got d)
  Delivers-first n w (at_end, w') got rest = ([], ended, w', file_end n w w' got)
  Delivers-first n w (failed k, w') got rest = ([], error k, w', read_error n w w' k got)

  -- Any file delivers something.
  pub Delivers-exists : (n : ℕ) (w : World) → Delivered n w
  unfolding Delivered
  Delivers-exists zero w = ([], complete, w, all_read w)
  Delivers-exists (suc n) w = Delivers-first n w (sys_read f.fd w) refl (Delivers-exists n)

  -- The test behind the loop.
  nothing_read :
      (n : ℕ) (w w'' : World) (bs : List ℕ) (e : End) (errno : ℕ)
      → ((fd : ℕ) (v v' : World) (k : ℕ) → sys_read fd v ≡ (failed k, v') → k ≢ 0)
      → Delivers sys_read f.fd n w bs e w''
      → (if length bs == 0 && (not (n == 0) && not (errno_at errno e == 0))
          then negsuc 0
          else pos (length bs))
        ≡ read_result bs e
  nothing_read n w w'' bs e errno sets (all_read w₀) = ground arith
  nothing_read n w w'' bs e errno sets (next_byte n' w₀ w' w₂ c bs' e' got rest) = ground arith
  nothing_read n w w'' bs e errno sets (file_end n' w₀ w' got) = ground arith
  nothing_read n w w'' bs e errno sets (read_error n' w₀ w' k got) =
      ground (arith, sets f.fd w₀ w' k got)

  read-result :
      (buf sz k : ℕ) (r : ℤ) (st st' : State World)
      → read_from sys_read f buf 0 sz st ≡ (k, st')
      → (if k == 0 && (not (sz == 0) && not (st'.errno == 0)) then negsuc 0 else pos k) ≡ r
      → read sys_read f buf sz st ≡ (r, st')
  unfolding read
  read-result buf sz k r st st' runs h =
      rw (ap (λ p. p.0) runs, ap (λ p. p.1) runs, read)
        (elim (Bool-cases (k == 0 && (not (sz == 0) && not (st'.errno == 0)))) [
          | inl yes_stop ↦
              rw (yes_stop)
                (ap (λ x. (x, st')) (subst (λ b. (if b then negsuc 0 else pos k) ≡ r) yes_stop h))
          | inr go_on ↦
              rw (go_on)
                (ap (λ x. (x, st')) (subst (λ b. (if b then negsuc 0 else pos k) ≡ r) go_on h))
        ])

  -- For every file whose failing reads set errno: there are the bytes `bs` that it delivers to `sz`
  -- reads and the way in which it then ends. io61_read leaves exactly those bytes in the buffer and
  -- changes no other byte. It returns their number, or -1 if there are none and the file ended in an
  -- error; and errno is 0 behind the end of the file and the error's number behind an error.
  pub read-Delivers :
      (buf sz : ℕ) (st : State World)
      → ((fd : ℕ) (v v' : World) (k : ℕ) → sys_read fd v ≡ (failed k, v') → k ≢ 0)
      → (bs : List ℕ) × (e : End) × (w : World) × Delivers sys_read f.fd sz st.world bs e w
        × ((st' : State World) × (read sys_read f buf sz st ≡ (read_result bs e, st'))
            × HasRead st buf bs e w st')
  unfolding Delivered
  read-Delivers buf sz st sets =
      let (bs, e, w, d) = Delivers-exists sz st.world in
      let (st', runs, left) = read_from_lem sz st.world w bs e d buf 0 st refl in
      let result = nothing_read sz st.world w bs e st.errno sets d in
      let at_buf : HasRead st buf bs e w st' =
        subst (λ a. HasRead st a bs e w st') (omega arith) left in
      (
        bs,
        e,
        w,
        d,
        (
          st',
          read-result buf sz (length bs) (read_result bs e) st st'
              (runs ∙ ap (λ k. (k, st')) (omega arith))
              (subst
                (λ errno.
                  (if length bs == 0 && (not (sz == 0) && not (errno == 0))
                    then negsuc 0
                    else pos (length bs))
                  ≡ read_result bs e)
                (sym left.errno_set) result),
          at_buf,
        ),
      )
