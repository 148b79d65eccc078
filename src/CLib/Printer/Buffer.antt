-- ===== src/CLib/Printer/Buffer.antt =====
-- vsnprintf writes inside its buffer, terminates it, and returns the length of the whole output.
use native.Mathlib.Decide.{dec_lt}
use cs61_f26_psets.Common.{
  ℕ, zero, suc, ◌+◌, ◌-◌, ◌%◌, ◌≤◌, ◌<◌, ◌≡◌, inl, inr, refl, List, [], ◌∷◌, arith, length,
  length-take, take, sym, subst, ap, lt→ltb, le→ltb, ◌∙◌,
}
use mathlib.Core.List.{map}
use cs61_f26_psets.Common.Memory.{Memory, store, Holds, SameOutside}
use cs61_f26_psets.CLib.Printer.{StringPrinter, putc, print_all, vsnprintf}

-- `sp'` has taken the bytes `bs` of an output of which it has room for `room`.
record Printed (sp : StringPrinter) (cs : List ℕ) (room : ℕ) (sp' : StringPrinter) : Type 0 where
  same_end : sp'.end ≡ sp.end
  counted : sp'.n ≡ sp.n + length cs
  moved : sp'.s ≡ sp.s + length (take room cs)
  holds : Holds sp'.memory sp.s (map (λ c. c % 256) (take room cs))
  nothing_else : SameOutside sp.memory sp'.memory sp.s room

take-nil : (n : ℕ) → take {A = ℕ} n [] ≡ []
take-nil zero = refl
take-nil (suc n) = refl

Holds-take :
    (n : ℕ) (m : Memory) (a : ℕ) (f : ℕ → ℕ) (xs : List ℕ)
    → Holds m a (map f (take (suc n) xs))
    → Holds m a (map f (take n xs))
Holds-take zero m a f xs h = tt
Holds-take (suc n) m a f [] h = tt
Holds-take (suc n) m a f (x ∷ xs) (here, rest) = (here, Holds-take n m (a + 1) f xs rest)

Holds-store :
    (m : Memory) (a p v : ℕ) (f : ℕ → ℕ) (xs : List ℕ)
    → a + length xs ≤ p
    → Holds m a (map f xs)
    → Holds (store m p v) a (map f xs)
Holds-store m a p v f [] le h = tt
Holds-store m a p v f (x ∷ xs) le (here, rest) =
    (ground (arith, here, le), Holds-store m (a + 1) p v f xs (omega (arith, le)) rest)

abbrev after_putc : StringPrinter → ℕ → StringPrinter
after_putc sp c = record {
  s = sp.s + 1;
  end = sp.end;
  n = sp.n + 1;
  memory = store sp.memory sp.s (c % 256);
}

putc_room : (sp : StringPrinter) (c : ℕ) → sp.s < sp.end → putc sp c ≡ after_putc sp c
unfolding putc
putc_room sp c lt = ground (arith, lt)

putc_full : (sp : StringPrinter) (c : ℕ) → sp.end ≤ sp.s → putc sp c ≡ record sp { n = sp.n + 1 }
unfolding putc
putc_full sp c le = ground (arith, le)

Printed-room :
    (room c : ℕ) (cs : List ℕ) (sp sp' : StringPrinter)
    → Printed (after_putc sp c) cs room sp'
    → Printed sp (c ∷ cs) (suc room) sp'
Printed-room room c cs sp sp' h = record {
  same_end = h.same_end;
  counted = omega (arith, h.counted);
  moved = omega (arith, h.moved);
  holds = (ground (arith, h.nothing_else sp.s (inl (omega arith))), h.holds);
  nothing_else = λ a o. elim o [
    | inl lt ↦ ground (arith, h.nothing_else a (inl (omega arith)))
    | inr le ↦ ground (arith, h.nothing_else a (inr (omega arith)))
  ];
}

Printed-full :
    (c : ℕ) (cs : List ℕ) (sp sp' : StringPrinter)
    → Printed (record sp { n = sp.n + 1 }) cs 0 sp'
    → Printed sp (c ∷ cs) 0 sp'
Printed-full c cs sp sp' h = record {
  same_end = h.same_end;
  counted = omega (arith, h.counted);
  moved = h.moved;
  holds = tt;
  nothing_else = h.nothing_else;
}

print_all_lem :
    (room : ℕ) (sp : StringPrinter) (cs : List ℕ)
    → sp.end ≡ sp.s + room
    → Printed sp cs room (print_all sp cs)
unfolding print_all
print_all_lem room sp [] at = record {
  same_end = refl;
  counted = omega arith;
  moved = rw (take-nil room) (omega arith);
  holds = rw (take-nil room) tt;
  nothing_else = λ a o. refl;
}
print_all_lem zero sp (c ∷ cs) at =
    rw (putc_full sp c (omega (arith, at)), print_all)
      (Printed-full c cs sp (print_all (record sp { n = sp.n + 1 }) cs)
        (print_all_lem 0 (record sp { n = sp.n + 1 }) cs at))
print_all_lem (suc room) sp (c ∷ cs) at =
    rw (putc_room sp c (omega (arith, at)), print_all)
      (Printed-room room c cs sp (print_all (after_putc sp c) cs)
        (print_all_lem room (after_putc sp c) cs (omega (arith, at))))

-- What vsnprintf leaves of an output in the memory `m` that it finds.
pub record Formats (m : Memory) (s size : ℕ) (output : List ℕ) (r : Memory × ℕ) : Type 0 where
  pub returns : r.1 ≡ length output
  pub in_buffer : 0 < size → Holds r.0 s (map (λ c. c % 256) (take (size - 1) output))
  pub terminated : 0 < size → r.0 (s + length (take (size - 1) output)) ≡ 0
  pub nothing_else : SameOutside m r.0 s size

-- Where the loop stops, the string ends: at the end of the output, or at the last byte.
stop_at :
    (n : ℕ) (cs : List ℕ)
    → (length (take (suc n) cs) < suc n)
    → length (take (suc n) cs) ≡ length (take n cs)
stop_at n cs lt = omega (arith, length-take (suc n) cs, length-take n cs)

stop_full : (n : ℕ) (cs : List ℕ) → suc n ≤ length (take (suc n) cs) → length (take n cs) ≡ n
stop_full n cs le = omega (arith, length-take (suc n) cs, length-take n cs)

abbrev fresh : Memory → ℕ → ℕ → StringPrinter
fresh m s size = record { s = s; end = s + size; n = 0; memory = m }

-- The terminating NUL stands behind the bytes that are kept.
Formats-store :
    (m : Memory) (s n p : ℕ) (output : List ℕ) (sp : StringPrinter)
    → Printed (fresh m s (suc n)) output (suc n) sp
    → p ≡ s + length (take n output)
    → Formats m s (suc n) output (store sp.memory p 0, sp.n)
Formats-store m s n p output sp h at =
    let short = length-take n output in
    let same : n ≡ suc n - 1 = omega arith in
    let held =
      Holds-store sp.memory s p 0 (λ c. c % 256) (take n output) (omega (arith, at))
        (Holds-take n sp.memory s (λ c. c % 256) output h.holds) in
    record {
      returns = h.counted ∙ omega arith;
      in_buffer = λ some_size.
          subst (λ i. Holds (store sp.memory p 0) s (map (λ c. c % 256) (take i output))) same held;
      terminated = λ some_size.
          subst (λ i. store sp.memory p 0 (s + length (take i output)) ≡ 0) same
            (ground (arith, at));
      nothing_else = λ a o. elim o [
        | inl lt ↦ ground (arith, h.nothing_else a (inl lt), at)
        | inr le ↦ ground (arith, h.nothing_else a (inr le), at, short)
      ];
    }

vsnprintf-room :
    (m : Memory) (s n : ℕ) (output : List ℕ) (sp : StringPrinter)
    → print_all (fresh m s (suc n)) output ≡ sp
    → sp.s < sp.end
    → vsnprintf m s (suc n) output ≡ (store sp.memory sp.s 0, sp.n)
unfolding vsnprintf
vsnprintf-room m s n output sp e lt = rw (e, lt→ltb sp.s sp.end lt) (ground arith)

vsnprintf-full :
    (m : Memory) (s n : ℕ) (output : List ℕ) (sp : StringPrinter)
    → print_all (fresh m s (suc n)) output ≡ sp
    → sp.end ≤ sp.s
    → vsnprintf m s (suc n) output ≡ (store sp.memory (sp.end - 1) 0, sp.n)
unfolding vsnprintf
vsnprintf-full m s n output sp e le = rw (e, le→ltb sp.s sp.end le) (ground arith)

-- vsnprintf of `size` bytes at `s`, for any output of its format, returns the length of the whole
-- output and writes only inside the buffer. If the buffer is not empty, it holds the output cut to
-- `size - 1` bytes, each as an unsigned char, and a NUL behind them.
pub vsnprintf_lem :
    (m : Memory) (s size : ℕ) (output : List ℕ)
    → Formats m s size output (vsnprintf m s size output)
unfolding vsnprintf
vsnprintf_lem m s zero output =
    let h = print_all_lem 0 (fresh m s 0) output refl in
    record {
      returns = h.counted ∙ omega arith;
      in_buffer = λ some_size. elim some_size [ ];
      terminated = λ some_size. elim some_size [ ];
      nothing_else = λ a o. h.nothing_else a o;
    }
vsnprintf_lem m s (suc n) output =
    let sp = print_all (fresh m s (suc n)) output in
    let h = print_all_lem (suc n) (fresh m s (suc n)) output refl in
    elim (dec_lt sp.s sp.end) [
      | yes lt ↦ subst (Formats m s (suc n) output) (sym (vsnprintf-room m s n output sp refl lt)) (
          Formats-store m s n sp.s output sp h
            (h.moved ∙ ap (λ k. s + k) (stop_at n output (omega (arith, h.moved, h.same_end, lt)))))
      | no full ↦
          subst (Formats m s (suc n) output)
            (sym (vsnprintf-full m s n output sp refl (omega (arith, full))))
            (Formats-store m s n (sp.end - 1) output sp h (
              omega
                (arith, h.same_end, stop_full n output (omega (arith, h.moved, h.same_end, full)))))
    ]
