-- ===== src/CLib/Printer.antt =====
-- pset3/lib.cc: print_number, the conversion of a number for printf, and string_printer with the
-- buffer of vsnprintf. A format's output is the list of the bytes that vprintf hands to `putc`.
pub mod Buffer
pub mod Digits
pub mod Format
use cs61_f26_psets.Common.{
  ℕ, zero, suc, ◌+◌, ◌-◌, ◌*◌, ◌/◌, ◌%◌, Bool, true, false, not, ◌&&◌, Option, none, some, List, [],
  ◌∷◌, ltb, ◌==◌, if◌then◌else◌, codes, get_or,
}
use cs61_f26_psets.Common.Memory.{Memory, store}

-- `string_printer`
pub record StringPrinter : Type 0 where
  pub s : ℕ
  pub end : ℕ
  pub n : ℕ
  pub memory : Memory

-- `string_printer::putc`
unfoldable pub putc : StringPrinter → ℕ → StringPrinter
putc sp c =
    if ltb sp.s sp.end
    then record {
      s = sp.s + 1;
      end = sp.end;
      n = sp.n + 1;
      memory = store sp.memory sp.s (c % 256);
    }
    else record sp { n = sp.n + 1 }

-- `vprintf` into a string_printer: one `putc` for every byte of the output.
unfoldable pub print_all : StringPrinter → List ℕ → StringPrinter
print_all sp [] = sp
print_all sp (c ∷ cs) = print_all (putc sp c) cs

-- `vsnprintf`, given the output of its format: the memory that it leaves and its result.
unfoldable pub vsnprintf : Memory → ℕ → ℕ → List ℕ → Memory × ℕ
vsnprintf m s size output =
    let sp = print_all (record { s = s; end = s + size; n = 0; memory = m }) output in
    (
      if not (size == 0) && ltb sp.s sp.end
          then store sp.memory sp.s 0
          else if not (size == 0)
          then store sp.memory (sp.end - 1) 0
          else sp.memory,
      sp.n,
    )

-- Entry `d`, one of 16, of `upper_digits` or of `lower_digits`.
abbrev pub digit_byte : Bool → ℕ → ℕ
digit_byte upper d =
    if ltb d 10 then b'0' + d else if upper then b'A' + (d - 10) else b'a' + (d - 10)

-- `pos == thousands_pos`; no pointer is nullptr.
abbrev pub at_thousands : Option ℕ → ℕ → Bool
at_thousands none pos = false
at_thousands (some p) pos = pos == p

-- The digits between two separators.
abbrev pub group : ℕ → ℕ
group base = if base == 10 then 3 else 4

-- The loop of `print_number`, with `left` bytes of the buffer before `pos`.
unfoldable pub number_from : Memory → ℕ → ℕ → Bool → Option ℕ → ℕ → ℕ → Memory × ℕ
number_from m buf base upper thousands zero value = (m, buf)
number_from m buf base upper thousands (suc left) value =
    let comma = store m (buf + left) (if base == 10 then b',' else b'\'') in
    let digit = store m (buf + left) (digit_byte upper (value % base)) in
    elim (at_thousands thousands (buf + suc left)) [
      | true ↦ elim (value == 0) [
        | true ↦ (comma, buf + left)
        | false ↦ number_from comma buf base upper (some (buf + left - group base)) left value
      ]
      | false ↦ elim (value / base == 0) [
        | true ↦ (digit, buf + left)
        | false ↦ number_from digit buf base upper thousands left (value / base)
      ]
    ]

-- `print_number` for a base above 0 (`upper`) or below, and FLAG_THOUSANDS or not: the memory and
-- the returned pointer.
unfoldable pub print_number : Memory → ℕ → ℕ → ℕ → ℕ → Bool → Bool → Memory × ℕ
print_number m buf sz value base upper thousands =
    let pos = buf + sz - 1 in
    number_from (store m pos 0) buf base upper (if thousands then some (pos - group base) else none)
      (sz - 1) value
