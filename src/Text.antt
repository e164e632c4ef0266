-- ===== src/Text.antt =====
-- The text that the user library and the kernel module exchange through attribute files: the conversions
-- of printf and scanf that libnetana/netana_functions.c and
-- netanalyzer_kernel_mod/netana_tk_interface.c use, on lists of bytes.
pub mod Numerals
pub mod RoundTrip
mod Tests
use nadrvlinux.Prelude.{
  ℕ, zero, suc, ◌+◌, ◌-◌, ◌*◌, ◌/◌, ◌%◌, ◌^◌, u32, u64, Bool, true, false, ◌&&◌, ◌||◌, Option, none,
  some, List, [], ◌∷◌, ◌++◌, ltb, leb, ◌==◌, if◌then◌else◌,
}

-- The digits of a number before `digits`. A number below `base ^ fuel` needs no more fuel.
unfoldable pub numeral : (base fuel n : ℕ) → List ℕ → List ℕ
numeral base zero n digits = digits
numeral base (suc fuel) n digits =
    let d = n % base in
    let longer = (if ltb d 10 then 0x30 + d else 0x37 + d) ∷ digits in
    let rest = numeral base fuel (n / base) longer in if n / base == 0 then longer else rest

-- The value of a digit, in either case.
unfoldable pub digit_value : ℕ → Option ℕ
digit_value c =
    if leb 0x30 c && leb c 0x39
    then some (c - 0x30)
    else if leb 0x41 c && leb c 0x46
    then some (c - 0x37)
    else if leb 0x61 c && leb c 0x66
    then some (c - 0x57)
    else none

abbrev pub is_digit : (base c : ℕ) → Bool
is_digit base c = elim (digit_value c) [ none ↦ false | some d ↦ ltb d base ]

abbrev pub value_of : ℕ → ℕ
value_of c = elim (digit_value c) [ none ↦ 0 | some d ↦ d ]

-- The longest run of digits, and what follows it; `seen` says whether there was one already.
unfoldable pub scan_digits : (base : ℕ) → List ℕ → (seen : Bool) → ℕ → Option (ℕ × List ℕ)
unfolding digit_value
scan_digits base [] seen n = if seen then some (n, []) else none
scan_digits base (c ∷ s) seen n =
    let more = scan_digits base s true (n * base + value_of c) in
    if is_digit base c then more else if seen then some (n, c ∷ s) else none

unfoldable pub skip_spaces : List ℕ → List ℕ
skip_spaces [] = []
skip_spaces (c ∷ s) = let rest = skip_spaces s in if (c == 0x20) || (c == 0x0a) then rest else c ∷ s

-- The conversions: `%d` and `%u` on 32 bits, `%llu`, and `0x%X`, which `%X` reads with its prefix.
pub data Conversion : Type 0 where
  signed unsigned long_unsigned hex : Conversion

-- The bits of `-n`.
abbrev pub negate32 : ℕ → ℕ
negate32 n = u32 (2 ^ 32 - u32 n)

unfoldable pub print_one : Conversion → ℕ → List ℕ → List ℕ
print_one signed v s =
    if ltb v (2 ^ 31) then numeral 10 10 v s else 0x2d ∷ numeral 10 10 (negate32 v) s
print_one unsigned v s = numeral 10 10 v s
print_one long_unsigned v s = numeral 10 20 v s
print_one hex v s = 0x30 ∷ 0x78 ∷ numeral 16 8 v s

abbrev pub mapped : (ℕ → ℕ) → Option (ℕ × List ℕ) → Option (ℕ × List ℕ)
mapped f none = none
mapped f (some (n, s)) = some (f n, s)

unfoldable pub scan_signed : List ℕ → Option (ℕ × List ℕ)
scan_signed [] = none
scan_signed (c ∷ s) =
    if c == 0x2d
    then mapped negate32 (scan_digits 10 s false 0)
    else mapped u32 (scan_digits 10 (c ∷ s) false 0)

unfoldable pub scan_hex : List ℕ → Option (ℕ × List ℕ)
scan_hex (a ∷ b ∷ s) =
    if (a == 0x30) && (b == 0x78)
    then mapped u32 (scan_digits 16 s false 0)
    else mapped u32 (scan_digits 16 (a ∷ b ∷ s) false 0)
scan_hex s = mapped u32 (scan_digits 16 s false 0)

unfoldable pub scan_one : Conversion → List ℕ → Option (ℕ × List ℕ)
scan_one signed s = scan_signed (skip_spaces s)
scan_one unsigned s = mapped u32 (scan_digits 10 (skip_spaces s) false 0)
scan_one long_unsigned s = mapped u64 (scan_digits 10 (skip_spaces s) false 0)
scan_one hex s = scan_hex (skip_spaces s)

-- `sprintf` of the values, with single spaces between them and `end` after the last.
unfoldable pub sprintf : List Conversion → List ℕ → (end : List ℕ) → List ℕ
sprintf [] vs end = end
sprintf (c ∷ cs) [] end = end
sprintf (c ∷ []) (v ∷ vs) end = print_one c v end
sprintf (c ∷ c' ∷ cs) (v ∷ vs) end = print_one c v (0x20 ∷ sprintf (c' ∷ cs) vs end)

-- The values that `sscanf` stores, whose number it returns. It stops at the first conversion that
-- fails.
unfoldable pub sscanf : List Conversion → List ℕ → List ℕ
sscanf [] s = []
sscanf (c ∷ cs) s = elim (scan_one c s) [ none ↦ [] | some (v, rest) ↦ v ∷ sscanf cs rest ]
