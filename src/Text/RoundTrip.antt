-- ===== src/Text/RoundTrip.antt =====
-- What is printed for the other side is read there as it was.
use nadrvlinux.Prelude.{
  ℕ, suc, ◌^◌, ◌≤◌, ◌<◌, u32, u64, false, some, List, [], ◌∷◌, ltb, ◌==◌, Bool-cases, ◌≡◌, refl, ap,
  ◌∙◌, inl, inr, arith,
}
use nadrvlinux.Text.{
  Conversion, signed, unsigned, long_unsigned, hex, numeral, digit_value, scan_digits, skip_spaces,
  scan_signed, scan_hex, scan_one, print_one, mapped, negate32, sprintf, sscanf,
}
use nadrvlinux.Text.Numerals.{power, Ends, digit, scan_decimal, scan_hexadecimal, numeral-cons}

-- The values that a conversion prints in full.
abbrev pub Fits : Conversion → ℕ → Type 0
Fits signed v = v < 2 ^ 32
Fits unsigned v = v < 2 ^ 32
Fits long_unsigned v = v < 2 ^ 64
Fits hex v = v < 2 ^ 32

Ends-16-10 : (s : List ℕ) → Ends 16 s → Ends 10 s
unfolding digit_value
Ends-16-10 [] h = tt
Ends-16-10 (c ∷ s) h = ground (arith, h)

skip_spaces-numeral :
    (fuel n : ℕ) (s : List ℕ) → skip_spaces (numeral 10 (suc fuel) n s) ≡ numeral 10 (suc fuel) n s
unfolding skip_spaces
skip_spaces-numeral fuel n s =
    let (d, rest, k, e) = numeral-cons 10 fuel n s (omega arith) (λ n. omega arith) in
    rw e (ground arith)

scan_signed-numeral :
    (fuel n : ℕ) (s : List ℕ)
    → n < power 10 (suc fuel)
    → n < 2 ^ 32
    → Ends 10 s
    → scan_signed (numeral 10 (suc fuel) n s) ≡ some (n, s)
unfolding scan_signed
scan_signed-numeral fuel n s h small ends =
    let (d, rest, k, e) = numeral-cons 10 fuel n s (omega arith) (λ n. omega arith) in
    plain d rest k e (scan_decimal fuel n s false h ends)
  where
    plain :
        (d : ℕ) (rest : List ℕ)
        → d < 10
        → numeral 10 (suc fuel) n s ≡ digit d ∷ rest
        → scan_digits 10 (numeral 10 (suc fuel) n s) false 0 ≡ some (n, s)
        → scan_signed (numeral 10 (suc fuel) n s) ≡ some (n, s)
    plain d rest k e f =
        let first : (digit d == 0x2d) ≡ false = ground arith in
        rw e (rw first (rw⁻¹ e (ap (mapped u32) f ∙ ap (λ (m : ℕ). some (m, s)) (omega arith))))

-- Ten digits hold 32 bits, twenty digits hold 64, and eight hexadecimal digits hold 32.
word-lt-power : (v : ℕ) → v < 2 ^ 32 → (v < power 10 10) × (v < power 16 8)
unfolding power
word-lt-power v h = (omega (arith, h), omega (arith, h))

long-lt-power : (v : ℕ) → v < 2 ^ 64 → v < power 10 20
unfolding power
long-lt-power v h = omega (arith, h)

scan_negative :
    (v : ℕ) (s : List ℕ)
    → 2 ^ 31 ≤ v
    → v < 2 ^ 32
    → Ends 10 s
    → scan_signed (skip_spaces (0x2d ∷ numeral 10 10 (negate32 v) s)) ≡ some (v, s)
unfolding scan_signed skip_spaces
scan_negative v s low high e =
    ap (mapped negate32)
      (scan_decimal 9 (negate32 v) s false (word-lt-power (negate32 v) (omega arith)).0 e)
    ∙ ap (λ (m : ℕ). some (m, s)) (omega (arith, low, high))

scan_one-print_one :
    (c : Conversion) (v : ℕ) (s : List ℕ)
    → Fits c v
    → Ends 16 s
    → scan_one c (print_one c v s) ≡ some (v, s)
unfolding scan_one print_one
scan_one-print_one signed v s h e = elim (Bool-cases (ltb v (2 ^ 31))) [
  | inl plus ↦ rw plus (
      ap scan_signed (skip_spaces-numeral 9 v s)
      ∙ scan_signed-numeral 9 v s (word-lt-power v h).0 h (Ends-16-10 s e))
  | inr minus ↦ rw minus (scan_negative v s (ground arith) h (Ends-16-10 s e))
]
scan_one-print_one unsigned v s h e =
    ap (λ (t : List ℕ). mapped u32 (scan_digits 10 t false 0)) (skip_spaces-numeral 9 v s)
    ∙ ap (mapped u32) (scan_decimal 9 v s false (word-lt-power v h).0 (Ends-16-10 s e))
    ∙ ap (λ (m : ℕ). some (m, s)) (omega arith)
scan_one-print_one long_unsigned v s h e =
    ap (λ (t : List ℕ). mapped u64 (scan_digits 10 t false 0)) (skip_spaces-numeral 19 v s)
    ∙ ap (mapped u64) (scan_decimal 19 v s false (long-lt-power v h) (Ends-16-10 s e))
    ∙ ap (λ (m : ℕ). some (m, s)) (omega arith)
scan_one-print_one hex v s h e =
    unfold skip_spaces scan_hex in
    (ap (mapped u32) (scan_hexadecimal 7 v s false (word-lt-power v h).1 e)
      ∙ ap (λ (m : ℕ). some (m, s)) (omega arith))

-- A value for each conversion, which it prints in full.
abbrev pub FitAll : List Conversion → List ℕ → Type 0
FitAll [] [] = Unit {0}
FitAll [] (v ∷ vs) = ⊥
FitAll (c ∷ cs) [] = ⊥
FitAll (c ∷ cs) (v ∷ vs) = Fits c v × FitAll cs vs

sscanf-cons :
    (c : Conversion) (cs : List Conversion) (t rest : List ℕ) (v : ℕ)
    → scan_one c t ≡ some (v, rest)
    → sscanf (c ∷ cs) t ≡ v ∷ sscanf cs rest
unfolding sscanf
sscanf-cons c cs t rest v e = rw (e, sscanf) refl

scan_one-space : (c : Conversion) (t : List ℕ) → scan_one c (0x20 ∷ t) ≡ scan_one c t
unfolding scan_one skip_spaces
scan_one-space signed t = refl
scan_one-space unsigned t = refl
scan_one-space long_unsigned t = refl
scan_one-space hex t = refl

sscanf-space :
    (c : Conversion) (cs : List Conversion) (t : List ℕ)
    → sscanf (c ∷ cs) (0x20 ∷ t) ≡ sscanf (c ∷ cs) t
unfolding sscanf
sscanf-space c cs t = rw (scan_one-space c t, sscanf) refl

-- Values that the conversions print in full, one for each, are scanned as they were, also where a
-- word is printed as a negative number, whatever ends the text, if it is no digit.
pub sscanf-sprintf :
    (cs : List Conversion) (vs : List ℕ) (end : List ℕ)
    → FitAll cs vs
    → Ends 16 end
    → sscanf cs (sprintf cs vs end) ≡ vs
unfolding sscanf sprintf digit_value
sscanf-sprintf [] [] end f e = refl
sscanf-sprintf [] (v ∷ vs) end f e = absurd f
sscanf-sprintf (c ∷ cs) [] end f e = absurd f
sscanf-sprintf (c ∷ []) (v ∷ []) end f e =
    sscanf-cons c [] (print_one c v end) end v (scan_one-print_one c v end f.0 e)
sscanf-sprintf (c ∷ []) (v ∷ w ∷ vs) end f e = absurd f.1
sscanf-sprintf (c ∷ c' ∷ cs) (v ∷ vs) end f e =
    let rest = 0x20 ∷ sprintf (c' ∷ cs) vs end in
    sscanf-cons c (c' ∷ cs) (print_one c v rest) rest v (scan_one-print_one c v rest f.0 refl)
    ∙ ap (◌∷◌ v)
        (sscanf-space c' cs (sprintf (c' ∷ cs) vs end) ∙ sscanf-sprintf (c' ∷ cs) vs end f.1 e)
