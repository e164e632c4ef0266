-- ===== src/Text/Numerals.antt =====
-- A printed number is scanned again.
use nadrvlinux.Prelude.{
  ℕ, zero, suc, ◌+◌, ◌*◌, ◌/◌, ◌%◌, ◌≤◌, ◌<◌, Bool, true, false, some, List, [], ◌∷◌, ltb, ◌==◌,
  ==_iff, Bool-cases, if◌then◌else◌, ◌≡◌, refl, sym, ap, ◌∙◌, inl, inr, arith,
}
use nadrvlinux.Text.{numeral, digit_value, is_digit, value_of, scan_digits}

-- The numbers of at most `fuel` digits.
unfoldable pub power : (base fuel : ℕ) → ℕ
power base zero = 1
power base (suc fuel) = base * power base fuel

-- A text that no digit begins.
abbrev pub Ends : ℕ → List ℕ → Type 0
Ends base [] = Unit {0}
Ends base (c ∷ s) = is_digit base c ≡ false

abbrev pub digit : ℕ → ℕ
digit d = if ltb d 10 then 0x30 + d else 0x37 + d

is_digit-digit : (base d : ℕ) → base ≤ 16 → d < base → is_digit base (digit d) ≡ true
unfolding digit_value
is_digit-digit base d h k = ground arith

value_of-digit : (d : ℕ) → d < 16 → value_of (digit d) ≡ d
unfolding digit_value
value_of-digit d h = ground arith

scan_digits-digit :
    (base d n : ℕ) (s : List ℕ) (seen : Bool)
    → base ≤ 16
    → d < base
    → scan_digits base (digit d ∷ s) seen n ≡ scan_digits base s true (n * base + d)
unfolding scan_digits
scan_digits-digit base d n s seen h k =
    rw (is_digit-digit base d h k)
      (ap (λ (v : ℕ). scan_digits base s true (n * base + v)) (value_of-digit d (omega arith)))

scan_digits-end : (base n : ℕ) (s : List ℕ) → Ends base s → scan_digits base s true n ≡ some (n, s)
unfolding scan_digits
scan_digits-end base n [] h = refl
scan_digits-end base n (c ∷ s) h = rw h

-- For a base that divides as it should, which is clear at each numeral.
module _ (base : ℕ) (large : base ≤ 16) (parts : (n : ℕ) → n / base * base + n % base ≡ n)
    (small : (n : ℕ) → n % base < base) (falls : (n m : ℕ) → n < base * m → n / base < m) where
  scan_last :
      (n : ℕ) (s : List ℕ) (seen : Bool)
      → (n / base == 0) ≡ true
      → scan_digits base (digit (n % base) ∷ s) seen 0 ≡ scan_digits base s true n
  scan_last n s seen e =
      scan_digits-digit base (n % base) 0 s seen large (small n)
      ∙ ap (scan_digits base s true)
          (ap (λ (q : ℕ). q * base + n % base) (sym ((==_iff (n / base) 0).0 e)) ∙ parts n)

  pub scan_digits-numeral :
      (fuel n : ℕ) (s : List ℕ) (seen : Bool)
      → n < power base (suc fuel)
      → scan_digits base (numeral base (suc fuel) n s) seen 0 ≡ scan_digits base s true n
  unfolding numeral power
  scan_digits-numeral zero n s seen h =
      let last : (n / base == 0) ≡ true = ground (arith, falls n 1 h) in
      rw last (scan_last n s seen last)
  scan_digits-numeral (suc fuel) n s seen h = elim (Bool-cases (n / base == 0)) [
    | inl last ↦ rw last (scan_last n s seen last)
    | inr more ↦ rw more (
        scan_digits-numeral fuel (n / base) (digit (n % base) ∷ s) seen
          (falls n (power base (suc fuel)) h)
        ∙ scan_digits-digit base (n % base) (n / base) s true large (small n)
        ∙ ap (scan_digits base s true) (parts n))
  ]

pub scan_decimal :
    (fuel n : ℕ) (s : List ℕ) (seen : Bool)
    → n < power 10 (suc fuel)
    → Ends 10 s
    → scan_digits 10 (numeral 10 (suc fuel) n s) seen 0 ≡ some (n, s)
scan_decimal fuel n s seen h e =
    scan_digits-numeral 10 (omega arith) (λ n. omega arith) (λ n. omega arith)
      (λ n m k. omega (arith, k)) fuel n s seen h
    ∙ scan_digits-end 10 n s e

pub scan_hexadecimal :
    (fuel n : ℕ) (s : List ℕ) (seen : Bool)
    → n < power 16 (suc fuel)
    → Ends 16 s
    → scan_digits 16 (numeral 16 (suc fuel) n s) seen 0 ≡ some (n, s)
scan_hexadecimal fuel n s seen h e =
    scan_digits-numeral 16 (omega arith) (λ n. omega arith) (λ n. omega arith)
      (λ n m k. omega (arith, k)) fuel n s seen h
    ∙ scan_digits-end 16 n s e

-- A numeral begins with a digit, so that neither spaces nor a sign are found at its place.
pub numeral-cons :
    (base fuel n : ℕ) (s : List ℕ)
    → base ≤ 16
    → ((n : ℕ) → n % base < base)
    → (d : ℕ) × (rest : List ℕ) × (d < base) × (numeral base (suc fuel) n s ≡ digit d ∷ rest)
unfolding numeral
numeral-cons base zero n s h small = (n % base, s, small n, ground arith)
numeral-cons base (suc fuel) n s h small =
    let (d, rest, k, e) = numeral-cons base fuel (n / base) (digit (n % base) ∷ s) h small in
    elim (Bool-cases (n / base == 0)) [
      | inl last ↦ (n % base, s, small n, rw last)
      | inr more ↦ (d, rest, k, rw more e)
    ]
