-- ===== src/Filter/Layout.antt =====
-- The arrays of every port keep their size, and a call writes one port at most.
use nadrvlinux.Prelude.{
  ℕ, zero, suc, ◌-◌, ◌≤◌, ◌<◌, Option, none, some, List, [], ◌∷◌, ◌++◌, take, drop, replicate,
  length, length-append, length-take, length-replicate, ◌==◌, if◌then◌else◌, ◌≡◌, refl, ap, arith,
}
use nadrvlinux.Device.{Device, DpmFilter}
use nadrvlinux.Filter.{Filter, memcpy, clear, copied, filter_at, store}

-- The four arrays of a filter have the size.
pub record HasSize (size : ℕ) (p : DpmFilter) : Type 0 where
  pub mask_a_size : length p.mask_a ≡ size
  pub value_a_size : length p.value_a ≡ size
  pub mask_b_size : length p.mask_b ≡ size
  pub value_b_size : length p.value_b ≡ size

-- Every port has its filter.
pub record FiltersWf (d : Device) : Type 0 where
  pub ports : length d.filters ≡ d.port_cnt
  pub sizes : (port : ℕ) → port < d.port_cnt → HasSize d.filter_size (filter_at d port)

-- An array of the caller, if it is there, holds at least `n` bytes.
abbrev pub Holds : ℕ → Option (List ℕ) → Type 0
Holds n none = Unit {0}
Holds n (some xs) = n ≤ length xs

-- A structure of the caller is backed by the bytes that it says.
abbrev pub Backed : Option Filter → Type 0
Backed none = Unit {0}
Backed (some f) = Holds f.filter_size f.mask × Holds f.filter_size f.value

pub clear_all : (dst : List ℕ) (n : ℕ) → length dst ≡ n → clear dst n ≡ replicate n 0
clear_all [] zero e = refl
clear_all [] (suc n) e = absurd (omega arith)
clear_all (x ∷ dst) zero e = absurd (omega arith)
clear_all (x ∷ dst) (suc n) e = ap (λ (xs : List ℕ). 0 ∷ xs) (clear_all dst n (omega arith))

pub memcpy_all :
    (dst src : List ℕ) (n : ℕ) → length src ≡ n → length dst ≡ n → memcpy dst src n ≡ src
memcpy_all [] [] zero e f = refl
memcpy_all [] (x ∷ src) zero e f = absurd (omega arith)
memcpy_all (y ∷ dst) src zero e f = absurd (omega arith)
memcpy_all dst [] (suc n) e f = absurd (omega arith)
memcpy_all [] (x ∷ src) (suc n) e f = absurd (omega arith)
memcpy_all (y ∷ dst) (x ∷ src) (suc n) e f =
    ap (◌∷◌ x) (memcpy_all dst src n (omega arith) (omega arith))

-- The bytes given, with zeros up to the size.
abbrev pub padded_bytes : ℕ → ℕ → Option (List ℕ) → List ℕ
padded_bytes size n none = replicate size 0
padded_bytes size n (some src) = take n src ++ replicate (size - n) 0

unfoldable pub padded : ℕ → (Filter → Option (List ℕ)) → Option Filter → List ℕ
padded size bytes none = replicate size 0
padded size bytes (some f) = padded_bytes size f.filter_size (bytes f)

drop-replicate : (n size : ℕ) → drop n (replicate {A = ℕ} size 0) ≡ replicate (size - n) 0
drop-replicate zero size = grind arith
drop-replicate (suc n) zero = grind arith
drop-replicate (suc n) (suc size) = grind (arith, drop-replicate n size)

store_bytes :
    (size n : ℕ) (o : Option (List ℕ))
    → (if n == 0 then replicate size 0 else copied (replicate size 0) n o) ≡ padded_bytes size n o
store_bytes size n none = ground arith
store_bytes size zero (some src) = grind arith
store_bytes size (suc n) (some src) = grind (arith, drop-replicate (suc n) size)

pub store-padded :
    (size : ℕ) (bytes : Filter → Option (List ℕ)) (f : Option Filter) (dst : List ℕ)
    → length dst ≡ size
    → store bytes f (clear dst size) ≡ padded size bytes f
unfolding store padded
store-padded size bytes none dst e = clear_all dst size e
store-padded size bytes (some f) dst e =
    rw (clear_all dst size e) (store_bytes size f.filter_size (bytes f))

pub length-padded :
    (size n : ℕ) (o : Option (List ℕ))
    → n ≤ size
    → Holds n o
    → length (padded_bytes size n o) ≡ size
length-padded size n none h k = length-replicate size 0
length-padded size n (some src) h k = omega (
  arith,
  length-append (take n src) (replicate (size - n) 0),
  length-take n src,
  length-replicate {A = ℕ} (size - n) 0,
)
