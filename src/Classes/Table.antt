-- ===== src/Classes/Table.antt =====
-- The list of processes: what its loops find after each change, and which words are refused.
use nadrvlinux.Prelude.{
  ℕ, zero, suc, ◌+◌, ◌*◌, ◌/◌, ◌<◌, ◌^◌, bit_and, leb, Bool, false, not, ◌||◌, ◌&&◌, List, [], ◌∷◌,
  ◌++◌, ◌==◌, ==_iff, if◌then◌else◌, Bool-cases, ◌≡◌, ◌≢◌, refl, ap, ◌∙◌, inl, inr, arith,
}
use native.Mathlib.Nat.{pow-suc}
use nadrvlinux.Prelude.Bits.{bit_and_digit, bit_and_odd, bit_and-zero}
use nadrvlinux.Classes.{
  Process, inv_mask, has_process, mark_class, is_refused, get_dev_class_filter,
  clear_dev_class_filter,
}

-- Every process has one entry at most, with a class.
abbrev pub ProcessesWf : List Process → Type 0
ProcessesWf [] = Unit {0}
ProcessesWf (p ∷ ps) = (p.device_class ≢ 0) × (has_process p.pid ps ≡ false) × ProcessesWf ps

has_process-mark_class :
    (n pid f : ℕ) (ps : List Process) → has_process n (mark_class pid f ps) ≡ has_process n ps
unfolding has_process mark_class
has_process-mark_class n pid f [] = refl
has_process-mark_class n pid f (p ∷ ps) = ground (arith, has_process-mark_class n pid f ps)

has_process-append :
    (n : ℕ) (ps qs : List Process)
    → has_process n (ps ++ qs) ≡ (has_process n ps || has_process n qs)
unfolding has_process
has_process-append n [] qs = refl
has_process-append n (p ∷ ps) qs = ground (arith, has_process-append n ps qs)

has_process-clear :
    (n pid : ℕ) (ps : List Process)
    → has_process n ps ≡ false
    → has_process n (clear_dev_class_filter pid ps) ≡ false
unfolding has_process clear_dev_class_filter
has_process-clear n pid [] h = refl
has_process-clear n pid (p ∷ ps) h = ground (arith, h, has_process-clear n pid ps)

pub mark_class-Wf :
    (pid f : ℕ) (ps : List Process) → f ≢ 0 → ProcessesWf ps → ProcessesWf (mark_class pid f ps)
unfolding mark_class
mark_class-Wf pid f [] pos w = tt
mark_class-Wf pid f (p ∷ ps) pos w = elim (Bool-cases (p.pid == pid)) [
  | inl same ↦ rw same (pos, w.1, w.2)
  | inr other ↦
      rw other (w.0, has_process-mark_class p.pid pid f ps ∙ w.1, mark_class-Wf pid f ps pos w.2)
]

pub append-Wf :
    (ps : List Process) (q : Process)
    → q.device_class ≢ 0
    → has_process q.pid ps ≡ false
    → ProcessesWf ps
    → ProcessesWf (ps ++ q ∷ [])
unfolding has_process
append-Wf [] q pos h w = (pos, refl, tt)
append-Wf (p ∷ ps) q pos h w = (
  w.0,
  ground
      (arith, h, w.1, has_process-append p.pid ps (q ∷ []), ==_iff p.pid q.pid, ==_iff q.pid p.pid),
  append-Wf ps q pos (ground (arith, h)) w.2,
)

pub clear-Wf :
    (pid : ℕ) (ps : List Process) → ProcessesWf ps → ProcessesWf (clear_dev_class_filter pid ps)
unfolding clear_dev_class_filter
clear-Wf pid [] w = tt
clear-Wf pid (p ∷ ps) w = elim (Bool-cases (p.pid == pid)) [
  | inl same ↦ rw same w.2
  | inr other ↦ rw other (w.0, has_process-clear p.pid pid ps w.1, clear-Wf pid ps w.2)
]

-- What a process reads after each of these.
pub get-mark_class :
    (n pid f : ℕ) (ps : List Process)
    → get_dev_class_filter n (mark_class pid f ps)
      ≡ (if (pid == n) && has_process pid ps then f else get_dev_class_filter n ps)
unfolding get_dev_class_filter mark_class has_process
get-mark_class n pid f [] = ground arith
get-mark_class n pid f (p ∷ ps) =
    ground (arith, get-mark_class n pid f ps, ==_iff pid n, ==_iff p.pid pid, ==_iff p.pid n)

pub get-append :
    (n : ℕ) (ps : List Process) (q : Process)
    → has_process q.pid ps ≡ false
    → get_dev_class_filter n (ps ++ q ∷ [])
      ≡ (if q.pid == n then q.device_class else get_dev_class_filter n ps)
unfolding get_dev_class_filter has_process
get-append n [] q h = refl
get-append n (p ∷ ps) q h =
    ground (arith, h, get-append n ps q, ==_iff p.pid q.pid, ==_iff q.pid n, ==_iff p.pid n)

pub get-absent :
    (n : ℕ) (ps : List Process) → has_process n ps ≡ false → get_dev_class_filter n ps ≡ 0
unfolding get_dev_class_filter has_process
get-absent n [] h = refl
get-absent n (p ∷ ps) h = ground (arith, h, get-absent n ps)

pub get-clear :
    (n pid : ℕ) (ps : List Process)
    → ProcessesWf ps
    → get_dev_class_filter n (clear_dev_class_filter pid ps)
      ≡ (if pid == n then 0 else get_dev_class_filter n ps)
unfolding get_dev_class_filter clear_dev_class_filter
get-clear n pid [] w = ground arith
get-clear n pid (p ∷ ps) w = ground (
  arith,
  w.1,
  get-clear n pid ps w.2,
  get-absent p.pid ps,
  get-absent n ps,
  ==_iff p.pid pid,
  ==_iff pid n,
  ==_iff p.pid n,
  ap (λ (k : ℕ). has_process k ps),
)

pub has_process-get :
    (n : ℕ) (ps : List Process)
    → ProcessesWf ps
    → has_process n ps ≡ not (get_dev_class_filter n ps == 0)
unfolding get_dev_class_filter has_process
has_process-get n [] w = refl
has_process-get n (p ∷ ps) w =
    ground (arith, w.0, has_process-get n ps w.2, ==_iff p.device_class 0)

-- The words that stand for classes.
abbrev pub is_class : ℕ → Bool
is_class filter = leb 1 filter && leb filter 7

abbrev ones : ℕ → ℕ
ones zero = 0
ones (suc k) = 2 * ones k + 1

bit_and-ones_zero : (k : ℕ) → bit_and 0 (ones k) ≡ 0
bit_and-ones_zero zero = bit_and-zero 0
bit_and-ones_zero (suc k) = bit_and_odd 0 (ones k) ∙ omega (arith, bit_and-ones_zero k)

bit_and-ones : (k x : ℕ) → x < 2 ^ k → bit_and x (ones k) ≡ 0 → x ≡ 0
bit_and-ones zero x h e = omega arith
bit_and-ones (suc k) x h e = omega (
  arith,
  bit_and-ones k (x / 2) (omega (arith, h, pow-suc 2 k)) (omega (arith, bit_and_odd x (ones k), e)),
  bit_and_odd x (ones k),
  e,
)

bit_and-inv_mask : (x : ℕ) → bit_and x inv_mask ≡ bit_and (x / 8) (ones 29) * 8
bit_and-inv_mask x =
    let eighth : x / 2 / 2 / 2 ≡ x / 8 = omega arith in
    omega (
      arith,
      bit_and_digit x inv_mask,
      bit_and_digit (x / 2) 0x7fff_fffc,
      bit_and_digit (x / 2 / 2) 0x3fff_fffe,
      ap (λ (y : ℕ). bit_and y (ones 29)) eighth,
    )

-- Of the words of 32 bits, those from 1 to 7 are taken.
pub is_refused-not : (filter : ℕ) → filter < 2 ^ 32 → is_refused filter ≡ not (is_class filter)
unfolding is_refused
is_refused-not filter small = ground (
  arith,
  bit_and-inv_mask filter,
  low,
  bit_and-ones 29 (filter / 8) (omega (arith, small)),
  ==_iff (bit_and filter inv_mask) 0,
  ==_iff filter 0,
)
  where
    low : filter < 8 → bit_and (filter / 8) (ones 29) ≡ 0
    low h =
        let none_left : filter / 8 ≡ 0 = omega (arith, h) in
        ap (λ (y : ℕ). bit_and y (ones 29)) none_left ∙ bit_and-ones_zero 29
