-- ===== src/Library/Through.antt =====
-- What comes back through an attribute file that was written.
use nadrvlinux.Prelude.{
  ℕ, ◌<◌, ◌^◌, true, Option, none, some, List, [], ◌∷◌, length, ◌==◌, ==_iff, if_true, Bool-cases,
  ◌≡◌, ◌≢◌, refl, sym, ap, ◌∙◌, inl, inr, arith,
}
use nadrvlinux.Codes.{no_error, function_failed}
use nadrvlinux.System.{System, M, pure, ◌>>=◌}
use nadrvlinux.Text.{hex, digit_value}
use nadrvlinux.Text.RoundTrip.{sscanf-sprintf}
use nadrvlinux.Tasks.{Status, count, get_err, store_err}
use nadrvlinux.Tasks.Refinement.{find_err-store_err, store_err-eperm}
use nadrvlinux.Attributes.{Info, get_last_error, failed, reported, finish}
use nadrvlinux.Library.{Client, first_or, get_error, written_code, one_written, write_file}

get_error-eq-get_err :
    (c : Client) (t : Info)
    → get_err c.task t.tasks < 2 ^ 32
    → get_error c t ≡ get_err c.task t.tasks
unfolding get_error get_last_error digit_value
get_error-eq-get_err c t small =
    ap (first_or function_failed)
      (sscanf-sprintf (hex ∷ []) (get_err c.task t.tasks ∷ []) (0x0a ∷ []) (small, tt) refl)

-- A task that was given an error reads it as it was.
get_error-failed :
    (c : Client) (code : ℕ) (t : Info)
    → c.task.memory ≡ true
    → code ≢ 0
    → code < 2 ^ 32
    → get_error c (failed c.task code t).1 ≡ code
unfolding get_err
get_error-failed c code t memory bad small =
    let stored : get_err c.task (store_err c.task code t.tasks).1 ≡ code =
      find_err-store_err c.task.pid c.task code t.tasks memory
      ∙ ground (arith, bad, ==_iff c.task.pid c.task.pid) in
    get_error-eq-get_err c (failed c.task code t).1 (omega (arith, stored, small)) ∙ stored

-- What a call of the library gives is the code of the toolkit.
pub written_code-reported :
    (c : Client) (code n : ℕ) (t : Info)
    → c.task.memory ≡ true
    → code < 2 ^ 32
    → (written_code c (reported c.task code (count n) t)).0 ≡ code
written_code-reported c code n t memory small = elim (Bool-cases (code == no_error)) [
  | inl fine ↦ rw fine (sym ((==_iff code no_error).0 fine))
  | inr bad ↦ rw bad (
      rw (store_err-eperm c.task code t.tasks (ground (arith, bad)))
        (get_error-failed c code t memory (ground (arith, bad)) small))
]

-- So it is where a success is told by one character.
pub one_written-reported :
    (c : Client) (code : ℕ) (buf : List ℕ) (t : Info)
    → c.task.memory ≡ true
    → code < 2 ^ 32
    → (code ≡ no_error → length buf ≡ 1)
    → (one_written c buf (reported c.task code (count (length buf)) t)).0 ≡ code
one_written-reported c code buf t memory small short = elim (Bool-cases (code == no_error)) [
  | inl fine ↦
      rw fine (rw (short ((==_iff code no_error).0 fine)) (sym ((==_iff code no_error).0 fine)))
  | inr bad ↦ rw bad (
      rw (store_err-eperm c.task code t.tasks (ground (arith, bad)))
        (get_error-failed c code t memory (ground (arith, bad)) small))
]

-- A result without the node.
abbrev pub forget : Option ((ℕ × Info) × System) → Option (ℕ × System)
forget none = none
forget (some ((code, t), s)) = some (code, s)

abbrev pub Small : Option (ℕ × System) → Type 0
Small none = Unit {0}
Small (some (code, s)) = code < 2 ^ 32

pub finish-forget :
    (c : Client) (ret : ℕ) (buf : List ℕ) (t : Info) (call : M ℕ) (s : System)
    → c.task.memory ≡ true
    → c.file_there ≡ true
    → Small (call s)
    → forget (write_file c ret t (finish c.task buf t call) s) ≡ call s
finish-forget c ret buf t call s memory there small =
    ap (λ (m : M (ℕ × Info)). forget (m s))
      (if_true c.file_there (finish c.task buf t call >>= λ answer. pure (written_code c answer))
        (pure (ret, t)) there)
    ∙ ended (call s) small
  where
    ended :
        (o : Option (ℕ × System))
        → Small o
        → forget
            (elim (elim o as (λ x. Option ((Status × Info) × System)) [
              | none ↦ none
              | some (code, s') ↦ some (reported c.task code (count (length buf)) t, s')
            ])
              as (λ x. Option ((ℕ × Info) × System)) [
                | none ↦ none
                | some (answer, s') ↦ some (written_code c answer, s')
              ])
          ≡ o
    ended none h = refl
    ended (some (code, s')) h =
        ap (λ (v : ℕ). some (v, s')) (written_code-reported c code (length buf) t memory h)
