-- ===== src/Session/Opening.antt =====
-- One round of the loop in OpenCaptureFiles.
use nadrvlinux.Prelude.{
  ℕ, suc, ◌+◌, ◌≤◌, ◌<◌, none, some, set, length, length-set, get_or-set, ◌==◌, if◌then◌else◌, ◌≡◌,
  ◌≢◌, refl, sym, subst, ◌∙◌, ◌⊎◌, inl, inr, Bool-cases, arith,
}
use nadrvlinux.Codes.{no_error, file_creation_failed}
use nadrvlinux.Device.{FileData}
use nadrvlinux.System.{System}
use nadrvlinux.Capture.{no_file, file_at}
use nadrvlinux.Capture.Files.{OnlyFiles, OnlyFiles-trans}

-- A file that was opened and not written to.
pub record New (f : FileData) : Type 0 where
  pub is_open : f.file ≢ none
  pub at_start : f.offset ≡ 0
  pub nothing_written : f.data_written ≡ 0

-- The loop over `left` files from `n` on, ended with a code.
pub record Opening (left n : ℕ) (s s' : System) (code : ℕ) : Type 0 where
  pub only : OnlyFiles s s'
  pub same : s'.device.current_file ≡ s.device.current_file
  pub codes : (code ≡ no_error) ⊎ (code ≡ file_creation_failed)
  pub opened :
      code ≡ no_error
      → (i : ℕ) → i < length s.device.files
      → n ≤ i
      → i < n + left
      → New (file_at s'.device i)
  pub others :
      (i : ℕ)
      → i < length s.device.files
      → (i < n) ⊎ (n + left ≤ i)
      → file_at s'.device i ≡ file_at s.device i

-- A step that writes file `n` alone.
pub record Wrote (n : ℕ) (v : FileData) (s t : System) : Type 0 where
  pub only : OnlyFiles s t
  pub same : t.device.current_file ≡ s.device.current_file
  pub written :
      (i : ℕ)
      → i < length s.device.files
      → file_at t.device i ≡ (if n == i then v else file_at s.device i)

pub wrote :
    (n : ℕ) (v : FileData) (s : System)
    → n < length s.device.files
    → Wrote n v s (record s { device = record s.device { files = set s.device.files n v } })
wrote n v s h = record {
  only = record {
    same_rest = refl;
    same_length = length-set s.device.files n v;
    same_accepts = refl;
    quiet = refl;
  };
  same = refl;
  written = λ i k. get_or-set s.device.files n i v no_file h;
}

pub failed_here :
    (left n : ℕ) (v : FileData) (s t : System)
    → Wrote n v s t
    → Opening (suc left) n s t file_creation_failed
failed_here left n v s t w = record {
  only = w.only;
  same = w.same;
  codes = inr refl;
  opened = λ e i k lo hi. absurd (omega (arith, e));
  others = λ i k o. ground (arith, w.written i k);
}

some-ne-none : (h : ℕ) → some h ≢ none
some-ne-none h q = cc

New-opened : (h : ℕ) → New (record { file = some h; offset = 0; data_written = 0 })
New-opened h = record { is_open = some-ne-none h; at_start = refl; nothing_written = refl }

pub opened_here :
    (left n h : ℕ) (s t s' : System) (code : ℕ)
    → n < length s.device.files
    → Wrote n (record { file = some h; offset = 0; data_written = 0 }) s t
    → Opening left (n + 1) t s' code
    → Opening (suc left) n s s' code
opened_here left n h s t s' code there w o = record {
  only = OnlyFiles-trans s t s' w.only o.only;
  same = o.same ∙ w.same;
  codes = o.codes;
  opened = λ e i k lo hi. elim (Bool-cases (n == i)) [
    | inl this ↦
        subst New
          (sym (
            o.others i (omega (arith, w.only.same_length)) (inl (ground arith))
            ∙ ground (arith, w.written i k)))
          (New-opened h)
    | inr later ↦ o.opened e i (omega (arith, w.only.same_length)) (ground arith) (omega arith)
  ];
  others = λ i k p.
      o.others i (omega (arith, w.only.same_length)) (ground arith) ∙ ground (arith, w.written i k);
}
