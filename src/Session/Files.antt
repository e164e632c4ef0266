-- ===== src/Session/Files.antt =====
-- Which files are open after a call of netana_set_filelist.
use mathlib.Core.List.{append-nil}
use nadrvlinux.Prelude.{
  ℕ, zero, suc, ◌+◌, ◌≤◌, ◌<◌, true, ◌&&◌, Option, none, some, length, length-set, get_or-set, ltb,
  leb, ◌==◌, ==_iff, if◌then◌else◌, ◌≡◌, refl, sym, ap, ◌∙◌, inl, inr, Option-cases, arith,
}
use nadrvlinux.Device.{FileData}
use nadrvlinux.System.{System, file_close, pure, ◌>>◌, modify, effect}
use nadrvlinux.System.Run.{Run, Run->>=, Run-weaken}
use nadrvlinux.Capture.{no_file, file_at, with_file}
use nadrvlinux.Capture.Files.{OnlyFiles, OnlyFiles-trans, callbacks-append}
use nadrvlinux.Session.{close_files, close_capture_files}

-- The files from `n` on, `left` in number, are closed; the others are as before.
pub record Closed (left n : ℕ) (s s' : System) : Type 0 where
  pub only : OnlyFiles s s'
  pub same : s'.device.current_file ≡ s.device.current_file
  pub closed :
      (i : ℕ)
      → i < length s.device.files
      → file_at s'.device i ≡ (
          if leb n i && ltb i (n + left)
          then record (file_at s.device i) { file = none }
          else file_at s.device i)

close_one :
    (n : ℕ) (s : System)
    → n < length s.device.files
    → Run
        (elim (file_at s.device n).file [
          | none ↦ pure tt
          | some h ↦ effect (file_close h) >> modify (with_file n (λ f. record f { file = none }))
        ])
        s
        (λ u t. Closed 1 n s t)
unfolding Run
close_one n s h = elim (Option-cases (file_at s.device n).file) [
  | inl e ↦ rw e (record {
    only = record { same_rest = refl; same_length = refl; same_accepts = refl; quiet = refl };
    same = refl;
    closed = λ i k. ground (arith, already e i);
  })
  | inr (f, e) ↦ rw e (record {
    only = record {
      same_rest = refl;
      same_length = length-set s.device.files n _;
      same_accepts = refl;
      quiet = callbacks-append s.trace _ ∙ append-nil _;
    };
    same = refl;
    closed = λ i k. ground (
      arith,
      get_or-set s.device.files n i (record (file_at s.device n) { file = none }) no_file h,
      this_one i,
    );
  })
]
  where
    this_one : (i : ℕ) → (n == i) ≡ true → file_at s.device n ≡ file_at s.device i
    this_one i q = ap (file_at s.device) ((==_iff n i).0 q)

    already :
        (file_at s.device n).file ≡ none
        → (i : ℕ) → (n == i) ≡ true
        → file_at s.device i ≡ record (file_at s.device i) { file = none }
    already e i q =
        ap (λ (o : Option ℕ). record (file_at s.device i) { file = o })
          (ap (λ (f : FileData). f.file) (sym (this_one i q)) ∙ e)

close_files-Closed :
    (left n : ℕ) (s : System)
    → n + left ≤ length s.device.files
    → Run (close_files left n) s (λ u s'. Closed left n s s')
unfolding Run close_files
close_files-Closed zero n s h = record {
  only = record { same_rest = refl; same_length = refl; same_accepts = refl; quiet = refl };
  same = refl;
  closed = λ i k. ground arith;
}
close_files-Closed (suc left) n s h =
    Run->>=
      (elim (file_at s.device n).file [
        | none ↦ pure tt
        | some h ↦ effect (file_close h) >> modify (with_file n (λ f. record f { file = none }))
      ])
      (λ u. close_files left (n + 1)) s (λ u t. Closed 1 n s t) (λ u s'. Closed (suc left) n s s')
      (close_one n s (omega arith))
      (λ u t c.
        Run-weaken (close_files left (n + 1)) t (λ u s'. Closed left (n + 1) t s')
          (λ u s'. Closed (suc left) n s s')
          (close_files-Closed left (n + 1) t (omega (arith, c.only.same_length)))
          (λ v s' d. record {
            only = OnlyFiles-trans s t s' c.only d.only;
            same = d.same ∙ c.same;
            closed =
                λ i k. ground (arith, c.closed i k, d.closed i (omega (arith, c.only.same_length)));
          }))

pub close_capture_files-Closed :
    (s : System)
    → s.device.file_count ≤ length s.device.files
    → Run close_capture_files s (λ u s'. Closed s.device.file_count 0 s s')
unfolding Run close_capture_files
close_capture_files-Closed s h = close_files-Closed s.device.file_count 0 s (omega arith)
