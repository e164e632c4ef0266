-- ===== src/Attributes/DeviceClass.antt =====
-- The attribute file of the device classes: netana_set_device_class and netana_get_device_class of
-- netanalyzer_kernel_mod/netana_tk_interface.c.
use nadrvlinux.Prelude.{
  ℕ, ◌<◌, ◌^◌, Bool, true, false, List, [], ◌∷◌, length, ◌==◌, ==_iff, if◌then◌else◌, ◌≡◌, refl,
  sym, ap, arith,
}
use nadrvlinux.Codes.{no_error}
use nadrvlinux.Text.{signed, sprintf, sscanf}
use nadrvlinux.Text.RoundTrip.{sscanf-sprintf}
use nadrvlinux.Text.Numerals.{Ends}
use nadrvlinux.Tasks.{Caller, Status, count, eperm}
use nadrvlinux.Tasks.Refinement.{store_err-eperm}
use nadrvlinux.Classes.{Process, set_dev_class_filter, get_dev_class_filter}
use nadrvlinux.Classes.Table.{ProcessesWf}
use nadrvlinux.Classes.Latest.{
  Choice, made, takes, latest_class, Words, set-Latest, set-code, made-Latest,
}
use nadrvlinux.Attributes.{Info, failed, with_one}

-- The process of the caller is `group_leader`.
unfoldable pub set_device_class :
    Caller → List ℕ → Info → List Process → (Status × Info) × List Process
set_device_class c buf t ps =
    with_one (sscanf (signed ∷ []) buf) ((count (length buf), t), ps) stored
  where
    stored : ℕ → (Status × Info) × List Process
    stored class =
        let (code, ps') = set_dev_class_filter c.memory c.leader class ps in
        (if code == no_error then (count (length buf), t) else failed c code t, ps')

unfoldable pub get_device_class : Caller → List Process → List ℕ
get_device_class c ps = sprintf (signed ∷ []) (get_dev_class_filter c.leader ps ∷ []) (0x0a ∷ [])

-- The text of a word, as the file shows it.
abbrev pub line_of : ℕ → List ℕ
line_of n = sprintf (signed ∷ []) (n ∷ []) (0x0a ∷ [])

module _ (c : Caller) (filter : ℕ) (end : List ℕ) (t : Info) (small : filter < 2 ^ 32)
    (ends : Ends 16 end) where
  set_device_class-scanned :
      (ps : List Process)
      → let (code, ps') = set_dev_class_filter c.memory c.leader filter ps in
        set_device_class c (sprintf (signed ∷ []) (filter ∷ []) end) t ps ≡ (
          if code == no_error
              then (count (length (sprintf (signed ∷ []) (filter ∷ []) end)), t)
              else failed c code t,
          ps',
        )
  unfolding set_device_class
  set_device_class-scanned ps =
      rw (sscanf-sprintf (signed ∷ []) (filter ∷ []) end (small, tt) ends) refl

  failed-eperm : (code : ℕ) → (code == no_error) ≡ false → (failed c code t).0 ≡ eperm
  failed-eperm code bad = store_err-eperm c code t.tasks (λ e. cc ((==_iff code no_error).1 e, bad))

  set_device_class-answer :
      (ps : List Process)
      → ProcessesWf ps
      → let old = get_dev_class_filter c.leader ps in
        let buf = sprintf (signed ∷ []) (filter ∷ []) end in
        let ((status, t'), ps') = set_device_class c buf t ps in
        (status ≡ (if takes c.memory old filter then count (length buf) else eperm))
        × (get_dev_class_filter c.leader ps' ≡ (if takes c.memory old filter then filter else old))
  set_device_class-answer ps w = rw (set_device_class-scanned ps) (
    told (takes c.memory (get_dev_class_filter c.leader ps) filter)
        (set_dev_class_filter c.memory c.leader filter ps).0
        (set-code c.memory c.leader filter ps small w),
    ground (
      arith,
      (set-Latest c.leader c.memory c.leader filter ps small w).1,
      ==_iff c.leader c.leader,
    ),
  )
    where
      told :
          (taken : Bool) (code : ℕ)
          → (code == no_error) ≡ taken
          → (if code == no_error
              then (count (length (sprintf (signed ∷ []) (filter ∷ []) end)), t)
              else failed c code t).0
            ≡ (if taken then count (length (sprintf (signed ∷ []) (filter ∷ []) end)) else eperm)
      told true code e = rw e refl
      told false code e = rw e (failed-eperm code e)

-- Whatever processes have chosen and cleared before, from an empty list on: a process that writes a word to
-- the file of the device classes gets the count of its bytes, and then reads this word, if it is from 1 to
-- 7 and there is memory or the process had chosen before; else it gets -EPERM, and then reads the word that
-- it has chosen last, or 0.
pub device_class-written :
    (c : Caller) (xs : List Choice) (filter : ℕ) (end : List ℕ) (t : Info)
    → Words xs
    → filter < 2 ^ 32
    → Ends 16 end
    → let old = latest_class c.leader 0 xs in
      let buf = sprintf (signed ∷ []) (filter ∷ []) end in
      let ((status, t'), ps') = set_device_class c buf t (made xs []) in
      (status ≡ (if takes c.memory old filter then count (length buf) else eperm))
      × (get_device_class c ps' ≡ line_of (if takes c.memory old filter then filter else old))
unfolding get_device_class get_dev_class_filter
device_class-written c xs filter end t words small ends =
    let (wf, latest) = made-Latest c.leader xs [] words tt in
    let (status, reads) = set_device_class-answer c filter end t small ends (made xs []) wf in
    rw (sym latest) (status, ap line_of reads)
