-- ===== src/Bringup/Removal.antt =====
-- How a device is removed: netana_tkit_deviceremove of
-- netanalyzer_kernel_mod/toolkit/netana_toolkit.c. What it writes to the register that enables the
-- interrupts is not in the model of a running device, nor are the buffers of the default filters and the
-- mutexes of the mailboxes, which it leaves allocated.
use nadrvlinux.Prelude.{
  ℕ, zero, suc, ◌≤◌, ◌<◌, Bool, true, false, not, ◌&&◌, Option, none, some, List, [], ◌∷◌, drop,
  length, replicate, ltb, if◌then◌else◌, ◌≡◌, ◌≢◌, refl, ap, sym, subst, ◌∙◌, ◌⊎◌, inl, inr, arith,
}
use nadrvlinux.Codes.{no_error, device_still_open, function_failed}
use nadrvlinux.Device.{Device}
use nadrvlinux.System.{System, M, pure, ◌>>=◌, ◌>>◌, the_device, modify}
use nadrvlinux.System.Run.{Returned, Run, Run->>=, Run-if}
use nadrvlinux.Handshake.{toggle_bit, wait_for_bit_state, bitstate_equal, default_timeout}
use nadrvlinux.Handshake.Laws.{agrees, HasLate, wait_for_bit_state-WaitResult}
use nadrvlinux.Handshake.Passing.{passes, Agreed, wait_for_bit_state-Agreed}
use nadrvlinux.Capture.{file_at}
use nadrvlinux.Session.{close_capture_files}
use nadrvlinux.Session.Files.{Closed, close_capture_files-Closed}
use nadrvlinux.Bringup.{Resources, delete_irq_events}
use nadrvlinux.Bringup.Adding.{delete_events-none}

abbrev pub clkoff_bit : ℕ
clkoff_bit = 15

-- STAILQ_REMOVE
unfoldable pub without {ℓ} : {A : Type ℓ} → ℕ → List A → List A
without i [] = []
without zero (x ∷ xs) = xs
without (suc i) (x ∷ xs) = x ∷ without i xs

-- The device of the system stands at a position of the list. The loop over its files is that of
-- CloseCaptureFiles.
unfoldable pub device_remove :
    (forced : Bool) → (position : ℕ) → Resources → List Device → M (ℕ × Resources × List Device)
unfolding without close_capture_files delete_irq_events
device_remove forced position r cards = do
  d ← the_device
  if ltb 0 d.open_cnt && not forced
      then pure (device_still_open, r, cards)
      else (modify (toggle_bit clkoff_bit)
          >> wait_for_bit_state clkoff_bit bitstate_equal default_timeout
          >>= λ ok.
              close_capture_files
              >> pure (
                if ok then no_error else function_failed,
                record { lock = false; events = delete_irq_events r.events },
                without position cards,
              ))

-- A wait that ends, with what it found.
waited :
    (bit timeout : ℕ) (s : System)
    → HasLate s.clock timeout s.wakes
    → Run (wait_for_bit_state bit bitstate_equal timeout) s (λ ok s'.
      (agrees s'.device bit ≡ ok)
      × ((n : ℕ) × (s'.device ≡ passes n s.wakes s.device) × (s'.wakes ≡ drop n s.wakes)))
unfolding Run
waited bit timeout s late =
    ended (wait_for_bit_state bit bitstate_equal timeout s)
      ((wait_for_bit_state-WaitResult bit bitstate_equal timeout s).1 late)
      (wait_for_bit_state-Agreed bit timeout s)
  where
    ended :
        (o : Option (Bool × System))
        → o ≢ none
        → Agreed bit s o
        → Returned
            (λ ok s'.
              (agrees s'.device bit ≡ ok)
              × ((n : ℕ) × (s'.device ≡ passes n s.wakes s.device) × (s'.wakes ≡ drop n s.wakes)))
            o
    ended none h a = h refl
    ended (some (ok, s')) h a = a

-- The events are gone, and so is the lock.
abbrev pub Freed : Resources → Resources → Type 0
Freed r r' =
    (r'.lock ≡ false)
    × (r'.events
        ≡ record { stop_event = false; bit_events = replicate (length r.events.bit_events) false })

-- What a removal leaves.
abbrev pub Removed :
    Bool → ℕ → Resources → List Device → System → ℕ × Resources × List Device → System → Type 0
Removed forced position r cards s (code, r', cards') s' =
    ((forced ≡ false)
      × (0 < s.device.open_cnt)
      × (code ≡ device_still_open)
      × (r' ≡ r)
      × (cards' ≡ cards)
      × (s' ≡ s))
    ⊎ (((forced ≡ true) ⊎ (s.device.open_cnt ≡ 0))
        × (cards' ≡ without position cards)
        × Freed r r'
        × (code ≡ (if agrees s'.device clkoff_bit then no_error else function_failed))
        × ((i : ℕ) → i < s'.device.file_count → (file_at s'.device i).file ≡ none))

-- If a wake comes after the timeout, and the list of files of the device is in order whatever the wakes
-- did: a removal returns. A device that is open is refused unless the removal is forced, and then nothing
-- changes. Else the device is taken from the list, with an error if the firmware has not acknowledged
-- that the clock goes off, but in any case without the events of the interrupts and their lock, and with
-- the files that its file count then covers closed.
pub device_remove-Removed :
    (forced : Bool) (position : ℕ) (r : Resources) (cards : List Device) (s : System)
    → HasLate s.clock default_timeout s.wakes
    → ((n : ℕ)
        → (passes n s.wakes (toggle_bit clkoff_bit s.device)).file_count
          ≤ length (passes n s.wakes (toggle_bit clkoff_bit s.device)).files)
    → Run (device_remove forced position r cards) s (Removed forced position r cards s)
unfolding device_remove Run agrees delete_irq_events
device_remove-Removed forced position r cards s late ordered =
    Run-if (ltb 0 s.device.open_cnt && not forced) (pure (device_still_open, r, cards)) removal s
      (Removed forced position r cards s)
      (λ used. inl (ground (arith, used), ground (arith, used), refl, refl, refl, refl))
      (λ free.
        Run->>=
          (modify (toggle_bit clkoff_bit)
            >> wait_for_bit_state clkoff_bit bitstate_equal default_timeout)
          (λ ok. close_capture_files >> pure (after ok)) s
          (λ ok t.
            (agrees t.device clkoff_bit ≡ ok)
            × ((n : ℕ) × (t.device ≡ passes n s.wakes (toggle_bit clkoff_bit s.device))
                × (t.wakes ≡ drop n s.wakes)))
          (Removed forced position r cards s)
          (waited clkoff_bit default_timeout (record s { device = toggle_bit clkoff_bit s.device })
            late)
          (λ ok t (agree, (n, passed, rest)).
            Run->>= close_capture_files (λ u. pure (after ok)) t
              (λ u t'. Closed t.device.file_count 0 t t') (Removed forced position r cards s)
              (close_capture_files-Closed t (room t n passed))
              (λ u t' c. inr (
                unforced forced free,
                refl,
                (
                  refl,
                  ap (λ (es : List Bool). record { stop_event = false; bit_events = es })
                      (delete_events-none r.events.bit_events),
                ),
                ap (λ (b : Bool). if b then no_error else function_failed)
                    (sym (ap (λ (d : Device). agrees d clkoff_bit) c.only.same_rest ∙ agree)),
                λ i h. ground (
                  arith,
                  ap (λ (d : Device). d.file_count) c.only.same_rest,
                  c.closed i (
                      omega (
                        arith,
                        h,
                        ap (λ (d : Device). d.file_count) c.only.same_rest,
                        room t n passed,
                      )),
                ),
              ))))
  where
    room :
        (t : System) (n : ℕ)
        → t.device ≡ passes n s.wakes (toggle_bit clkoff_bit s.device)
        → t.device.file_count ≤ length t.device.files
    room t n passed = subst (λ (d : Device). d.file_count ≤ length d.files) (sym passed) (ordered n)

    unforced :
        (b : Bool)
        → (ltb 0 s.device.open_cnt && not b) ≡ false
        → (b ≡ true) ⊎ (s.device.open_cnt ≡ 0)
    unforced true e = inl refl
    unforced false e = inr (ground (arith, e))

    after : Bool → ℕ × Resources × List Device
    after ok = (
      if ok then no_error else function_failed,
      record { lock = false; events = delete_irq_events r.events },
      without position cards,
    )

    removal : M (ℕ × Resources × List Device)
    removal =
        modify (toggle_bit clkoff_bit)
        >> wait_for_bit_state clkoff_bit bitstate_equal default_timeout
        >>= λ ok. close_capture_files >> pure (after ok)
