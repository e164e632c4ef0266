-- ===== src/Session/Stopped.antt =====
-- The end of a capture: the wait for it ends, and the files are closed.
use nadrvlinux.Prelude.{
  ℕ, zero, suc, ◌≤◌, ◌<◌, Bool, true, false, Option, none, some, List, [], ◌∷◌, length, ltb,
  if◌then◌else◌, ◌≡◌, ◌≢◌, refl, sym, ap, subst, ◌∙◌, ◌⊎◌, inl, inr, arith,
}
use nadrvlinux.Device.{Device}
use nadrvlinux.System.{Wake, System, pure, ◌>>◌, modify}
use nadrvlinux.System.Run.{Returned, Run, Run->>=, Run-if, Run-weaken}
use nadrvlinux.Handshake.Passing.{passes}
use nadrvlinux.Capture.{file_at, write_header, data_size_of}
use nadrvlinux.Capture.Files.{Roomy, OnlyFiles, OnlyFiles-trans, Headed, write_header-Headed}
use nadrvlinux.Session.Files.{Closed, close_capture_files-Closed}
use nadrvlinux.Session.{await_stop, close_capture_files, release_capture, finish_capture}

-- The wait has let `waits` of the wakes pass, and ends with the event or after all the cycles.
pub record Awaited (cycles : ℕ) (ws : List Wake) (s t : System) : Type 0 where
  pub waits : ℕ
  pub passed : t.device ≡ passes waits ws s.device
  pub same_disk : t.accepts ≡ s.accepts
  pub ended : (t.device.stop_complete ≡ true) ⊎ (waits ≡ cycles)

abbrev after_wake : System → Wake → List Wake → System
after_wake s w ws = record s { device = w.act s.device; clock = w.clock; wakes = ws }

one_cycle :
    (cycles : ℕ) (s : System) (set : Bool) (ws : List Wake)
    → s.device.stop_complete ≡ set
    → suc cycles ≤ length ws
    → ((w : Wake) (rest : List Wake)
        → cycles ≤ length rest
        → Returned
            (λ u t. Awaited cycles rest (after_wake s w rest) t)
            (await_stop cycles (after_wake s w rest)))
    → Returned
        (λ u t. Awaited (suc cycles) ws s t)
        (elim set [
          | true ↦ some (tt, s)
          | false ↦ elim ws [ [] ↦ none | w ∷ rest ↦ await_stop cycles (after_wake s w rest) ]
        ])
unfolding passes
one_cycle cycles s true ws e h f = record {
  waits = 0;
  passed = refl;
  same_disk = refl;
  ended = inl e;
}
one_cycle cycles s false [] e h f = absurd (omega (arith, h))
one_cycle cycles s false (w ∷ rest) e h f =
    later (await_stop cycles (after_wake s w rest)) (f w rest (omega (arith, h)))
  where
    later :
        (o : Option (Unit {0} × System))
        → Returned (λ u t. Awaited cycles rest (after_wake s w rest) t) o
        → Returned (λ u t. Awaited (suc cycles) (w ∷ rest) s t) o
    later none a = a
    later (some (u, t)) a = record {
      waits = suc a.waits;
      passed = a.passed;
      same_disk = a.same_disk;
      ended = elim a.ended [ inl q ↦ inl q | inr q ↦ inr (ap suc q) ];
    }

await_stop-Awaited :
    (cycles : ℕ) (s : System)
    → cycles ≤ length s.wakes
    → Run (await_stop cycles) s (λ u t. Awaited cycles s.wakes s t)
unfolding Run await_stop passes
await_stop-Awaited zero s h = record {
  waits = 0;
  passed = refl;
  same_disk = refl;
  ended = inr refl;
}
await_stop-Awaited (suc cycles) s h =
    one_cycle cycles s s.device.stop_complete s.wakes refl h
      (λ w rest k. await_stop-Awaited cycles (after_wake s w rest) k)

-- The files of a device, when the capture on them ends.
abbrev pub Ordered : Device → Type 0
Ordered d = (d.file_count ≤ length d.files) × (d.file_count ≢ 0 → d.current_file < length d.files)

pub record Released (s s' : System) : Type 0 where
  pub no_status : s'.device.has_status ≡ false
  pub no_data : s'.device.has_data ≡ false
  pub no_files : s'.device.file_count ≡ 0
  pub all_closed : (i : ℕ) → i < s.device.file_count → (file_at s'.device i).file ≡ none

header_written :
    (s : System)
    → Roomy s
    → s.device.current_file < length s.device.files
    → Run
        (if s.device.write_to_file then write_header (data_size_of s.device) else pure tt)
        s
        (λ u t. OnlyFiles s t)
unfolding Run
header_written s roomy h =
    Run-if s.device.write_to_file (write_header (data_size_of s.device)) (pure tt) s
      (λ u t. OnlyFiles s t)
      (λ w.
        Run-weaken (write_header (data_size_of s.device)) s
          (λ u t. Headed (data_size_of s.device) s t) (λ u t. OnlyFiles s t)
          (write_header-Headed (data_size_of s.device) s roomy h) (λ u t q. q.0))
      (λ w. record { same_rest = refl; same_length = refl; same_accepts = refl; quiet = refl })

-- The files that are left after the header was written are closed.
files_closed :
    (s : System)
    → Roomy s
    → s.device.file_count ≤ length s.device.files
    → s.device.current_file < length s.device.files
    → Run
        ((if s.device.write_to_file then write_header (data_size_of s.device) else pure tt)
          >> close_capture_files)
        s
        (λ u t.
          OnlyFiles s t × ((i : ℕ) → i < s.device.file_count → (file_at t.device i).file ≡ none))
files_closed s roomy count current =
    Run->>= (if s.device.write_to_file then write_header (data_size_of s.device) else pure tt)
      (λ u. close_capture_files) s (λ u t. OnlyFiles s t)
      (λ u t.
        OnlyFiles s t × ((i : ℕ) → i < s.device.file_count → (file_at t.device i).file ≡ none))
      (header_written s roomy current)
      (λ u t only.
        let same = ap (λ (d : Device). d.file_count) only.same_rest in
        Run-weaken close_capture_files t (λ u v. Closed t.device.file_count 0 t v)
          (λ u v.
            OnlyFiles s v × ((i : ℕ) → i < s.device.file_count → (file_at v.device i).file ≡ none))
          (close_capture_files-Closed t (omega (arith, same, only.same_length, count)))
          (λ u v c. (
            OnlyFiles-trans s t v only c.only,
            λ i h. ground (arith, same, c.closed i (omega (arith, h, count, only.same_length))),
          )))

release_capture-Released :
    (s : System) → Roomy s → Ordered s.device → Run release_capture s (λ u s'. Released s s')
unfolding Run release_capture
release_capture-Released s roomy (count, current) =
    Run-if (ltb 0 s.device.file_count)
      ((if s.device.write_to_file then write_header (data_size_of s.device) else pure tt)
        >> close_capture_files
        >> modify (λ d. record d { file_count = 0 }))
      (pure tt) r (λ u s'. Released s s')
      (λ some_files.
        Run->>=
          ((if s.device.write_to_file then write_header (data_size_of s.device) else pure tt)
            >> close_capture_files)
          (λ u. modify (λ d. record d { file_count = 0 })) r
          (λ u t.
            OnlyFiles r t × ((i : ℕ) → i < r.device.file_count → (file_at t.device i).file ≡ none))
          (λ u s'. Released s s') (files_closed r roomy count (current (ground arith)))
          (λ u t (only, closed). record {
            no_status = ap (λ (d : Device). d.has_status) only.same_rest;
            no_data = ap (λ (d : Device). d.has_data) only.same_rest;
            no_files = refl;
            all_closed = closed;
          }))
      (λ no_files. record {
        no_status = refl;
        no_data = refl;
        no_files = ground arith;
        all_closed = λ i h. absurd (ground arith);
      })
  where
    r : System
    r = record s { device = record s.device { has_status = false; has_data = false } }

-- A capture that was stopped: when the event came or the cycles were over, the callbacks were taken
-- away and all files closed.
pub record Stopped (s s' : System) : Type 0 where
  pub at_end : System
  pub awaited : Awaited 50 s.wakes s at_end
  pub released : Released at_end s'

-- If at least 50 wakes come, each of which leaves the files of the device in order, and the disk takes
-- everything, the end of a capture returns: when the event for it has come or 50 wakes have passed, both
-- callbacks are taken away, all files that the device then has are closed, and none is in use.
pub finish_capture-Stopped :
    (s : System)
    → Roomy s
    → 50 ≤ length s.wakes
    → ((n : ℕ) → Ordered (passes n s.wakes s.device))
    → Run finish_capture s (λ u s'. Stopped s s')
unfolding finish_capture
finish_capture-Stopped s roomy wakes ordered =
    Run->>= (await_stop 50) (λ u. release_capture) s (λ u t. Awaited 50 s.wakes s t)
      (λ u s'. Stopped s s') (await_stop-Awaited 50 s wakes)
      (λ u t a.
        Run-weaken release_capture t (λ u s'. Released t s') (λ u s'. Stopped s s')
          (release_capture-Released t
            (λ n len. ap (λ (f : ℕ → ℕ → ℕ). f n len) a.same_disk ∙ roomy n len)
            (subst Ordered (sym a.passed) (ordered a.waits)))
          (λ u s' q. record { at_end = t; awaited = a; released = q }))
