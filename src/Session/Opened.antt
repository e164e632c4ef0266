-- ===== src/Session/Opened.antt =====
-- Which files are open after a call of netana_set_filelist.
use nadrvlinux.Prelude.{
  ℕ, zero, suc, ◌+◌, ◌≤◌, ◌<◌, Bool, true, false, not, ◌&&◌, Option, none, some, List, set, take,
  length, ltb, leb, ◌==◌, ==_iff, if◌then◌else◌, ◌≡◌, ◌≢◌, refl, ap, subst, ◌∙◌, ◌⊎◌, inl, inr,
  Bool-cases, Option-cases, arith,
}
use nadrvlinux.Codes.{no_error, invalid_parameter, file_creation_failed, capture_active}
use nadrvlinux.Device.{Device, FileData, is_capture_running}
use nadrvlinux.System.{System, M, pure, ◌>>=◌, ◌>>◌, the_device, modify}
use nadrvlinux.System.Run.{Run, Run->>=, Run-if, Run-weaken}
use nadrvlinux.Capture.{file_at, file_header_size}
use nadrvlinux.Capture.Files.{OnlyFiles, OnlyFiles-trans}
use nadrvlinux.Session.{
  Globals, close_capture_files, open_files, open_capture_files, take_filelist, set_filelist,
  file_name, file_name_size, max_files,
}
use nadrvlinux.Session.Files.{Closed, close_capture_files-Closed}
use nadrvlinux.Session.Opening.{wrote, failed_here, opened_here, Opening, New}

-- The files of a list that was taken.
pub record Taken (count size : ℕ) (d : Device) : Type 0 where
  pub count_taken : d.file_count ≡ count
  pub size_taken : d.file_size ≡ size
  pub first_current : d.current_file ≡ 0
  pub all_new : (i : ℕ) → i < count → New (file_at d i)

-- No file is used.
pub record Dropped (count : ℕ) (d : Device) : Type 0 where
  pub none_counted : d.file_count ≡ 0
  pub all_closed : (i : ℕ) → i < count → (file_at d i).file ≡ none

unfoldable pub acceptable : Globals → Device → (count size : ℕ) → Bool
acceptable g d count size =
    not (is_capture_running d)
    && leb count max_files
    && leb (g.dma_buffer_size + file_header_size) size

module _ (separator : List ℕ) (open_file : List ℕ → Option ℕ) where
  open_files-Opening :
      (left n : ℕ) (s : System)
      → n + left ≤ length s.device.files
      → Run (open_files separator open_file left n) s (λ code s'. Opening left n s s' code)
  unfolding Run open_files
  open_files-Opening zero n s h = record {
    only = record { same_rest = refl; same_length = refl; same_accepts = refl; quiet = refl };
    same = refl;
    codes = inl refl;
    opened = λ e i k lo hi. absurd (omega arith);
    others = λ i k o. refl;
  }
  open_files-Opening (suc left) n s h =
      elim (Bool-cases (ltb file_name_size (length (file_name separator s.device n)))) [
        | inl long ↦ rw long (record {
          only = record { same_rest = refl; same_length = refl; same_accepts = refl; quiet = refl };
          same = refl;
          codes = inr refl;
          opened = λ e i k lo hi. absurd (omega (arith, e));
          others = λ i k o. refl;
        })
        | inr fits ↦ elim (Option-cases (open_file (file_name separator s.device n))) [
          | inl e ↦
              rw (fits, e)
                (failed_here left n _ s _
                  (wrote n (record (file_at s.device n) { file = none }) s (omega arith)))
          | inr (f, e) ↦
              rw (fits, e)
                (let v : FileData = record { file = some f; offset = 0; data_written = 0 } in
                  let t = record s {
                    device = record s.device { files = set s.device.files n v };
                  } in
                  let w = wrote n v s (omega arith) in
                  Run-weaken (open_files separator open_file left (n + 1)) t
                    (λ code s'. Opening left (n + 1) t s' code)
                    (λ code s'. Opening (suc left) n s s' code)
                    (open_files-Opening left (n + 1) t (omega (arith, w.only.same_length)))
                    (λ code s' o. opened_here left n f s t s' code (omega arith) w o))
        ]
      ]

  open_capture_files-Opening :
      (s : System)
      → s.device.file_count ≤ length s.device.files
      → Run (open_capture_files separator open_file) s (λ code s'.
        (s'.device.current_file ≡ 0)
        × ((t : System) × OnlyFiles s t
            × (t.device.current_file ≡ 0)
            × Opening s.device.file_count 0 t s' code))
  unfolding Run open_capture_files
  open_capture_files-Opening s h =
      Run->>= close_capture_files
        (λ u.
          modify (λ d. record d { current_file = 0 })
          >> (the_device >>= λ d. open_files separator open_file d.file_count 0))
        s (λ u t. Closed s.device.file_count 0 s t)
        (λ code s'.
          (s'.device.current_file ≡ 0)
          × ((t : System) × OnlyFiles s t
              × (t.device.current_file ≡ 0)
              × Opening s.device.file_count 0 t s' code))
        (close_capture_files-Closed s h)
        (λ u t c.
          let t0 = record t { device = record t.device { current_file = 0 } } in
          let same_count : t.device.file_count ≡ s.device.file_count =
            ap (λ (d : Device). d.file_count) c.only.same_rest in
          Run-weaken (open_files separator open_file t.device.file_count 0) t0
            (λ code s'. Opening t.device.file_count 0 t0 s' code)
            (λ code s'.
              (s'.device.current_file ≡ 0)
              × ((t : System) × OnlyFiles s t
                  × (t.device.current_file ≡ 0)
                  × Opening s.device.file_count 0 t s' code))
            (open_files-Opening t.device.file_count 0 t0
              (omega (arith, c.only.same_length, same_count)))
            (λ code s' o. (
              o.same,
              (
                t0,
                OnlyFiles-trans s t t0 c.only (record {
                  same_rest = refl;
                  same_length = refl;
                  same_accepts = refl;
                  quiet = refl;
                }),
                refl,
                subst (λ n. Opening n 0 t0 s' code) same_count o,
              ),
            )))

  abbrev TakeResult : (count size : ℕ) → ℕ → System → Type 0
  TakeResult count size code s' =
      ((code ≡ no_error) × Taken count size s'.device)
      ⊎ ((code ≡ file_creation_failed) × Dropped count s'.device)

  dropped :
      (code count size : ℕ) (t : System)
      → (code ≡ no_error) ⊎ (code ≡ file_creation_failed)
      → (code == no_error) ≡ false
      → t.device.file_count ≡ count
      → count ≤ length t.device.files
      → Run
          (close_capture_files >> (modify (λ d. record d { file_count = 0 }) >> pure code))
          t
          (TakeResult count size)
  unfolding Run
  dropped code count size t codes failed e h =
      Run->>= close_capture_files (λ u. modify (λ d. record d { file_count = 0 }) >> pure code) t
        (λ u t1. Closed t.device.file_count 0 t t1) (TakeResult count size)
        (close_capture_files-Closed t (omega (arith, e)))
        (λ u t1 c. inr (
          ground arith,
          record {
            none_counted = refl;
            all_closed =
                λ i k. ap (λ (f : FileData). f.file) (c.closed i (omega arith)) ∙ ground (arith, e);
          },
        ))

  taken :
      (path base : List ℕ) (count size : ℕ) (s : System)
      → count ≤ length s.device.files
      → Run (take_filelist separator open_file path base count size) s (TakeResult count size)
  unfolding Run take_filelist
  taken path base count size s h =
      let s0 = record s {
        device = record s.device {
          path = take 256 path;
          base_filename = take 256 base;
          file_count = count;
          file_size = size;
        };
      } in
      Run->>= (open_capture_files separator open_file)
        (λ code.
          if code == no_error
          then pure no_error
          else close_capture_files >> (modify (λ d. record d { file_count = 0 }) >> pure code))
        s0
        (λ code t'.
          (t'.device.current_file ≡ 0)
          × ((t : System) × OnlyFiles s0 t
              × (t.device.current_file ≡ 0)
              × Opening count 0 t t' code))
        (TakeResult count size) (open_capture_files-Opening s0 h)
        (λ code t' (first, (t, only, zero_first, o)).
          Run-if (code == no_error) (pure no_error)
            (close_capture_files >> (modify (λ d. record d { file_count = 0 }) >> pure code)) t'
            (TakeResult count size)
            (λ fine. inl (
              refl,
              record {
                count_taken = ap (λ (d : Device). d.file_count) (o.only.same_rest ∙ only.same_rest);
                size_taken = ap (λ (d : Device). d.file_size) (o.only.same_rest ∙ only.same_rest);
                first_current = first;
                all_new = λ i k.
                    o.opened ((==_iff code no_error).0 fine) i (omega (arith, only.same_length))
                      (omega arith) (omega arith);
              },
            ))
            (λ failed.
              dropped code count size t' (o.codes) failed
                (ap (λ (d : Device). d.file_count) (o.only.same_rest ∙ only.same_rest))
                (omega (arith, only.same_length, o.only.same_length))))

  -- A list of files is refused, and nothing changes, while a capture runs, above 256 files, or for
  -- files smaller than a DMA buffer and a header. Else the call returns either without error and with
  -- all files open at their start and the first one current, or with the error of a file that cannot
  -- be created and with no file in use and all those of the list closed.
  pub set_filelist-Taken :
      (g : Globals) (path base : List ℕ) (count size : ℕ) (s : System)
      → length s.device.files ≡ max_files
      → Run (set_filelist separator open_file g path base count size) s (λ code s'.
        (acceptable g s.device count size ≡ false → (code ≢ no_error) × (s' ≡ s))
        × (acceptable g s.device count size ≡ true
            → ((code ≡ no_error) × Taken count size s'.device)
              ⊎ ((code ≡ file_creation_failed) × Dropped count s'.device)))
  unfolding Run set_filelist acceptable
  set_filelist-Taken g path base count size s h =
      Run-if (is_capture_running s.device) (pure capture_active)
        (if ltb max_files count
          then pure invalid_parameter
          else if small
          then pure invalid_parameter
          else body)
        s Result (λ on. refused capture_active (λ e. omega (arith, e)) (ground arith))
        (λ off.
          Run-if (ltb max_files count) (pure invalid_parameter)
            (if small then pure invalid_parameter else body) s Result
            (λ many. refused invalid_parameter (λ e. omega (arith, e)) (ground arith))
            (λ few.
              Run-if small (pure invalid_parameter) body s Result
                (λ tight. refused invalid_parameter (λ e. omega (arith, e)) (ground arith))
                (λ large.
                  Run-weaken body s (TakeResult count size) Result
                    (taken path base count size s (ground arith))
                    (λ code s' t. (λ bad. absurd (ground arith), λ good. t)))))
    where
      small : Bool
      small = ltb size (g.dma_buffer_size + file_header_size)

      body : M ℕ
      body = take_filelist separator open_file path base count size

      Result : ℕ → System → Type 0
      Result code s' =
          (acceptable g s.device count size ≡ false → (code ≢ no_error) × (s' ≡ s))
          × (acceptable g s.device count size ≡ true → TakeResult count size code s')

      refused :
          (code : ℕ) → code ≢ no_error → acceptable g s.device count size ≡ false → Result code s
      refused code ne e = (λ bad. (ne, refl), λ good. absurd (ground arith))
