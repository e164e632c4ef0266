-- ===== src/Capture/Deliver.antt =====
-- One round of the loop over the buffers: the buffer is passed on, and given back.
use mathlib.Core.List.{append-nil}
use nadrvlinux.Prelude.{
  ℕ, ◌+◌, ◌^◌, ◌≤◌, ◌<◌, u32, bit_xor, true, false, List, [], ◌∷◌, ◌++◌, get_or, take, ltb, leb,
  if◌then◌else◌, ◌≡◌, refl, sym, ap, ap₂, subst, ◌∙◌, ◌⊎◌, inl, inr, arith,
}
use nadrvlinux.Device.{Device}
use nadrvlinux.System.{System, M, data_callback, pure, ◌>>=◌, ◌>>◌, the_device, modify, effect}
use nadrvlinux.System.Run.{Run, Run->>=, Run-if, Run-weaken}
use nadrvlinux.Capture.{no_buffer, store_buffer, deliver_buffer, release_buffer, process_buffer}
use nadrvlinux.Capture.Files.{Roomy, OnlyFiles, rest_of, callbacks, callbacks-append}
use nadrvlinux.Capture.Bounds.{FilesWf, store_buffer-FilesWf}

-- The data of a buffer that the firmware has filled.
abbrev pub payload : Device → ℕ → List ℕ
payload d b = take (get_or d.status.used_buffer_size b 0) (get_or d.dma_buffers b no_buffer).bytes

-- Files are not written, or their ring is in order.
abbrev pub FilesReady : Device → Type 0
FilesReady d = (d.write_to_file ≡ false) ⊎ (FilesWf d × (d.ring_buffer ≡ true))

-- A device whose firmware reports no more data than a buffer has room for.
pub record Ready (d : Device) : Type 0 where
  pub count_small : d.dma_buffer_count ≤ 32
  pub current : d.current_buffer < d.dma_buffer_count
  pub good_sizes :
      (b : ℕ)
      → b < d.dma_buffer_count
      → get_or d.status.used_buffer_size b 0 ≤ (get_or d.dma_buffers b no_buffer).buffer_size
  pub files : FilesReady d

-- What neither a file nor the release of a buffer touches.
abbrev pub core_of : Device → Device
core_of d = rest_of (record d { current_buffer = 0; host = record d.host { buffer_flags = 0 } })

abbrev pub next_buffer : ℕ → ℕ → ℕ
next_buffer count b = if leb count (u32 (b + 1)) then 0 else u32 (b + 1)

-- A buffer passed to the files.
Kept : System → System → Type 0
Kept s t = OnlyFiles s t × FilesReady t.device

kept :
    (s : System)
    → Roomy s
    → Ready s.device
    → let used = get_or s.device.status.used_buffer_size s.device.current_buffer 0 in
      Run
        (if s.device.write_to_file
          then store_buffer used (payload s.device s.device.current_buffer)
          else pure tt)
        s
        (λ u t. Kept s t)
unfolding Run Kept
kept s roomy r =
    let used = get_or s.device.status.used_buffer_size s.device.current_buffer 0 in
    Run-if s.device.write_to_file (store_buffer used (payload s.device s.device.current_buffer))
      (pure tt) s (λ u t. Kept s t) (λ on. to_files on r.files)
      (λ off. (
        record { same_rest = refl; same_length = refl; same_accepts = refl; quiet = refl },
        r.files,
      ))
  where
    to_files :
        s.device.write_to_file ≡ true
        → FilesReady s.device
        → Run
            (store_buffer
              (get_or s.device.status.used_buffer_size s.device.current_buffer 0)
              (payload s.device s.device.current_buffer))
            s
            (λ u t. Kept s t)
    to_files on (inl off) = absurd (ground arith)
    to_files on (inr (w, ring)) =
        let used = get_or s.device.status.used_buffer_size s.device.current_buffer 0 in
        Run-weaken (store_buffer used (payload s.device s.device.current_buffer)) s
          (λ u t. OnlyFiles s t × FilesWf t.device) (λ u t. Kept s t)
          (store_buffer-FilesWf used (payload s.device s.device.current_buffer) s roomy w ring (
            omega (
              arith,
              r.good_sizes s.device.current_buffer r.current,
              w.large s.device.current_buffer r.current,
            )))
          (λ u t (only, w').
            (only, inr (w', ap (λ (d : Device). d.ring_buffer) only.same_rest ∙ ring)))

-- A round.
pub record Processed (s s' : System) : Type 0 where
  pub same_core : core_of s'.device ≡ core_of s.device
  pub flags :
      s'.device.host.buffer_flags ≡ bit_xor s.device.host.buffer_flags (2 ^ s.device.current_buffer)
  pub next :
      s'.device.current_buffer ≡ next_buffer s.device.dma_buffer_count s.device.current_buffer
  pub given :
      callbacks s'.trace
      ≡ callbacks s.trace
        ++ (if s.device.has_data then payload s.device s.device.current_buffer ∷ [] else [])
  pub files_after : FilesReady s'.device
  pub accepts_after : s'.accepts ≡ s.accepts

-- The user's callback.
Told : List ℕ → System → System → Type 0
Told bytes t t1 =
    (t1.device ≡ t.device)
    × (t1.accepts ≡ t.accepts)
    × (callbacks t1.trace ≡ callbacks t.trace ++ (if t.device.has_data then bytes ∷ [] else []))

told :
    (t : System) (bytes : List ℕ)
    → Run
        (if t.device.has_data then effect (data_callback bytes) else pure tt)
        t
        (λ u t1. Told bytes t t1)
unfolding Run Told
told t bytes =
    Run-if t.device.has_data (effect (data_callback bytes)) (pure tt) t (λ u t1. Told bytes t t1)
      (λ asked. rw asked (refl, refl, callbacks-append t.trace (data_callback bytes ∷ [])))
      (λ silent. rw silent (refl, refl, sym (append-nil (callbacks t.trace))))

release_buffer-FilesReady :
    (mask : ℕ) (d : Device) → FilesReady d → FilesReady (release_buffer mask d)
unfolding release_buffer
release_buffer-FilesReady mask d (inl off) = inl off
release_buffer-FilesReady mask d (inr (w, ring)) = inr (
  record {
    opened = w.opened;
    count_small = w.count_small;
    current = w.current;
    large = w.large;
    size_small = w.size_small;
    counted = w.counted;
    bounded = w.bounded;
  },
  ring,
)

released :
    (s t t1 : System)
    → Kept s t
    → Told (payload s.device s.device.current_buffer) t t1
    → Run (modify (release_buffer (2 ^ s.device.current_buffer))) t1 (λ u s'. Processed s s')
unfolding Run Kept Told release_buffer
released s t t1 (only, files) (same, accepts, given) = record {
  same_core = ap core_of same ∙ ap core_of only.same_rest;
  flags =
      ap (λ (d : Device). bit_xor d.host.buffer_flags (2 ^ s.device.current_buffer)) same
      ∙ ap (λ (d : Device). bit_xor d.host.buffer_flags (2 ^ s.device.current_buffer))
          only.same_rest;
  next =
      ap (λ (d : Device). next_buffer d.dma_buffer_count d.current_buffer) same
      ∙ ap (λ (d : Device). next_buffer d.dma_buffer_count d.current_buffer) only.same_rest;
  given =
      given
      ∙ ap₂ ◌++◌ only.quiet (
          ap
            (λ (d : Device).
              if d.has_data then payload s.device s.device.current_buffer ∷ [] else [])
            only.same_rest);
  files_after =
      release_buffer-FilesReady (2 ^ s.device.current_buffer) t1.device
        (subst FilesReady (sym same) files);
  accepts_after = accepts ∙ only.same_accepts;
}

delivered :
    (s : System)
    → Roomy s
    → Ready s.device
    → let b = s.device.current_buffer in
      let used = get_or s.device.status.used_buffer_size b 0 in
      Run
        (deliver_buffer used (payload s.device b) >> modify (release_buffer (2 ^ b)))
        s
        (λ u s'. Processed s s')
unfolding Run deliver_buffer
delivered s roomy r =
    let bytes = payload s.device s.device.current_buffer in
    let used = get_or s.device.status.used_buffer_size s.device.current_buffer 0 in
    let told_after : M (Unit {0}) =
      the_device >>= λ d. if d.has_data then effect (data_callback bytes) else pure tt in
    Run->>= (deliver_buffer used bytes) (λ u. modify (release_buffer (2 ^ s.device.current_buffer)))
      s (λ u t1. (t : System) × Kept s t × Told bytes t t1) (λ u s'. Processed s s')
      (Run->>= (if s.device.write_to_file then store_buffer used bytes else pure tt)
        (λ u. told_after) s (λ u t. Kept s t) (λ u t1. (t : System) × Kept s t × Told bytes t t1)
        (kept s roomy r)
        (λ u t k.
          Run-weaken (if t.device.has_data then effect (data_callback bytes) else pure tt) t
            (λ u t1. Told bytes t t1) (λ u t1. (t : System) × Kept s t × Told bytes t t1)
            (told t bytes) (λ u t1 h. (t, k, h))))
      (λ u t1 (t, k, h). released s t t1 k h)

-- A round of the loop returns on a device that is ready: it passes the data of the current buffer to
-- the user, if there is a callback, marks this buffer and no other, and goes on to the next one; the
-- files stay in order, and nothing else changes.
pub process_buffer-Processed :
    (s : System) → Roomy s → Ready s.device → Run process_buffer s (λ u s'. Processed s s')
unfolding Run process_buffer
process_buffer-Processed s roomy r =
    let b = s.device.current_buffer in
    let used = get_or s.device.status.used_buffer_size b 0 in rw good (delivered s roomy r)
  where
    good :
        ltb
          (get_or s.device.dma_buffers s.device.current_buffer no_buffer).buffer_size
          (get_or s.device.status.used_buffer_size s.device.current_buffer 0)
        ≡ false
    good = ground (arith, r.good_sizes s.device.current_buffer r.current)
