-- ===== src/Capture/Bounds.antt =====
-- A capture in ring mode stays within its files.
use nadrvlinux.Prelude.{
  ℕ, ◌+◌, ◌^◌, ◌≤◌, ◌<◌, u32, u64, true, List, get_or, length, ltb, leb, if◌then◌else◌, ◌≡◌, refl,
  sym, ap, ◌∙◌, arith,
}
use nadrvlinux.Device.{Device, FileData}
use nadrvlinux.System.{System, ◌>>◌, modify}
use nadrvlinux.System.Run.{Run, Run->>=, Run-if, Run-weaken}
use nadrvlinux.Capture.{
  file_header_size, size_invalid, file_at, no_buffer, write_header, write_data, first_file,
  last_file, enter_file, wrap_file, store_buffer, data_size_of, next_file,
}
use nadrvlinux.Capture.Files.{
  Roomy, OnlyFiles, OnlyFiles-trans, Headed, Added, write_header-Headed, Added, write_data-Added,
}

-- The files of a capture: the current one is among those that were opened, every file has room for
-- its header and a buffer, and the current one has a header, the data counted, and no more than its
-- size.
pub record FilesWf (d : Device) : Type 0 where
  pub opened : d.file_count ≤ length d.files
  pub count_small : d.file_count ≤ 256
  pub current : d.current_file < d.file_count
  pub large :
      (b : ℕ)
      → b < d.dma_buffer_count
      → (get_or d.dma_buffers b no_buffer).buffer_size + file_header_size ≤ d.file_size
  pub size_small : d.file_size < 2 ^ 63
  pub counted :
      (file_at d d.current_file).offset ≡ file_header_size + (file_at d d.current_file).data_written
  pub bounded : (file_at d d.current_file).offset ≤ d.file_size

pub Roomy-OnlyFiles : (s s' : System) → Roomy s → OnlyFiles s s' → Roomy s'
Roomy-OnlyFiles s s' roomy only n len =
    ap (λ (f : ℕ → ℕ → ℕ). f n len) only.same_accepts ∙ roomy n len

-- Only the current file has to be looked at again.
FilesWf-OnlyFiles :
    (s s' : System)
    → FilesWf s.device
    → OnlyFiles s s'
    → s'.device.current_file < s.device.file_count
    → (file_at s'.device s'.device.current_file).offset
      ≡ file_header_size + (file_at s'.device s'.device.current_file).data_written
    → (file_at s'.device s'.device.current_file).offset ≤ s.device.file_size
    → FilesWf s'.device
FilesWf-OnlyFiles s s' w only current counted bounded = record {
  opened = omega (arith, w.opened, count, only.same_length);
  count_small = omega (arith, w.count_small, count);
  current = omega (arith, count);
  large = λ b h. grind (
    arith,
    w.large b (omega (arith, buffers)),
    size,
    ap (λ (d : Device). (get_or d.dma_buffers b no_buffer).buffer_size) only.same_rest,
  );
  size_small = omega (arith, w.size_small, size);
  counted = counted;
  bounded = omega (arith, size);
}
  where
    count : s'.device.file_count ≡ s.device.file_count
    count = ap (λ (d : Device). d.file_count) only.same_rest

    size : s'.device.file_size ≡ s.device.file_size
    size = ap (λ (d : Device). d.file_size) only.same_rest

    buffers : s'.device.dma_buffer_count ≡ s.device.dma_buffer_count
    buffers = ap (λ (d : Device). d.dma_buffer_count) only.same_rest

-- A buffer that opens a file.
Opened : ℕ → System → System → Type 0
Opened used s s' =
    OnlyFiles s s'
    × (s'.device.current_file ≡ s.device.current_file)
    × ((file_at s'.device s.device.current_file).offset ≡ file_header_size + used)
    × ((file_at s'.device s.device.current_file).data_written ≡ used)

fresh_file :
    (used : ℕ) (bytes : List ℕ) (s : System) (n : ℕ)
    → Roomy s
    → s.device.current_file < length s.device.files
    → n ≡ s.device.current_file
    → used < 2 ^ 63
    → Run (write_header size_invalid >> write_data n used bytes) s (λ u s'. Opened used s s')
unfolding Opened
fresh_file used bytes s n roomy h e small =
    Run->>= (write_header size_invalid) (λ u. write_data n used bytes) s
      (λ u t. Headed size_invalid s t) (λ u s'. Opened used s s')
      (write_header-Headed size_invalid s roomy h)
      (λ u t (only, same, offset, written).
        Run-weaken (write_data n used bytes) t _ (λ u s'. Opened used s s')
          (write_data-Added n used bytes t (omega (arith, only.same_length)))
          (λ v s' (only', same', at). (
            OnlyFiles-trans s t s' only only',
            same' ∙ same,
            grind (
              arith,
              ap (λ k. (file_at s'.device k).offset) e,
              ap (λ (f : FileData). f.offset) at,
              ap (λ k. (file_at t.device k).offset) e,
            ),
            grind (
              arith,
              ap (λ k. (file_at s'.device k).data_written) e,
              ap (λ (f : FileData). f.data_written) at,
              ap (λ k. (file_at t.device k).data_written) e,
            ),
          )))

-- The step that a `modify` of the file's number alone makes.
renumbered :
    (s : System) (n idx : ℕ)
    → OnlyFiles s (record s {
      device = record s.device {
        file_header = record s.device.file_header { idx = idx };
        current_file = n;
      };
    })
renumbered s n idx = record {
  same_rest = refl;
  same_length = refl;
  same_accepts = refl;
  quiet = refl;
}

Stored : System → System → Type 0
Stored s s' = OnlyFiles s s' × FilesWf s'.device

Opened-Stored :
    (used : ℕ) (s t s' : System)
    → FilesWf s.device
    → OnlyFiles s t
    → t.device.current_file < s.device.file_count
    → file_header_size + used ≤ s.device.file_size
    → Opened used t s'
    → Stored s s'
unfolding Opened Stored
Opened-Stored used s t s' w only current fits (only', same, offset, written) = (
  OnlyFiles-trans s t s' only only',
  FilesWf-OnlyFiles s s' w (OnlyFiles-trans s t s' only only') (omega (arith, same))
      (ap (λ n. (file_at s'.device n).offset) same
        ∙ offset
        ∙ ap (λ n. file_header_size + n)
            (sym written ∙ ap (λ n. (file_at s'.device n).data_written) (sym same)))
      (omega (arith, ap (λ n. (file_at s'.device n).offset) same, offset)),
)

-- The next file, or the first one after the last.
entered :
    (used : ℕ) (bytes : List ℕ) (s t : System)
    → Roomy s
    → FilesWf s.device
    → OnlyFiles s t
    → s.device.ring_buffer ≡ true
    → file_header_size + used ≤ s.device.file_size
    → Run (enter_file used bytes) t (λ u s'. Stored s s')
unfolding Run enter_file first_file
entered used bytes s t roomy w only ring fits =
    Run-if (leb t.device.file_count t.device.current_file)
      (if t.device.ring_buffer then first_file used bytes else last_file)
      (write_header size_invalid >> write_data t.device.current_file used bytes) t
      (λ u s'. Stored s s')
      (λ over.
        Run-if t.device.ring_buffer (first_file used bytes) last_file t (λ u s'. Stored s s')
          (λ yes.
            let t0 = record t { device = record t.device { current_file = 0 } } in
            Run-weaken (write_header size_invalid >> write_data 0 used bytes) t0
              (λ u s'. Opened used t0 s') (λ u s'. Stored s s')
              (fresh_file used bytes t0 0 (Roomy-OnlyFiles s t roomy only)
                (omega (arith, w.opened, w.current, only.same_length)) refl
                (omega (arith, w.size_small)))
              (λ u s' o.
                Opened-Stored used s t0 s' w
                  (OnlyFiles-trans s t t0 only (renumbered t 0 t.device.file_header.idx))
                  (omega (arith, w.current)) fits o))
          (λ no. absurd (ground (arith, ring_too))))
      (λ under.
        Run-weaken (write_header size_invalid >> write_data t.device.current_file used bytes) t
          (λ u s'. Opened used t s') (λ u s'. Stored s s')
          (fresh_file used bytes t t.device.current_file (Roomy-OnlyFiles s t roomy only)
            (ground (arith, w.opened, only.same_length, count)) refl (omega (arith, w.size_small)))
          (λ u s' o. Opened-Stored used s t s' w only (ground (arith, count)) fits o))
  where
    count : t.device.file_count ≡ s.device.file_count
    count = ap (λ (d : Device). d.file_count) only.same_rest

    ring_too : t.device.ring_buffer ≡ true
    ring_too = ap (λ (d : Device). d.ring_buffer) only.same_rest ∙ ring

wrapped :
    (used : ℕ) (bytes : List ℕ) (s : System)
    → Roomy s
    → FilesWf s.device
    → s.device.ring_buffer ≡ true
    → file_header_size + used ≤ s.device.file_size
    → Run (wrap_file used bytes) s (λ u s'. Stored s s')
unfolding Run wrap_file
wrapped used bytes s roomy w ring fits =
    Run->>= (write_header (data_size_of s.device)) (λ u. modify next_file >> enter_file used bytes)
      s (λ u t. Headed (data_size_of s.device) s t) (λ u s'. Stored s s')
      (write_header-Headed (data_size_of s.device) s roomy (omega (arith, w.opened, w.current)))
      (λ u t (only, same, offset, written).
        let t1 = record t { device = next_file t.device } in
        entered used bytes s t1 roomy w
          (OnlyFiles-trans s t t1 only
            (renumbered t (u32 (t.device.current_file + 1)) (u32 (t.device.file_header.idx + 1))))
          ring fits)

-- In ring mode, on a disk that takes all that it is given, a buffer that fits a file is stored without
-- a wait: the current file is again one of those opened, has a header and the data counted, and is
-- not larger than its size, and nothing but the files has changed.
pub store_buffer-FilesWf :
    (used : ℕ) (bytes : List ℕ) (s : System)
    → Roomy s
    → FilesWf s.device
    → s.device.ring_buffer ≡ true
    → file_header_size + used ≤ s.device.file_size
    → Run (store_buffer used bytes) s (λ u s'. OnlyFiles s s' × FilesWf s'.device)
unfolding Run Stored store_buffer
store_buffer-FilesWf used bytes s roomy w ring fits =
    Run-if (ltb s.device.file_size (u64 ((file_at s.device s.device.current_file).offset + used)))
      (wrap_file used bytes) (write_data s.device.current_file used bytes) s
      (λ u s'. OnlyFiles s s' × FilesWf s'.device) (λ over. wrapped used bytes s roomy w ring fits)
      (λ under.
        Run-weaken (write_data s.device.current_file used bytes) s
          (λ u s'. Added s.device.current_file used s s')
          (λ u s'. OnlyFiles s s' × FilesWf s'.device)
          (write_data-Added s.device.current_file used bytes s (omega (arith, w.opened, w.current)))
          (λ u s' (only, same, at). (
            only,
            FilesWf-OnlyFiles s s' w only (omega (arith, same, w.current))
                (ground (
                  arith,
                  w.counted,
                  w.bounded,
                  w.size_small,
                  ap (λ n. (file_at s'.device n).offset) same,
                  ap (λ n. (file_at s'.device n).data_written) same,
                  ap (λ (f : FileData). f.offset) at,
                  ap (λ (f : FileData). f.data_written) at,
                ))
                (ground (
                  arith,
                  w.bounded,
                  w.size_small,
                  ap (λ n. (file_at s'.device n).offset) same,
                  ap (λ (f : FileData). f.offset) at,
                )),
          )))
