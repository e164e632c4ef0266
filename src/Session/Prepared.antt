-- ===== src/Session/Prepared.antt =====
-- A capture that was prepared on a list of files can be processed.
use nadrvlinux.Prelude.{
  ℕ, ◌+◌, ◌^◌, ◌≤◌, ◌<◌, true, false, get_or, length, ltb, ◌==◌, if◌then◌else◌, ◌≡◌, sym, ap, ◌∙◌,
  inr, arith,
}
use nadrvlinux.Prelude.Bits.{is_set}
use nadrvlinux.Codes.{no_error, file_write_failed}
use nadrvlinux.Device.{Device}
use nadrvlinux.System.{System, pure, ◌>>◌, modify}
use nadrvlinux.System.Run.{Run, Run->>=, Run-if}
use nadrvlinux.Capture.{file_at, file_header_size, size_invalid, no_buffer, write_file_header}
use nadrvlinux.Capture.Files.{Roomy, OnlyFiles, Headed, rest_of, write_file_header-Headed}
use nadrvlinux.Capture.Bounds.{FilesWf}
use nadrvlinux.Capture.Deliver.{Ready}
use nadrvlinux.Session.{Globals, Start, mode_ringbuffer, fill_start, first_header, start_files}

-- What a list of files leaves for the start: its files, each with room for a header and a buffer.
pub record Listed (d : Device) : Type 0 where
  pub listed_files : d.file_count ≤ length d.files
  pub some_files : 0 < d.file_count
  pub files_small : d.file_count ≤ 256
  pub room :
      (b : ℕ)
      → b < d.dma_buffer_count
      → (get_or d.dma_buffers b no_buffer).buffer_size + file_header_size ≤ d.file_size
  pub listed_size : d.file_size < 2 ^ 63
  pub some_buffers : 0 < d.dma_buffer_count
  pub buffers_small : d.dma_buffer_count ≤ 32

-- A firmware that keeps to the sizes of its buffers.
abbrev pub Honest : Device → Type 0
Honest d =
    (b : ℕ)
    → b < d.dma_buffer_count
    → get_or d.status.used_buffer_size b 0 ≤ (get_or d.dma_buffers b no_buffer).buffer_size

-- What the start has made of the device, which ran in `d` before.
pub record Started (g : Globals) (q : Start) (d d' : Device) : Type 0 where
  pub first_file : d'.current_file ≡ 0
  pub header_alone : (file_at d' 0).offset ≡ file_header_size
  pub no_data : (file_at d' 0).data_written ≡ 0
  pub files_wf : FilesWf d'
  pub rest :
      rest_of d' ≡ rest_of (record (fill_start g q d) { write_to_file = true; current_buffer = 0 })

-- A list of up to 256 files, each with room for a header and every buffer, on a disk that takes all that it
-- is given: once the start of a capture has filled its block and prepared its files, there is no error,
-- the current file is the first one and holds a header alone, the files are in order, the first buffer is
-- the current one, and but for its files the device is what the fill has made of it, with files written.
-- If moreover the ring mode is asked for, and the firmware reports no more data than a buffer holds, the
-- device meets what the handling of new data asks for.
pub start_files-Ready :
    (g : Globals) (q : Start) (s : System)
    → Roomy s
    → Listed s.device
    → Run (modify (fill_start g q) >> start_files g q) s (λ code s'.
      (code ≡ no_error)
      × Started g q s.device s'.device
      × (Honest s.device → is_set q.capture_mode mode_ringbuffer ≡ true → Ready s'.device))
unfolding Run start_files fill_start
start_files-Ready g q s roomy l =
    Run->>=
      (if ltb 0 s.device.file_count
        then modify (λ d. record d {
          current_file = 0;
          write_to_file = true;
          file_header = first_header g q d.file_header;
        })
          >> write_file_header size_invalid
        else modify (λ d. record d { write_to_file = false }) >> pure no_error)
      (λ code.
        modify (λ d. record d { current_buffer = 0 })
        >> pure (if code == no_error then no_error else file_write_failed))
      s0 (λ code t. (code ≡ no_error) × Headed size_invalid s1 t)
      (λ code s'.
        (code ≡ no_error)
        × Started g q s.device s'.device
        × (Honest s.device → is_set q.capture_mode mode_ringbuffer ≡ true → Ready s'.device))
      (Run-if (ltb 0 s.device.file_count)
        (modify (λ d. record d {
          current_file = 0;
          write_to_file = true;
          file_header = first_header g q d.file_header;
        })
          >> write_file_header size_invalid)
        (modify (λ d. record d { write_to_file = false }) >> pure no_error) s0
        (λ code t. (code ≡ no_error) × Headed size_invalid s1 t)
        (λ some.
          write_file_header-Headed size_invalid s1 roomy
            (omega (arith, l.listed_files, l.some_files)))
        (λ none. absurd (ground (arith, l.some_files))))
      (λ code t (fine, (only, same, offset, written)). (
        ground arith,
        record {
          first_file = same;
          header_alone = offset;
          no_data = written;
          files_wf = in_order t only same offset written;
          rest = ap (λ (d : Device). record d { current_buffer = 0 }) only.same_rest;
        },
        ready t only same offset written,
      ))
  where
    s0 : System
    s0 = record s { device = fill_start g q s.device }

    s1 : System
    s1 = record s0 {
      device = record s0.device {
        current_file = 0;
        write_to_file = true;
        file_header = first_header g q s0.device.file_header;
      };
    }

    in_order :
        (t : System)
        → OnlyFiles s1 t
        → t.device.current_file ≡ 0
        → (file_at t.device 0).offset ≡ file_header_size
        → (file_at t.device 0).data_written ≡ 0
        → FilesWf (record t.device { current_buffer = 0 })
    in_order t only same offset written =
        let count : t.device.file_count ≡ s.device.file_count =
          ap (λ (d : Device). d.file_count) only.same_rest in
        let size : t.device.file_size ≡ s.device.file_size =
          ap (λ (d : Device). d.file_size) only.same_rest in
        let buffers : t.device.dma_buffer_count ≡ s.device.dma_buffer_count =
          ap (λ (d : Device). d.dma_buffer_count) only.same_rest in
        record {
          opened = omega (arith, count, only.same_length, l.listed_files);
          count_small = omega (arith, count, l.files_small);
          current = omega (arith, count, same, l.some_files);
          large = λ b h. grind (
            arith,
            l.room b (omega (arith, buffers)),
            size,
            ap (λ (d : Device). (get_or d.dma_buffers b no_buffer).buffer_size) only.same_rest,
          );
          size_small = omega (arith, size, l.listed_size);
          counted =
              ap (λ n. (file_at t.device n).offset) same
              ∙ offset
              ∙ ap (λ n. file_header_size + n)
                  (sym (ap (λ n. (file_at t.device n).data_written) same ∙ written));
          bounded = grind (
            arith,
            ap (λ n. (file_at t.device n).offset) same,
            offset,
            size,
            l.room 0 l.some_buffers,
          );
        }

    ready :
        (t : System)
        → OnlyFiles s1 t
        → t.device.current_file ≡ 0
        → (file_at t.device 0).offset ≡ file_header_size
        → (file_at t.device 0).data_written ≡ 0
        → Honest s.device
        → is_set q.capture_mode mode_ringbuffer ≡ true
        → Ready (record t.device { current_buffer = 0 })
    ready t only same offset written honest ring =
        let buffers : t.device.dma_buffer_count ≡ s.device.dma_buffer_count =
          ap (λ (d : Device). d.dma_buffer_count) only.same_rest in
        record {
          count_small = omega (arith, buffers, l.buffers_small);
          current = omega (arith, buffers, l.some_buffers);
          good_sizes = λ b h. grind (
            arith,
            honest b (omega (arith, buffers)),
            ap (λ (d : Device). get_or d.status.used_buffer_size b 0) only.same_rest,
            ap (λ (d : Device). (get_or d.dma_buffers b no_buffer).buffer_size) only.same_rest,
          );
          files = inr (
            in_order t only same offset written,
            ap (λ (d : Device). d.ring_buffer) only.same_rest ∙ ring,
          );
        }
