-- ===== src/Capture/Tests.antt =====
-- Two filled buffers on a device at rest, and a ring of two files of 36 bytes.
use nadrvlinux.Prelude.{ℕ, zero, suc, ◌+◌, ◌≤◌, ◌<◌, true, some, [], ◌∷◌, refl, inr, get_or, arith}
use nadrvlinux.Device.{Device}
use nadrvlinux.System.{System}
use nadrvlinux.System.Run.{Run}
use nadrvlinux.Sample.{sample_device, sample_system}
use nadrvlinux.Handshake.{toggle_bit, newdata_bit}
use nadrvlinux.Capture.{store_buffer, process_buffer, process_data, no_buffer}
use nadrvlinux.Capture.Files.{OnlyFiles}
use nadrvlinux.Capture.Bounds.{FilesWf, store_buffer-FilesWf}
use nadrvlinux.Capture.Deliver.{Ready, Processed, process_buffer-Processed}
use nadrvlinux.Capture.Drain.{Drained, process_data-Drained}

abbrev capturing : Device
capturing = record sample_device {
  netx_flags = 1;
  has_data = true;
  write_to_file = true;
  ring_buffer = true;
  file_count = 2;
  file_size = 36;
  files =
      record { file = some 10; offset = 36; data_written = 4 }
      ∷ record { file = some 11; offset = 0; data_written = 0 }
      ∷ [];
  status = record {
    buffer_flags = 3;
    capture_state = 2;
    capture_error = 0;
    used_buffer_size = 3 ∷ 4 ∷ [];
  };
}

abbrev captured : System
captured = record sample_system { device = capturing }

capturing-FilesWf : FilesWf capturing
capturing-FilesWf = record {
  opened = omega arith;
  count_small = omega arith;
  current = omega arith;
  large = large;
  size_small = omega arith;
  counted = refl;
  bounded = omega arith;
}
  where
    large : (b : ℕ) → b < 2 → (get_or capturing.dma_buffers b no_buffer).buffer_size + 32 ≤ 36
    large zero h = omega arith
    large (suc zero) h = omega arith
    large (suc (suc b)) h = absurd (omega arith)

capturing-Ready : Ready capturing
capturing-Ready = record {
  count_small = omega arith;
  current = omega arith;
  good_sizes = good;
  files = inr (capturing-FilesWf, refl);
}
  where
    good :
        (b : ℕ)
        → b < 2
        → get_or capturing.status.used_buffer_size b 0
          ≤ (get_or capturing.dma_buffers b no_buffer).buffer_size
    good zero h = omega arith
    good (suc zero) h = omega arith
    good (suc (suc b)) h = absurd (omega arith)

store_buffer-FilesWf_example :
    Run
      (store_buffer 3 (1 ∷ 2 ∷ 3 ∷ []))
      captured
      (λ u s'. OnlyFiles captured s' × FilesWf s'.device)
store_buffer-FilesWf_example =
    store_buffer-FilesWf 3 (1 ∷ 2 ∷ 3 ∷ []) captured (λ n len. refl) capturing-FilesWf refl
      (omega arith)

process_buffer-Processed_example : Run process_buffer captured (λ u s'. Processed captured s')
process_buffer-Processed_example = process_buffer-Processed captured (λ n len. refl) capturing-Ready

process_data-Drained_example :
    Run process_data captured (λ u s'.
      (n : ℕ) × Drained (record captured { device = toggle_bit newdata_bit capturing }) s' n)
process_data-Drained_example = process_data-Drained captured (λ n len. refl) capturing-Ready
