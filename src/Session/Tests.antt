-- ===== src/Session/Tests.antt =====
-- A list of two files on a device at rest, and a start on it.
use nadrvlinux.Prelude.{
  ℕ, zero, suc, ◌+◌, ◌≤◌, ◌<◌, true, false, Option, some, List, [], ◌∷◌, get_or, replicate, ◌≡◌,
  ◌≢◌, refl, ◌⊎◌, arith,
}
use nadrvlinux.Codes.{no_error, file_creation_failed}
use nadrvlinux.Device.{Device}
use nadrvlinux.System.{Wake, System, ◌>>◌, modify}
use nadrvlinux.System.Run.{Run, Run-weaken}
use nadrvlinux.Prelude.Bits.{is_set}
use nadrvlinux.Sample.{sample_device, sample_system}
use nadrvlinux.Capture.{no_file, no_buffer}
use nadrvlinux.Capture.Deliver.{Ready}
use nadrvlinux.Text.{numeral}
use nadrvlinux.Session.{
  Globals, Start, mode_ringbuffer, file_name, set_filelist, start_files, fill_start, finish_capture,
}
use nadrvlinux.Handshake.Passing.{passes}
use nadrvlinux.Session.Stopped.{Ordered, Stopped, finish_capture-Stopped}
use nadrvlinux.Session.Opened.{Taken, Dropped, acceptable, set_filelist-Taken}
use nadrvlinux.Session.Prepared.{Listed, Honest, Started, start_files-Ready}

abbrev globals : Globals
globals = record { dma_buffer_size = 4; dma_buffer_timeout = 10; timezone_correction = 0 }

abbrev whole_system : System
whole_system = record sample_system {
  device = record sample_device { files = replicate 256 no_file };
}

abbrev opens : List ℕ → Option ℕ
opens name = some 1

-- "a/b_12.hea"
name_test :
    file_name (0x2f ∷ []) (record sample_device { path = 0x61 ∷ []; base_filename = 0x62 ∷ [] }) 12
    ≡ 0x61 ∷ 0x2f ∷ 0x62 ∷ 0x5f ∷ 0x31 ∷ 0x32 ∷ 0x2e ∷ 0x68 ∷ 0x65 ∷ 0x61 ∷ []
unfolding file_name numeral
name_test = refl

set_filelist-Taken_example :
    Run
      (set_filelist (0x2f ∷ []) opens globals (0x61 ∷ []) (0x62 ∷ []) 2 100)
      whole_system
      (λ code s'.
        (acceptable globals whole_system.device 2 100 ≡ false
          → (code ≢ no_error) × (s' ≡ whole_system))
        × (acceptable globals whole_system.device 2 100 ≡ true
            → ((code ≡ no_error) × Taken 2 100 s'.device)
              ⊎ ((code ≡ file_creation_failed) × Dropped 2 s'.device)))
set_filelist-Taken_example =
    set_filelist-Taken (0x2f ∷ []) opens globals (0x61 ∷ []) (0x62 ∷ []) 2 100 whole_system refl

abbrev listed_device : Device
listed_device = record sample_device {
  file_count = 2;
  file_size = 100;
  files =
      record { file = some 1; offset = 0; data_written = 0 }
      ∷ record { file = some 1; offset = 0; data_written = 0 }
      ∷ [];
}

listed_device-Listed : Listed listed_device
listed_device-Listed = record {
  listed_files = omega arith;
  some_files = omega arith;
  files_small = omega arith;
  room = room;
  listed_size = omega arith;
  some_buffers = omega arith;
  buffers_small = omega arith;
}
  where
    room : (b : ℕ) → b < 2 → (get_or listed_device.dma_buffers b no_buffer).buffer_size + 32 ≤ 100
    room zero h = omega arith
    room (suc zero) h = omega arith
    room (suc (suc b)) h = absurd (omega arith)

listed_device-Honest : Honest listed_device
listed_device-Honest b h = omega arith

abbrev ring_start : Start
ring_start = record {
  capture_mode = 0x8000_0000;
  port_enable_mask = 3;
  mac_mode = 0;
  reference_time = 5;
  status_given = false;
  data_given = true;
}

start_files-Ready_example :
    Run
      (modify (fill_start globals ring_start) >> start_files globals ring_start)
      (record sample_system { device = listed_device })
      (λ code s'.
        (code ≡ no_error)
        × Started globals ring_start listed_device s'.device
        × (Honest listed_device
            → is_set ring_start.capture_mode mode_ringbuffer ≡ true
            → Ready s'.device))
start_files-Ready_example =
    start_files-Ready globals ring_start (record sample_system { device = listed_device })
      (λ n len. refl) listed_device-Listed

start_files_test :
    Run
      (modify (fill_start globals ring_start) >> start_files globals ring_start)
      (record sample_system { device = listed_device })
      (λ code s'. Ready s'.device)
start_files_test =
    let start = modify (fill_start globals ring_start) >> start_files globals ring_start in
    let s = record sample_system { device = listed_device } in
    Run-weaken start s _ (λ code s'. Ready s'.device)
      (start_files-Ready globals ring_start s (λ n len. refl) listed_device-Listed)
      (λ code s' (fine, started, ready). ready listed_device-Honest refl)

-- The thread of the interrupt sets the event.
abbrev stop_event : Wake
stop_event = record { clock = 7; act = λ d. record d { stop_complete = true } }

stop_event-Ordered :
    (m n : ℕ) (d : Device) → Ordered d → Ordered (passes n (replicate m stop_event) d)
unfolding passes
stop_event-Ordered m zero d h = h
stop_event-Ordered zero (suc n) d h = h
stop_event-Ordered (suc m) (suc n) d h =
    stop_event-Ordered m n (record d { stop_complete = true }) h

abbrev stopping : System
stopping = record sample_system { device = listed_device; wakes = replicate 50 stop_event }

finish_capture-Stopped_example : Run finish_capture stopping (λ u s'. Stopped stopping s')
finish_capture-Stopped_example =
    finish_capture-Stopped stopping (λ n len. refl) (omega arith)
      (λ n. stop_event-Ordered 50 n listed_device (omega arith, λ some_files. omega arith))
