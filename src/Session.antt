-- ===== src/Session.antt =====
-- A capture from its file list to its end: OpenCaptureFiles, CloseCaptureFiles, netana_set_filelist,
-- netana_start_capture, netana_stop_capture, netana_get_state and netana_file_info of
-- netanalyzer_kernel_mod/toolkit/netana_functions.c.
pub mod Files
pub mod Opening
pub mod Opened
pub mod Prepared
pub mod Stopped
mod Tests
use nadrvlinux.Prelude.{
  ℕ, zero, suc, ◌+◌, ◌*◌, ◌/◌, ◌%◌, ◌^◌, bit_and, u64, sub64, Bool, true, false, not, ◌&&◌, Option,
  none, some, List, [], ◌∷◌, ◌++◌, map, get_or, set, take, length, ltb, leb, ◌==◌, if◌then◌else◌,
}
use nadrvlinux.Prelude.Bits.{is_set}
use nadrvlinux.Codes.{
  no_error, invalid_parameter, function_failed, file_creation_failed, file_write_failed,
  capture_active, capture_not_active, filecapture_not_active, configuration_error,
}
use nadrvlinux.Device.{
  Device, DmaBuffer, HostDmaBuffer, FileData, FileHeader, HostControl, is_capture_running,
}
use nadrvlinux.System.{
  System, Wake, M, Effect, file_close, pure, ◌>>=◌, ◌>>◌, the_device, modify, effect,
}
use nadrvlinux.Handshake.{
  toggle_bit, wait_for_bit_state, bitstate_equal, default_timeout, startstop_bit,
}
use nadrvlinux.Command.{command}
use nadrvlinux.Text.{numeral}
use nadrvlinux.Capture.{
  file_at, with_file, file_header_size, size_invalid, write_file_header, write_header, data_size_of,
}

abbrev pub max_files : ℕ
max_files = 256

-- `sizeof(szFileName)`, which is twice NETANA_MAX_FILEPATH.
abbrev pub file_name_size : ℕ
file_name_size = 512

-- NETANA_CAPTUREMODE_RINGBUFFER
abbrev pub mode_ringbuffer : ℕ
mode_ringbuffer = 0x8000_0000

abbrev pub file_header_cookie : ℕ
file_header_cookie = 0x4145_482e

-- The global variables of the toolkit that a capture reads.
pub record Globals : Type 0 where
  pub dma_buffer_size : ℕ
  pub dma_buffer_timeout : ℕ
  pub timezone_correction : ℕ

-- The name that `"%s%s%s_%u.hea"` makes.
unfoldable pub file_name : List ℕ → Device → ℕ → List ℕ
file_name separator d n =
    d.path
    ++ separator
    ++ d.base_filename
    ++ 0x5f ∷ numeral 10 10 n []
    ++ 0x2e ∷ 0x68 ∷ 0x65 ∷ 0x61 ∷ []

-- The loop of `CloseCaptureFiles`, with `left` files to go from `n` on.
unfoldable pub close_files : (left n : ℕ) → M (Unit {0})
close_files zero n = pure tt
close_files (suc left) n = do
  d ← the_device
  elim (file_at d n).file [
    | none ↦ pure tt
    | some h ↦ effect (file_close h) >> modify (with_file n (λ f. record f { file = none }))
  ]
  close_files left (n + 1)

unfoldable pub close_capture_files : M (Unit {0})
unfolding close_files
close_capture_files = do d ← the_device; close_files d.file_count 0

module _ (separator : List ℕ) (open_file : List ℕ → Option ℕ) where
  -- The loop of `OpenCaptureFiles`. The files of the operating system are the parameter.
  unfoldable pub open_files : (left n : ℕ) → M ℕ
  unfolding file_name
  open_files zero n = pure no_error
  open_files (suc left) n = do
    d ← the_device
    let name = file_name separator d n
    let opened = λ (h : ℕ).
        modify (with_file n (λ f. record { file = some h; offset = 0; data_written = 0 }))
        >> open_files left (n + 1)
    if ltb file_name_size (length name) then pure file_creation_failed else elim (open_file name) [
      | none ↦ modify (with_file n (λ f. record f { file = none })) >> pure file_creation_failed
      | some h ↦ opened h
    ]

  unfoldable pub open_capture_files : M ℕ
  unfolding close_capture_files open_files
  open_capture_files = do
    close_capture_files
    modify (λ d. record d { current_file = 0 })
    d ← the_device
    open_files d.file_count 0

  -- What follows the checks of netana_set_filelist.
  unfoldable pub take_filelist : (path base : List ℕ) → (count size : ℕ) → M ℕ
  unfolding open_capture_files close_capture_files
  take_filelist path base count size = do
    modify (λ d. record d {
      path = take 256 path;
      base_filename = take 256 base;
      file_count = count;
      file_size = size;
    })
    code ← open_capture_files
    if code == no_error
        then pure no_error
        else close_capture_files >> (modify (λ d. record d { file_count = 0 }) >> pure code)

  unfoldable pub set_filelist : Globals → (path base : List ℕ) → (count size : ℕ) → M ℕ
  unfolding is_capture_running take_filelist
  set_filelist g path base count size = do
    d ← the_device
    if is_capture_running d
        then pure capture_active
        else if ltb max_files count
        then pure invalid_parameter
        else if ltb size (g.dma_buffer_size + file_header_size)
        then pure invalid_parameter
        else take_filelist path base count size

-- The arguments of a start. A callback is here for whether it is given.
pub record Start : Type 0 where
  pub capture_mode : ℕ
  pub port_enable_mask : ℕ
  pub mac_mode : ℕ
  pub reference_time : ℕ
  pub status_given : Bool
  pub data_given : Bool

-- The host's view of the DMA buffers, as the loop fills it in.
abbrev pub host_buffer : DmaBuffer → HostDmaBuffer
host_buffer b = record { address_high = 0; address_low = b.physical_address; size = b.buffer_size }

-- The callbacks, the buffers and the setup, up to the flag for the ring.
unfoldable pub fill_start : Globals → Start → Device → Device
fill_start g q d = record d {
  has_status = q.status_given;
  has_data = q.data_given;
  ring_buffer = is_set q.capture_mode mode_ringbuffer;
  host = record d.host {
    buffer_flags = 0;
    buffer_count = d.dma_buffer_count;
    host_buffer_timeout = g.dma_buffer_timeout;
    dma_buffers = map host_buffer (take d.dma_buffer_count d.dma_buffers);
    capture_mode = q.capture_mode;
    port_enable_mask = q.port_enable_mask;
    mac_mode = q.mac_mode;
    ref_seconds = q.reference_time / 2 ^ 32;
    ref_nanoseconds = q.reference_time % 2 ^ 32;
    host_error = 0;
  };
}

abbrev pub first_header : Globals → Start → FileHeader → FileHeader
first_header g q h = record h {
  cookie = file_header_cookie;
  idx = 0;
  capture_start = q.reference_time;
  timezone_correction = g.timezone_correction;
  reserved = 0;
}

-- The files of a capture, and the first buffer.
unfoldable pub start_files : Globals → Start → M ℕ
unfolding write_file_header
start_files g q = do
  d ← the_device
  code ←
      if ltb 0 d.file_count
      then modify (λ d. record d {
        current_file = 0;
        write_to_file = true;
        file_header = first_header g q d.file_header;
      })
        >> write_file_header size_invalid
      else modify (λ d. record d { write_to_file = false }) >> pure no_error
  modify (λ d. record d { current_buffer = 0 })
  pure (if code == no_error then no_error else file_write_failed)

unfoldable pub start_capture : Globals → Start → M ℕ
unfolding is_capture_running fill_start start_files command
start_capture g q = do
  d ← the_device
  if is_capture_running d
      then pure capture_active
      else if (d.file_count == 0) && not q.data_given
      then pure configuration_error
      else modify (fill_start g q) >> start_files g q >>= λ code.
          if code == no_error
          then (command startstop_bit default_timeout (λ d. d) >>= λ ok.
              pure (if ok then no_error else function_failed))
          else pure code

-- The loop that waits for the end of the capture, at most 50 times. A wait returns at once if the
-- event is set, and else with the next wake, which the next round looks at.
unfoldable pub await_stop : ℕ → M (Unit {0})
await_stop zero s = some (tt, s)
await_stop (suc cycles) s = elim s.device.stop_complete [
  | true ↦ some (tt, s)
  | false ↦ elim s.wakes [
    | [] ↦ none
    | w ∷ ws ↦ await_stop cycles (record s { device = w.act s.device; clock = w.clock; wakes = ws })
  ]
]

-- What follows the wait for the end.
unfoldable pub release_capture : M (Unit {0})
unfolding close_capture_files write_file_header
release_capture = do
  modify (λ d. record d { has_status = false; has_data = false })
  d ← the_device
  if ltb 0 d.file_count
      then (if d.write_to_file then write_header (data_size_of d) else pure tt)
        >> close_capture_files
        >> modify (λ d. record d { file_count = 0 })
      else pure tt

-- What follows the answer to a stop.
unfoldable pub finish_capture : M (Unit {0})
unfolding await_stop release_capture
finish_capture = await_stop 50 >> release_capture

unfoldable pub stop_capture : M ℕ
unfolding is_capture_running command finish_capture
stop_capture = do
  d ← the_device
  if not (is_capture_running d)
      then pure capture_not_active
      else command startstop_bit default_timeout (λ d. record d { stop_complete = false }) >>= λ ok.
          if ok then finish_capture >> pure no_error else pure function_failed

unfoldable pub get_state : Device → ℕ × ℕ × ℕ
get_state d = (no_error, d.status.capture_state, d.status.capture_error)

pub record FileInformation : Type 0 where
  pub actual_file_nr : ℕ
  pub max_file_cnt : ℕ
  pub total_bytes_written : ℕ
  pub max_bytes : ℕ
  pub ring_buffer_mode : ℕ

-- The loop over the files.
unfoldable pub total_written : List FileData → ℕ → ℕ
total_written [] total = total
total_written (f ∷ fs) total = total_written fs (u64 (total + f.data_written))

-- The whole structure; the caller gets as many bytes of it as it asks for.
unfoldable pub file_info : Device → ℕ × Option FileInformation
unfolding is_capture_running total_written
file_info d =
    if not (is_capture_running d)
    then (capture_not_active, none)
    else if d.file_count == 0
    then (filecapture_not_active, none)
    else (
      no_error,
      some (record {
        actual_file_nr = d.current_file + 1;
        max_file_cnt = d.file_count;
        total_bytes_written = total_written (take d.file_count d.files) 0;
        max_bytes = u64 (d.file_size * d.file_count);
        ring_buffer_mode = if d.ring_buffer then 1 else 0;
      }),
    )
