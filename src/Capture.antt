-- ===== src/Capture.antt =====
-- Captured data on its way to the files and to the user:
-- netanalyzer_kernel_mod/toolkit/netana_capture.c.
pub mod Buffers
pub mod Files
pub mod Bounds
pub mod Deliver
pub mod Drain
mod Tests
use nadrvlinux.Prelude.{
  ℕ, zero, suc, ◌+◌, ◌^◌, ◌/◌, ◌%◌, bit_and, bit_xor, u32, u64, sub32, sub64, Bool, true, false,
  Option, none, some, List, [], ◌∷◌, ◌++◌, get_or, set, take, length, ltb, leb, ◌==◌, if◌then◌else◌,
}
use nadrvlinux.Prelude.Bits.{is_set}
use nadrvlinux.Codes.{no_error, function_failed, file_write_failed}
use nadrvlinux.Device.{Device, FileData, FileHeader, DmaBuffer, capture_state_off}
use nadrvlinux.System.{
  System, M, Effect, file_write, file_seek, data_callback, status_callback, pure, ◌>>=◌, ◌>>◌,
  the_device, modify, effect,
}
use nadrvlinux.Handshake.{
  toggle_bit, wait_for_bit_state, newdata_bit, newstatus_bit, drv_error_bit, bitstate_equal,
  default_timeout,
}

-- `sizeof(NETANA_FILE_HEADER_T)`
abbrev pub file_header_size : ℕ
file_header_size = 32

-- NETANA_FILE_HEADER_SIZE_INVALID
abbrev pub size_invalid : ℕ
size_invalid = 0xffff_ffff_ffff_ffff

abbrev pub driver_file_full : ℕ
driver_file_full = 0xc077_0000

abbrev pub driver_invalid_buffersize : ℕ
driver_invalid_buffersize = 0xc077_0001

-- The bytes of an integer, lowest first.
unfoldable pub le_bytes : ℕ → ℕ → List ℕ
le_bytes zero n = []
le_bytes (suc width) n = (n % 256) ∷ le_bytes width (n / 256)

-- The packed structure in memory.
unfoldable pub header_bytes : FileHeader → List ℕ
unfolding le_bytes
header_bytes h =
    le_bytes 4 h.cookie
    ++ le_bytes 4 h.idx
    ++ le_bytes 8 h.capture_start
    ++ le_bytes 8 h.data_size
    ++ le_bytes 4 h.timezone_correction
    ++ le_bytes 4 h.reserved

abbrev pub no_file : FileData
no_file = record { file = none; offset = 0; data_written = 0 }

abbrev pub file_at : Device → ℕ → FileData
file_at d n = get_or d.files n no_file

abbrev pub with_file : ℕ → (FileData → FileData) → Device → Device
with_file n f d = record d { files = set d.files n (f (file_at d n)) }

abbrev pub no_buffer : DmaBuffer
no_buffer = record { physical_address = 0; buffer_size = 0; bytes = [] }

-- `OS_FileWrite`: the number of bytes that it took.
abbrev pub os_file_write : Option ℕ → List ℕ → M ℕ
os_file_write file bytes s = some (
  s.accepts s.writes (length bytes),
  record s { writes = s.writes + 1; trace = s.trace ++ file_write file bytes ∷ [] },
)

-- `netana_signal_driver_error`
unfoldable pub signal_driver_error : ℕ → M ℕ
signal_driver_error error = do
  ok ← wait_for_bit_state drv_error_bit bitstate_equal default_timeout
  if ok
      then modify (λ d. record d { host = record d.host { host_error = error } })
        >> modify (toggle_bit drv_error_bit)
        >> pure no_error
      else pure function_failed

-- The seek to the start of the current file, where it is not there yet.
unfoldable pub rewind : M (Unit {0})
rewind = do
  d ← the_device
  if (file_at d d.current_file).offset == 0
      then pure tt
      else effect (file_seek (file_at d d.current_file).file 0)
        >> modify (with_file d.current_file (λ f. record f { offset = 0 }))

-- The size in the header, and the count of data that goes with it.
abbrev pub sized : ℕ → Device → Device
sized size d =
    with_file d.current_file
      (λ f. record f { data_written = if size == size_invalid then 0 else size })
      (record d { file_header = record d.file_header { data_size = size } })

-- The write of the header to the current file.
unfoldable pub put_header : M ℕ
put_header = do
  d ← the_device
  taken ← os_file_write (file_at d d.current_file).file (header_bytes d.file_header)
  if taken == file_header_size
      then modify
          (with_file d.current_file (λ f. record f { offset = u64 (f.offset + file_header_size) }))
        >> pure no_error
      else pure file_write_failed

-- `netana_tkit_writefileheader`
unfoldable pub write_file_header : ℕ → M ℕ
unfolding rewind put_header
write_file_header size = do rewind; modify (sized size); put_header

-- The three lines that write a buffer to a file and count its bytes.
unfoldable pub write_data : ℕ → ℕ → List ℕ → M (Unit {0})
write_data n used bytes = do
  d ← the_device
  taken ← os_file_write (file_at d n).file bytes
  modify (
      with_file n (λ f. record f {
        offset = u64 (f.offset + used);
        data_written = u64 (f.data_written + used);
      }))

-- A header that is not checked for success.
abbrev pub write_header : ℕ → M (Unit {0})
write_header size = write_file_header size >>= λ code. pure tt

-- The size of the data in the current file, from its offset.
abbrev pub data_size_of : Device → ℕ
data_size_of d = sub64 (file_at d d.current_file).offset file_header_size

-- `++ptDevInst->ulCurrentFile`
abbrev pub next_file : Device → Device
next_file d = record d {
  file_header = record d.file_header { idx = u32 (d.file_header.idx + 1) };
  current_file = u32 (d.current_file + 1);
}

-- Ring mode starts again at the first file.
unfoldable pub first_file : ℕ → List ℕ → M (Unit {0})
unfolding write_file_header write_data
first_file used bytes = do
  modify (λ d. record d { current_file = 0 })
  write_header size_invalid
  write_data 0 used bytes

-- Without it, the capture to files ends, and the last file stays the current one.
unfoldable pub last_file : M (Unit {0})
unfolding signal_driver_error
last_file = do
  code ← signal_driver_error driver_file_full
  modify (λ d. record d { write_to_file = false; current_file = sub32 d.current_file 1 })

-- What follows `++ptDevInst->ulCurrentFile`.
unfoldable pub enter_file : ℕ → List ℕ → M (Unit {0})
unfolding first_file last_file write_file_header write_data
enter_file used bytes = do
  d ← the_device
  if leb d.file_count d.current_file
      then (if d.ring_buffer then first_file used bytes else last_file)
      else write_header size_invalid >> write_data d.current_file used bytes

-- The wrap-around to another file.
unfoldable pub wrap_file : ℕ → List ℕ → M (Unit {0})
unfolding write_file_header enter_file
wrap_file used bytes = do
  d ← the_device
  write_header (data_size_of d)
  modify next_file
  enter_file used bytes

-- The branch for a capture to files.
unfoldable pub store_buffer : ℕ → List ℕ → M (Unit {0})
unfolding wrap_file write_data
store_buffer used bytes = do
  d ← the_device
  if ltb d.file_size (u64 ((file_at d d.current_file).offset + used))
      then wrap_file used bytes
      else write_data d.current_file used bytes

-- The branch for a size that the buffer does not have.
unfoldable pub reject_buffer : M (Unit {0})
unfolding signal_driver_error write_file_header
reject_buffer = do
  code ← signal_driver_error driver_invalid_buffersize
  d ← the_device
  if d.write_to_file
      then write_header (data_size_of d) >> modify (λ d. record d { write_to_file = false })
      else pure tt

-- The branch for a good buffer.
unfoldable pub deliver_buffer : ℕ → List ℕ → M (Unit {0})
unfolding store_buffer
deliver_buffer used bytes = do
  d ← the_device
  if d.write_to_file then store_buffer used bytes else pure tt
  d ← the_device
  if d.has_data then effect (data_callback bytes) else pure tt

-- `if(++ulCurrentBuffer >= ulDMABufferCount) ulCurrentBuffer = 0`, and the flag before.
unfoldable pub release_buffer : ℕ → Device → Device
release_buffer mask d = record d {
  host = record d.host { buffer_flags = bit_xor d.host.buffer_flags mask };
  current_buffer =
      if leb d.dma_buffer_count (u32 (d.current_buffer + 1)) then 0 else u32 (d.current_buffer + 1);
}

-- The body of the `while` loop.
unfoldable pub process_buffer : M (Unit {0})
unfolding reject_buffer deliver_buffer release_buffer
process_buffer = do
  d ← the_device
  let buffer = d.current_buffer
  let dma = get_or d.dma_buffers buffer no_buffer
  let used = get_or d.status.used_buffer_size buffer 0
  if ltb dma.buffer_size used then reject_buffer else deliver_buffer used (take used dma.bytes)
  modify (release_buffer (2 ^ buffer))

-- The loop. Each round clears a bit of `ulUsedBuffers`, so that more fuel than that number is
-- enough.
unfoldable pub drain : ℕ → ℕ → M (Unit {0})
unfolding process_buffer
drain zero used s = none
drain (suc fuel) used s =
    let mask = 2 ^ s.device.current_buffer in
    let more = process_buffer >> drain fuel (bit_and used (bit_xor 0xffff_ffff mask)) in
    elim (is_set used mask) [ true ↦ more s | false ↦ some (tt, s) ]

-- The first block of `netana_tkit_process`.
unfoldable pub process_data : M (Unit {0})
unfolding drain
process_data = do
  modify (toggle_bit newdata_bit)
  d ← the_device
  let used = bit_xor d.host.buffer_flags d.status.buffer_flags
  drain (used + 1) used

-- The second block.
unfoldable pub process_status : M (Unit {0})
process_status = do
  d ← the_device
  if d.has_status
      then effect (status_callback d.status.capture_state d.status.capture_error)
      else pure tt
  modify (toggle_bit newstatus_bit)
  if d.status.capture_state == capture_state_off
      then modify (λ d. record d { stop_complete = true })
      else pure tt

-- `netana_tkit_process`
unfoldable pub process : M (Unit {0})
unfolding process_data process_status
process = do
  d ← the_device
  let unequal = bit_xor d.netx_flags d.host_flags
  if is_set unequal (2 ^ newdata_bit) then process_data else pure tt
  if is_set unequal (2 ^ newstatus_bit) then process_status else pure tt
