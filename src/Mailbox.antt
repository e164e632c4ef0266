-- ===== src/Mailbox.antt =====
-- Packets through the mailboxes of the firmware: put_packet, get_packet, netana_put_packet,
-- netana_get_packet and netana_get_mbx_state of netanalyzer_kernel_mod/toolkit/netana_functions.c.
pub mod Laws
mod Tests
use nadrvlinux.Prelude.{
  ℕ, ◌+◌, ◌*◌, ◌^◌, u32, Bool, true, false, not, Option, none, some, List, [], ◌∷◌, ◌++◌, get_or,
  take, drop, ltb, ◌==◌, if◌then◌else◌,
}
use nadrvlinux.Codes.{
  no_error, dev_mailbox_full, dev_mailbox_too_short, dev_get_no_packet, buffer_too_short,
  drv_cmd_active, function_not_available,
}
use nadrvlinux.Device.{Device, Mailbox}
use nadrvlinux.System.{System, M, pure, ◌>>=◌, ◌>>◌, the_device, modify}
use nadrvlinux.Handshake.{toggle_bit, wait_for_bit_state, bitstate_equal, bitstate_unequal}

-- NETANA_PACKET_HEADER_SIZE
abbrev pub packet_header_size : ℕ
packet_header_size = 40

-- `tHeader.ulLen` of a packet, in its bytes.
abbrev pub packet_len : List ℕ → ℕ
packet_len bytes =
    get_or bytes 16 0
    + get_or bytes 17 0 * 2 ^ 8
    + get_or bytes 18 0 * 2 ^ 16
    + get_or bytes 19 0 * 2 ^ 24

-- The size of the whole packet, in 32 bits.
abbrev pub packet_size : List ℕ → ℕ
packet_size bytes = u32 (packet_len bytes + packet_header_size)

-- The packet in the send mailbox.
abbrev pub fill_send : List ℕ → Device → Device
fill_send bytes d = record d {
  send_mbx = record d.send_mbx {
    packet_cnt = u32 (d.send_mbx.packet_cnt + 1);
    content = take (packet_size bytes) bytes ++ drop (packet_size bytes) d.send_mbx.content;
  };
}

unfoldable pub put_packet : List ℕ → (timeout : ℕ) → M ℕ
put_packet bytes timeout = do
  d ← the_device
  let bit = d.send_mbx.bitoffset
  if ltb d.send_mbx.mailbox_length (packet_size bytes)
      then pure dev_mailbox_too_short
      else (wait_for_bit_state bit bitstate_equal timeout >>= λ free.
          if free
          then modify (λ d. toggle_bit bit (fill_send bytes d)) >> pure no_error
          else pure dev_mailbox_full)

-- The count of the packets received.
abbrev pub count_received : Device → Device
count_received d = record d {
  recv_mbx = record d.recv_mbx { packet_cnt = u32 (d.recv_mbx.packet_cnt + 1) };
}

-- The code, and the bytes written to the buffer of the caller, which holds `size`.
unfoldable pub get_packet : (size timeout : ℕ) → M (ℕ × List ℕ)
get_packet size timeout = do
  d ← the_device
  let bit = d.recv_mbx.bitoffset
  arrived ← wait_for_bit_state bit bitstate_unequal timeout
  d ← the_device
  let n = packet_size d.recv_mbx.content
  if arrived
      then modify (λ d. toggle_bit bit (count_received d))
        >> pure (
            if ltb size n
            then (buffer_too_short, take size d.recv_mbx.content)
            else (no_error, take n d.recv_mbx.content))
      else pure (dev_get_no_packet, [])

-- Whether the mutex was obtained in time is the operating system's answer.
unfoldable pub netana_put_packet : Bool → List ℕ → (timeout : ℕ) → M ℕ
unfolding put_packet
netana_put_packet obtained bytes timeout =
    if obtained then put_packet bytes timeout else pure drv_cmd_active

unfoldable pub netana_get_packet : Bool → (size timeout : ℕ) → M (ℕ × List ℕ)
unfolding get_packet
netana_get_packet obtained size timeout =
    if obtained then get_packet size timeout else pure (drv_cmd_active, [])

-- Both pointers for the answer are given.
unfoldable pub get_mbx_state : Device → ℕ × Option (ℕ × ℕ)
get_mbx_state d =
    if d.recv_mbx.mailbox_length == 0
    then (function_not_available, none)
    else (no_error, some (d.recv_mbx.packages, d.send_mbx.packages))
