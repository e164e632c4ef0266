-- ===== src/Boot.antt =====
-- A card before its firmware runs: the boot loader's handshake cell and mailboxes, which
-- netanalyzer_kernel_mod/toolkit/netana_toolkit.c polls in WaitForBitStatePollBL, PutPacketBL,
-- GetPacketBL and TransferPacket.
pub mod Polling
pub mod Transfer
pub mod Liveness
pub mod Wire
pub mod Unlogged
pub mod Rounds
pub mod Upload
mod Tests
use nadrvlinux.Prelude.{
  ℕ, zero, suc, ◌+◌, ◌-◌, ◌*◌, ◌%◌, ◌^◌, bit_and, bit_xor, u32, sub32, Bool, true, false, not, ◌&&◌,
  Option, none, some, List, [], ◌∷◌, ◌++◌, get_or, take, drop, length, ltb, leb, ◌==◌,
  if◌then◌else◌,
}
use nadrvlinux.Prelude.Bits.{is_set}
use nadrvlinux.Codes.{
  no_error, dev_mailbox_full, dev_not_ready, dev_mailbox_too_short, dev_get_no_packet,
  buffer_too_short, transfer_timeout,
}
use nadrvlinux.Mailbox.{packet_size}

-- HSF_xxx, NSF_READY and RCX_FLAGS_xxx
abbrev pub hsf_send_mbx_cmd : ℕ
hsf_send_mbx_cmd = 0x10

abbrev pub hsf_recv_mbx_ack : ℕ
hsf_recv_mbx_ack = 0x20

abbrev pub nsf_ready : ℕ
nsf_ready = 0x01

abbrev pub flags_equal : ℕ
flags_equal = 0

abbrev pub flags_not_equal : ℕ
flags_not_equal = 1

-- NETX_SYSTEM_MAILBOX_MIN_SIZE
abbrev pub system_mailbox_size : ℕ
system_mailbox_size = 124

-- The dual-port memory and the registers of a card, as the boot loader lays them out: the cookie, the
-- handshake cell of the system, the mailboxes with what follows them, SYSSTA, the register that
-- enables its interrupts, and what was loaded to its start.
pub record BootDpm : Type 0 where
  pub cookie : ℕ
  pub hsk_data : ℕ
  pub netx_flags : ℕ
  pub host_flags : ℕ
  pub send_mbx : List ℕ
  pub recv_mbx : List ℕ
  pub system_state : ℕ
  pub irq_enable : ℕ
  pub image : List ℕ

-- One call of `OS_GetMilliSecCounter`, or of `OS_Sleep` where no such call follows: the counter, and what
-- the card has done since the last one.
pub record Poll : Type 0 where
  pub clock : ℕ
  pub act : BootDpm → BootDpm

-- `posted`: what the host has put into the send mailbox, and `resets`: what it has written to the
-- register that resets the card, oldest first.
pub record BootSystem : Type 0 where
  pub dpm : BootDpm
  pub polls : List Poll
  pub posted : List (List ℕ)
  pub resets : List ℕ

-- `none`: the thread is still polling when the list of polls ends.
abbrev pub B : Type 0 → Type 0
B A = BootSystem → Option (A × BootSystem)

abbrev pub done : {A : Type 0} → A → B A
done a s = some (a, s)

infixl 5 ◌>>=◌ ◌>>◌
abbrev pub ◌>>=◌ : {A C : Type 0} → B A → (A → B C) → B C
◌>>=◌ m f s = elim (m s) [ none ↦ none | some (a, s') ↦ f a s' ]

abbrev pub ◌>>◌ : {C : Type 0} → B (Unit {0}) → B C → B C
m >> k = m >>= λ _. k

abbrev pub the_dpm : B BootDpm
the_dpm s = some (s.dpm, s)

abbrev pub change : (BootDpm → BootDpm) → B (Unit {0})
change f s = some (tt, record s { dpm = f s.dpm })

-- `OS_GetMilliSecCounter`
abbrev pub milliseconds : B ℕ
milliseconds s = elim s.polls [
  | [] ↦ none
  | p ∷ ps ↦ some (p.clock, record s { dpm = p.act s.dpm; polls = ps })
]

abbrev pub bit_state : BootDpm → ℕ → ℕ
bit_state d mask =
    if is_set (bit_xor d.host_flags d.netx_flags) mask then flags_not_equal else flags_equal

-- The `do … while (ulDiffTime <= ulTimeout)`.
unfoldable pub poll_rounds :
    (mask state start timeout : ℕ) → BootDpm → List Poll → Option (Bool × (BootDpm × List Poll))
poll_rounds mask state start timeout d [] =
    if bit_state d mask == state then some (true, (d, [])) else none
poll_rounds mask state start timeout d (p ∷ ps) =
    let rest = poll_rounds mask state start timeout (p.act d) ps in
    if bit_state d mask == state
    then some (true, (d, p ∷ ps))
    else if leb (sub32 p.clock start) timeout
    then rest
    else some (false, (p.act d, ps))

abbrev pub resumed : BootSystem → Option (Bool × (BootDpm × List Poll)) → Option (Bool × BootSystem)
resumed s none = none
resumed s (some (ok, (d, ps))) = some (ok, record s { dpm = d; polls = ps })

unfoldable pub wait_for_bit_state_poll : (mask state timeout : ℕ) → B Bool
unfolding poll_rounds
wait_for_bit_state_poll mask state timeout s =
    if bit_state s.dpm mask == state
    then some (true, s)
    else if timeout == 0
    then some (false, s)
    else (milliseconds >>= λ start s'.
          resumed s' (poll_rounds mask state start timeout s'.dpm s'.polls))
        s

-- The packet in the send mailbox, and the bit of the host.
abbrev pub post : List ℕ → B (Unit {0})
post bytes s = some (
  tt,
  record s {
    dpm = record s.dpm {
      send_mbx = take (packet_size bytes) bytes ++ drop (packet_size bytes) s.dpm.send_mbx;
      host_flags = bit_xor s.dpm.host_flags hsf_send_mbx_cmd;
    };
    posted = s.posted ++ take (packet_size bytes) bytes ∷ [];
  },
)

unfoldable pub put_packet_bl : List ℕ → (timeout : ℕ) → B ℕ
unfolding wait_for_bit_state_poll
put_packet_bl bytes timeout = do
  d ← the_dpm
  if not (is_set d.netx_flags nsf_ready)
      then done dev_not_ready
      else if ltb system_mailbox_size (packet_size bytes)
      then done dev_mailbox_too_short
      else (wait_for_bit_state_poll hsf_send_mbx_cmd flags_equal timeout >>= λ free.
          if free then post bytes >> done no_error else done dev_mailbox_full)

abbrev pub acknowledge : BootDpm → BootDpm
acknowledge d = record d { host_flags = bit_xor d.host_flags hsf_recv_mbx_ack }

-- `OS_Memcpy` of `n` bytes to the caller's packet.
abbrev pub copied_to : List ℕ → ℕ → List ℕ → List ℕ
copied_to old n bytes = take n bytes ++ drop n old

-- The code, and the caller's packet afterwards.
unfoldable pub get_packet_bl : List ℕ → (size timeout : ℕ) → B (ℕ × List ℕ)
unfolding wait_for_bit_state_poll
get_packet_bl old size timeout = do
  d ← the_dpm
  if not (is_set d.netx_flags nsf_ready)
      then done (dev_not_ready, old)
      else (wait_for_bit_state_poll hsf_recv_mbx_ack flags_not_equal timeout >>= λ arrived.
          the_dpm >>= λ d'.
          if arrived
          then change acknowledge
            >> done (
                if ltb size (packet_size d'.recv_mbx)
                then (buffer_too_short, copied_to old size d'.recv_mbx)
                else (no_error, copied_to old (packet_size d'.recv_mbx) d'.recv_mbx))
          else done (dev_get_no_packet, old))

-- A word of the header of a packet, in its bytes.
abbrev pub word_at : List ℕ → (offset : ℕ) → ℕ
word_at bytes offset =
    get_or bytes offset 0
    + get_or bytes (offset + 1) 0 * 2 ^ 8
    + get_or bytes (offset + 2) 0 * 2 ^ 16
    + get_or bytes (offset + 3) 0 * 2 ^ 24

abbrev pub packet_src : List ℕ → ℕ
packet_src p = word_at p 4

abbrev pub packet_src_id : List ℕ → ℕ
packet_src_id p = word_at p 12

abbrev pub packet_id : List ℕ → ℕ
packet_id p = word_at p 20

abbrev pub packet_sta : List ℕ → ℕ
packet_sta p = word_at p 24

abbrev pub packet_cmd : List ℕ → ℕ
packet_cmd p = word_at p 28

-- Without RCX_MSK_PACKET_ANSWER.
abbrev pub command_of : List ℕ → ℕ
command_of p = packet_cmd p - packet_cmd p % 2

-- Whether a packet is the answer to another.
unfoldable pub is_answer : (sent received : List ℕ) → Bool
is_answer sent received =
    (command_of received == packet_cmd sent)
    && (packet_src received == packet_src sent)
    && (packet_id received == packet_id sent)
    && (packet_src_id received == packet_src_id sent)

-- The `do … while` of TransferPacket, with fuel.
unfoldable pub transfer_rounds :
    (fuel start : ℕ) → (sent received : List ℕ) → (size timeout : ℕ) → B (ℕ × List ℕ)
unfolding get_packet_bl is_answer
transfer_rounds zero start sent received size timeout s = none
transfer_rounds (suc fuel) start sent received size timeout s =
    (get_packet_bl received size timeout >>= λ got.
    if not (got.0 == no_error)
    then done got
    else if is_answer sent got.1
    then done got
    else (milliseconds >>= λ now.
        let again = transfer_rounds fuel start sent got.1 size timeout in
        if ltb (sub32 now start) timeout then again else done (transfer_timeout, got.1)))
      s

-- Every round that does not end the loop reads the clock, so that there are no more rounds than polls.
unfoldable pub transfer_packet : (sent received : List ℕ) → (size timeout : ℕ) → B (ℕ × List ℕ)
unfolding put_packet_bl transfer_rounds
transfer_packet sent received size timeout = milliseconds >>= λ start.
    put_packet_bl sent timeout >>= λ code. λ s.
      (if code == no_error
          then transfer_rounds (suc (length s.polls)) start sent received size timeout
          else done (code, received))
        s
