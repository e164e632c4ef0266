-- ===== src/Interrupt.antt =====
-- The interrupt service: netana_tkit_isr_handler and netana_tkit_dsr_handler of
-- netanalyzer_kernel_mod/toolkit/netana_interrupt.c.
pub mod Interleaving
mod Tests
use nadrvlinux.Prelude.{
  ℕ, zero, suc, ◌+◌, ◌^◌, ◌/◌, ◌%◌, bit_and, bit_xor, u16, u32, Bool, true, false, not, ◌&&◌, ◌||◌,
  Option, none, some, List, [], ◌∷◌, ◌++◌, get_or, take, ◌==◌, if◌then◌else◌,
}
use nadrvlinux.Prelude.Bits.{is_set}
use nadrvlinux.Handshake.{newdata_bit, newstatus_bit}

abbrev pub isr_irq_otherdevice : ℕ
isr_irq_otherdevice = 0

abbrev pub isr_irq_dsr_requested : ℕ
isr_irq_dsr_requested = 2

abbrev pub dsr_handled : ℕ
dsr_handled = 0

abbrev pub dsr_processing_request : ℕ
dsr_processing_request = 1

-- MSK_IRQ_STA0_INT_REQ
abbrev pub int_req : ℕ
int_req = 0x8000_0000

-- `NETANA_IRQ2DSR_BUFFER_T`, with the values of the eight cells.
pub record IrqBuffer : Type 0 where
  pub cells : List ℕ
  pub valid : Bool

-- The part of the device instance that belongs to the interrupt. `iIrq2DsrBuffer` is 0 or 1, here
-- false or true; the events are numbered by their bit, and listed in the order they are set in.
pub record Interrupt : Type 0 where
  pub irq_counter : ℕ
  pub irq2dsr_buffer : Bool
  pub buffer0 : IrqBuffer
  pub buffer1 : IrqBuffer
  pub netx_flags : ℕ
  pub events : List ℕ

abbrev pub buffer_at : Bool → Interrupt → IrqBuffer
buffer_at false t = t.buffer0
buffer_at true t = t.buffer1

abbrev pub with_buffer : Bool → IrqBuffer → Interrupt → Interrupt
with_buffer false b t = record t { buffer0 = b }
with_buffer true b t = record t { buffer1 = b }

-- The interrupt state of the chip and the cells of the dual-port memory are what the hardware shows.
unfoldable pub isr_handler : (check_other_device : Bool) → ℕ → List ℕ → Interrupt → ℕ × Interrupt
isr_handler check_other_device irq_state0 handshake t =
    if check_other_device && not (is_set irq_state0 int_req) then (isr_irq_otherdevice, t) else (
      isr_irq_dsr_requested,
      with_buffer t.irq2dsr_buffer (record { cells = take 8 handshake; valid = true })
          (record t { irq_counter = u32 (t.irq_counter + 1) }),
    )

-- `t16Bit.usNetxFlags` of cell 0.
abbrev pub netx_flags_of : IrqBuffer → ℕ
netx_flags_of b = u16 (get_or b.cells 0 0)

-- Up to the unlock: the buffer that the DSR handles, if it is valid, and the flip to the other. It is one
-- step here. The build for Linux does not define TOOLKIT_ENABLE_DSR_LOCK, so that this rests on what the
-- code assumes there, that the ISR always has the higher priority.
unfoldable pub take_buffer : Interrupt → Option Bool × Interrupt
take_buffer t = if not b.valid then (none, t) else (
  some t.irq2dsr_buffer,
  with_buffer t.irq2dsr_buffer (record b { valid = false })
      (record t { irq2dsr_buffer = not t.irq2dsr_buffer }),
)
  where
    b : IrqBuffer
    b = buffer_at t.irq2dsr_buffer t

-- The `switch` over the position of a changed bit.
abbrev pub code_after : (bit changed code : ℕ) → ℕ
code_after bit changed code =
    if is_set changed (2 ^ bit) && ((bit == newdata_bit) || (bit == newstatus_bit))
    then dsr_processing_request
    else code

-- The loop over the bits from `bit` on, with `n` to go: the code, and the events set.
unfoldable pub signal_bits : (n bit changed code : ℕ) → ℕ × List ℕ
signal_bits zero bit changed code = (code, [])
signal_bits (suc n) bit changed code =
    let (last, events) = signal_bits n (bit + 1) changed (code_after bit changed code) in
    (last, if is_set changed (2 ^ bit) then bit ∷ events else events)

-- What follows the unlock, with the buffer `i`.
unfoldable pub handle_buffer : Bool → Interrupt → ℕ × Interrupt
unfolding signal_bits
handle_buffer i t =
    let now = netx_flags_of (buffer_at i t) in
    let (code, events) = signal_bits 16 0 (bit_xor t.netx_flags now) dsr_handled in
    (code, record t { netx_flags = now; events = t.events ++ events })

unfoldable pub dsr_handler : Interrupt → ℕ × Interrupt
unfolding take_buffer handle_buffer
dsr_handler t =
    let (taken, t') = take_buffer t in elim taken [ none ↦ (0, t') | some i ↦ handle_buffer i t' ]
