-- ===== src/Interrupt/Tests.antt =====
-- An interrupt that sees new data and a new status, and the DSR after it.
use nadrvlinux.Prelude.{false, [], ◌∷◌, ◌≡◌, refl}
use nadrvlinux.Interrupt.{
  Interrupt, IrqBuffer, isr_handler, dsr_handler, take_buffer, handle_buffer, signal_bits,
}
use nadrvlinux.Interrupt.Interleaving.{
  Moment, idle, interrupted, at_start, one_more, Fresh, Caught, dsr_handler-Caught,
}

abbrev empty_buffer : IrqBuffer
empty_buffer = record { cells = []; valid = false }

abbrev quiet : Interrupt
quiet = record {
  irq_counter = 0;
  irq2dsr_buffer = false;
  buffer0 = empty_buffer;
  buffer1 = empty_buffer;
  netx_flags = 2;
  events = [];
}

abbrev before : Moment
before = record { irq = quiet; phase = idle; seen = 2 }

before-Fresh : Fresh before
before-Fresh = record { fresh_idle = refl; fresh0 = refl; fresh1 = refl; fresh_flags = refl }

-- Bit 0 is new, and bit 1 is gone.
events_test : (dsr_handler (isr_handler false 0 (1 ∷ []) quiet).1).1.events ≡ 0 ∷ 1 ∷ []
unfolding dsr_handler take_buffer handle_buffer signal_bits isr_handler
events_test = refl

dsr_handler-Caught_example :
    Caught
      (isr_handler false 0 (1 ∷ []) quiet).1
      1
      (dsr_handler (isr_handler false 0 (1 ∷ []) quiet).1).0
      (dsr_handler (isr_handler false 0 (1 ∷ []) quiet).1).1
unfolding isr_handler
dsr_handler-Caught_example =
    dsr_handler-Caught before
      (record { irq = (isr_handler false 0 (1 ∷ []) quiet).1; phase = idle; seen = 1 }) before-Fresh
      (one_more at_start (interrupted false 0 (1 ∷ []) refl)) refl
