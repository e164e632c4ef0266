-- ===== src/Interrupt/Interleaving.antt =====
-- Interrupts at any moment of a running DSR: no change of the firmware's flags is lost.
use mathlib.Core.List.{append-nil}
use nadrvlinux.Prelude.{
  ℕ, zero, suc, ◌+◌, ◌<◌, u16, bit_xor, Bool, true, false, not, ◌&&◌, ◌||◌, none, some, List, [],
  ◌++◌, get_or, ltb, leb, ◌==◌, ==_iff, if◌then◌else◌, ◌≡◌, ◌≢◌, refl, sym, ap, ap₂, subst, listed,
  ◌∙◌, inl, inr, Bool-cases, arith,
}
use nadrvlinux.Prelude.Bits.{is_set, is_set-two_pow, test_bit, test_bit-bit_xor, differs}
use nadrvlinux.Interrupt.{
  Interrupt, IrqBuffer, buffer_at, isr_handler, isr_irq_dsr_requested, take_buffer, handle_buffer,
  dsr_handler, netx_flags_of, signal_bits, code_after, dsr_processing_request, dsr_handled,
}

-- Where the DSR is: it has not begun, or it works on one of the buffers.
pub data Phase : Type 0 where
  idle : Phase
  busy : Bool → Phase

-- With the flags that the last interrupt of this device has seen.
pub record Moment : Type 0 where
  pub irq : Interrupt
  pub phase : Phase
  pub seen : ℕ

abbrev pub flags_of : List ℕ → ℕ
flags_of cells = u16 (get_or cells 0 0)

-- The interrupt comes in any phase; the DSR goes on where it is.
pub data Step : Moment → Moment → Type 0 where
  interrupted :
      {m : Moment} (check : Bool) (state : ℕ) (cells : List ℕ)
      → (isr_handler check state cells m.irq).0 ≡ isr_irq_dsr_requested
      → Step m (record m { irq = (isr_handler check state cells m.irq).1; seen = flags_of cells })
  ignored :
      {m : Moment} (check : Bool) (state : ℕ) (cells : List ℕ)
      → (isr_handler check state cells m.irq).0 ≢ isr_irq_dsr_requested
      → Step m (record m { irq = (isr_handler check state cells m.irq).1 })
  taken :
      {m : Moment} (i : Bool)
      → m.phase ≡ idle
      → (take_buffer m.irq).0 ≡ some i
      → Step m (record m { irq = (take_buffer m.irq).1; phase = busy i })
  skipped :
      {m : Moment}
      → m.phase ≡ idle
      → (take_buffer m.irq).0 ≡ none
      → Step m (record m { irq = (take_buffer m.irq).1 })
  handled :
      {m : Moment} (i : Bool)
      → m.phase ≡ busy i
      → Step m (record m { irq = (handle_buffer i m.irq).1; phase = idle })

pub data Reachable (start : Moment) : Moment → Type 0 where
  at_start : Reachable start start
  one_more : {m n : Moment} → Reachable start m → Step m n → Reachable start n

-- Nothing has been interrupted yet.
pub record Fresh (m : Moment) : Type 0 where
  pub fresh_idle : m.phase ≡ idle
  pub fresh0 : m.irq.buffer0.valid ≡ false
  pub fresh1 : m.irq.buffer1.valid ≡ false
  pub fresh_flags : m.irq.netx_flags ≡ m.seen

-- Where the flags that were seen last are: in the buffer of the ISR if it is valid, else with the DSR,
-- or in the instance.
abbrev pub Held : Phase → Interrupt → ℕ → Type 0
Held idle t seen =
    ((buffer_at (not t.irq2dsr_buffer) t).valid ≡ false)
    × ((if (buffer_at t.irq2dsr_buffer t).valid
          then netx_flags_of (buffer_at t.irq2dsr_buffer t)
          else t.netx_flags)
        ≡ seen)
Held (busy i) t seen =
    (t.irq2dsr_buffer ≡ not i)
    × ((buffer_at i t).valid ≡ false)
    × ((if (buffer_at (not i) t).valid
          then netx_flags_of (buffer_at (not i) t)
          else netx_flags_of (buffer_at i t))
        ≡ seen)

Held-isr :
    (p : Phase) (check : Bool) (state : ℕ) (cells : List ℕ) (t : Interrupt) (seen : ℕ)
    → Held p t seen
    → (isr_handler check state cells t).0 ≡ isr_irq_dsr_requested
    → Held p (isr_handler check state cells t).1 (flags_of cells)
unfolding isr_handler
Held-isr idle check state cells t seen h e = ground arith
Held-isr (busy i) check state cells t seen h e = ground arith

Held-ignored :
    (p : Phase) (check : Bool) (state : ℕ) (cells : List ℕ) (t : Interrupt) (seen : ℕ)
    → Held p t seen
    → (isr_handler check state cells t).0 ≢ isr_irq_dsr_requested
    → Held p (isr_handler check state cells t).1 seen
unfolding isr_handler
Held-ignored p check state cells t seen h e =
    elim (Bool-cases (check && not (is_set state 0x8000_0000))) [
      | inl other ↦ rw other h
      | inr ours ↦ absurd (ground arith)
    ]

Held-taken :
    (i : Bool) (t : Interrupt) (seen : ℕ)
    → Held idle t seen
    → (take_buffer t).0 ≡ some i
    → Held (busy i) (take_buffer t).1 seen
unfolding take_buffer
Held-taken i t seen h e = ground arith

Held-skipped :
    (t : Interrupt) (seen : ℕ)
    → Held idle t seen
    → (take_buffer t).0 ≡ none
    → Held idle (take_buffer t).1 seen
unfolding take_buffer
Held-skipped t seen h e = ground arith

Held-handled :
    (i : Bool) (t : Interrupt) (seen : ℕ)
    → Held (busy i) t seen
    → Held idle (handle_buffer i t).1 seen
unfolding handle_buffer
Held-handled i t seen h = ground arith

-- However interrupts fall between the steps of the DSR, the flags seen last are held: by the buffer
-- that the next DSR takes, by the DSR that runs, or by the instance.
pub Reachable-Held :
    (start m : Moment) → Fresh start → Reachable start m → Held m.phase m.irq m.seen
Reachable-Held start m f at_start =
    rw f.fresh_idle (ground (arith, f.fresh0, f.fresh1, f.fresh_flags))
Reachable-Held start m f (one_more {m = l} r s) = stepped l m (Reachable-Held start l f r) s
  where
    stepped : (l m : Moment) → Held l.phase l.irq l.seen → Step l m → Held m.phase m.irq m.seen
    stepped l m h (interrupted check state cells e) =
        Held-isr l.phase check state cells l.irq l.seen h e
    stepped l m h (ignored check state cells e) =
        Held-ignored l.phase check state cells l.irq l.seen h e
    stepped l m h (taken i p e) = Held-taken i l.irq l.seen (subst (λ q. Held q l.irq l.seen) p h) e
    stepped l m h (skipped p e) =
        subst (λ q. Held q (take_buffer l.irq).1 l.seen) (sym p)
          (Held-skipped l.irq l.seen (subst (λ q. Held q l.irq l.seen) p h) e)
    stepped l m h (handled i p) = Held-handled i l.irq l.seen (subst (λ q. Held q l.irq l.seen) p h)

-- The loop sets the events of the changed bits.
listed-signal_bits :
    (n bit changed code b : ℕ)
    → listed b (signal_bits n bit changed code).1
      ≡ (leb bit b && ltb b (bit + n) && test_bit changed b)
unfolding signal_bits
listed-signal_bits zero bit changed code b = ground arith
listed-signal_bits (suc n) bit changed code b = ground (
  arith,
  listed-signal_bits n (bit + 1) changed (code_after bit changed code) b,
  is_set-two_pow changed bit,
  this_bit,
)
  where
    this_bit : (bit == b) ≡ true → test_bit changed bit ≡ test_bit changed b
    this_bit e = ap (test_bit changed) ((==_iff bit b).0 e)

signal_bits-code : (n bit changed code : ℕ) → 1 < bit → (signal_bits n bit changed code).0 ≡ code
unfolding signal_bits
signal_bits-code zero bit changed code h = refl
signal_bits-code (suc n) bit changed code h =
    ground (arith, signal_bits-code n (bit + 1) changed (code_after bit changed code) (omega arith))

signal_bits-requests :
    (n changed : ℕ)
    → (signal_bits (suc (suc n)) 0 changed 0).0
      ≡ (if test_bit changed 0 || test_bit changed 1 then dsr_processing_request else dsr_handled)
unfolding signal_bits
signal_bits-requests n changed = ground (
  arith,
  signal_bits-code n 2 changed (code_after 1 changed (code_after 0 changed 0)) (omega arith),
  is_set-two_pow changed 0,
  is_set-two_pow changed 1,
)

-- What a DSR that runs without an interruption has done.
pub record Caught (t : Interrupt) (seen : ℕ) (code : ℕ) (t' : Interrupt) : Type 0 where
  pub flags_now : t'.netx_flags ≡ seen
  pub new_events : List ℕ
  pub events_now : t'.events ≡ t.events ++ new_events
  pub changed_events :
      (b : ℕ) → b < 16 → listed b new_events ≡ differs (test_bit t.netx_flags b) (test_bit seen b)
  pub requests : code ≡ (
      if differs (test_bit t.netx_flags 0) (test_bit seen 0)
        || differs (test_bit t.netx_flags 1) (test_bit seen 1)
      then dsr_processing_request
      else dsr_handled)

handle_buffer-Caught :
    (i : Bool) (t : Interrupt)
    → Caught t (netx_flags_of (buffer_at i t)) (handle_buffer i t).0 (handle_buffer i t).1
unfolding handle_buffer
handle_buffer-Caught i t = record {
  flags_now = refl;
  new_events = (signal_bits 16 0 (bit_xor t.netx_flags now) dsr_handled).1;
  events_now = refl;
  changed_events = λ b h. ground (
    arith,
    listed-signal_bits 16 0 (bit_xor t.netx_flags now) dsr_handled b,
    test_bit-bit_xor t.netx_flags now b,
  );
  requests = ground (
    arith,
    signal_bits-requests 14 (bit_xor t.netx_flags now),
    test_bit-bit_xor t.netx_flags now 0,
    test_bit-bit_xor t.netx_flags now 1,
  );
}
  where
    now : ℕ
    now = netx_flags_of (buffer_at i t)

Caught-none : (t : Interrupt) (seen : ℕ) → t.netx_flags ≡ seen → Caught t seen dsr_handled t
Caught-none t seen e = record {
  flags_now = e;
  new_events = [];
  events_now = sym (append-nil t.events);
  changed_events = λ b h. ground (arith, ap (λ n. test_bit n b) e);
  requests = ground (arith, ap (λ n. test_bit n 0) e, ap (λ n. test_bit n 1) e);
}

-- The buffer that was taken.
Caught-buffer :
    (t t' : Interrupt) (i : Bool) (seen : ℕ)
    → t'.netx_flags ≡ t.netx_flags
    → t'.events ≡ t.events
    → netx_flags_of (buffer_at i t') ≡ seen
    → Caught t seen (handle_buffer i t').0 (handle_buffer i t').1
Caught-buffer t t' i seen flags events now =
    let c = handle_buffer-Caught i t' in
    record {
      flags_now = c.flags_now ∙ now;
      new_events = c.new_events;
      events_now = c.events_now ∙ ap (λ es. es ++ c.new_events) events;
      changed_events = λ b h.
          c.changed_events b h ∙ ap₂ (λ o n. differs (test_bit o b) (test_bit n b)) flags now;
      requests =
          c.requests
          ∙ ap₂
              (λ o n.
                if differs (test_bit o 0) (test_bit n 0) || differs (test_bit o 1) (test_bit n 1)
                then dsr_processing_request
                else dsr_handled)
              flags now;
    }

Caught-idle :
    (counter : ℕ) (current : Bool) (b0 b1 : IrqBuffer) (flags : ℕ) (events : List ℕ) (seen : ℕ)
    → let t : Interrupt = record {
      irq_counter = counter;
      irq2dsr_buffer = current;
      buffer0 = b0;
      buffer1 = b1;
      netx_flags = flags;
      events = events;
    } in
      Held idle t seen → Caught t seen (dsr_handler t).0 (dsr_handler t).1
unfolding dsr_handler take_buffer
Caught-idle counter false b0 b1 flags events seen h = elim (Bool-cases b0.valid) [
  | inl full ↦ rw full (Caught-buffer _ _ false seen refl refl (ground arith))
  | inr empty ↦ rw empty (Caught-none _ seen (ground arith))
]
Caught-idle counter true b0 b1 flags events seen h = elim (Bool-cases b1.valid) [
  | inl full ↦ rw full (Caught-buffer _ _ true seen refl refl (ground arith))
  | inr empty ↦ rw empty (Caught-none _ seen (ground arith))
]

-- After any sequence of interrupts and steps of the DSR that begins with empty buffers, a DSR that runs
-- to its end gives the instance the flags that the last interrupt has seen, sets the events of exactly
-- those of the 16 bits that this changes, and asks for processing exactly when the bit of new data or
-- the bit of a new status is among them.
pub dsr_handler-Caught :
    (start m : Moment)
    → Fresh start
    → Reachable start m
    → m.phase ≡ idle
    → Caught m.irq m.seen (dsr_handler m.irq).0 (dsr_handler m.irq).1
dsr_handler-Caught start m f r e =
    let t = m.irq in
    Caught-idle t.irq_counter t.irq2dsr_buffer t.buffer0 t.buffer1 t.netx_flags t.events m.seen
      (subst (λ p. Held p m.irq m.seen) e (Reachable-Held start m f r))
