-- ===== src/Command/Laws.antt =====
-- What a command has done when it returns, whatever the firmware and other threads do meanwhile.
use nadrvlinux.Prelude.{
  ℕ, Bool, true, false, Option, none, some, List, drop, if◌then◌else◌, ◌≡◌, sym, ap, ap₂, ◌∙◌, ◌⊎◌,
  inl, inr,
}
use nadrvlinux.Device.{Device}
use nadrvlinux.System.{Wake, System, pure, ◌>>◌, modify}
use nadrvlinux.Handshake.{toggle_bit, wait_for_bit_state, bitstate_equal}
use nadrvlinux.Handshake.Laws.{agrees}
use nadrvlinux.Handshake.Passing.{passes, Agreed, wait_for_bit_state-Agreed}
use nadrvlinux.Command.{command}

-- The command was not sent: others alone have changed the device, and the bit is still taken.
pub record NotSent (bit : ℕ) (s s' : System) : Type 0 where
  pub wakes_before : ℕ
  pub only_others : s'.device ≡ passes wakes_before s.wakes s.device
  pub rest : s'.wakes ≡ drop wakes_before s.wakes
  pub still_taken : agrees s'.device bit ≡ false

-- The command was sent once, at a moment when the bit was free, with its parameters written: the device
-- is what the wakes that remained then have made of that. It was answered if `answered`.
pub record Sent (bit : ℕ) (fill : Device → Device) (s s' : System) (answered : Bool) : Type 0 where
  pub wakes_before : ℕ
  pub was_free : agrees (passes wakes_before s.wakes s.device) bit ≡ true
  pub wakes_after : ℕ
  pub left :
      s'.device
      ≡ passes wakes_after
          (drop wakes_before s.wakes)
          (toggle_bit bit (fill (passes wakes_before s.wakes s.device)))
  pub rest : s'.wakes ≡ drop wakes_after (drop wakes_before s.wakes)
  pub answer : agrees s'.device bit ≡ answered

abbrev pub CommandResult : ℕ → (Device → Device) → System → Option (Bool × System) → Type 0
CommandResult bit fill s none = Unit {0}
CommandResult bit fill s (some (true, s')) = Sent bit fill s s' true
CommandResult bit fill s (some (false, s')) = NotSent bit s s' ⊎ Sent bit fill s s' false

-- What was sent at `s1`, and waited for until `s'`.
Sent-by :
    (bit : ℕ) (fill : Device → Device) (s s1 : System) (n : ℕ)
    → agrees s1.device bit ≡ true
    → s1.device ≡ passes n s.wakes s.device
    → s1.wakes ≡ drop n s.wakes
    → (ok : Bool) (s' : System)
    → Agreed bit (record s1 { device = toggle_bit bit (fill s1.device) }) (some (ok, s'))
    → Sent bit fill s s' ok
Sent-by bit fill s s1 n free e f ok s' (a, (k, e', f')) = record {
  wakes_before = n;
  was_free = ap (λ (d : Device). agrees d bit) (sym e) ∙ free;
  wakes_after = k;
  left = e' ∙ ap₂ (λ (ws : List Wake) (d : Device). passes k ws (toggle_bit bit (fill d))) f e;
  rest = f' ∙ ap (drop k) f;
  answer = a;
}

answered :
    (bit : ℕ) (fill : Device → Device) (s s1 : System) (n : ℕ)
    → agrees s1.device bit ≡ true
    → s1.device ≡ passes n s.wakes s.device
    → s1.wakes ≡ drop n s.wakes
    → (o : Option (Bool × System))
    → Agreed bit (record s1 { device = toggle_bit bit (fill s1.device) }) o
    → CommandResult bit fill s o
answered bit fill s s1 n free e f none h = tt
answered bit fill s s1 n free e f (some (true, s')) h = Sent-by bit fill s s1 n free e f true s' h
answered bit fill s s1 n free e f (some (false, s')) h =
    inr (Sent-by bit fill s s1 n free e f false s' h)

-- A command that reports success was sent once, with its parameters, while the bit was free, and the
-- firmware has answered it. One that reports failure either was not sent, so that the toolkit has
-- written nothing, or was sent so and not answered.
pub command-CommandResult :
    (bit timeout : ℕ) (fill : Device → Device) (s : System)
    → CommandResult bit fill s (command bit timeout fill s)
unfolding command
command-CommandResult bit timeout fill s =
    sent (wait_for_bit_state bit bitstate_equal timeout s) (wait_for_bit_state-Agreed bit timeout s)
  where
    sent :
        (o : Option (Bool × System))
        → Agreed bit s o
        → CommandResult bit fill s (elim o [
          | none ↦ none
          | some (free, s1) ↦
              (if free
                  then modify (λ d. toggle_bit bit (fill d))
                    >> wait_for_bit_state bit bitstate_equal timeout
                  else pure false)
                s1
        ])
    sent none h = tt
    sent (some (true, s1)) (a, (n, e, f)) =
        let s2 = record s1 { device = toggle_bit bit (fill s1.device) } in
        answered bit fill s s1 n a e f (wait_for_bit_state bit bitstate_equal timeout s2)
          (wait_for_bit_state-Agreed bit timeout s2)
    sent (some (false, s1)) (a, (n, e, f)) =
        inl (record { wakes_before = n; only_others = e; rest = f; still_taken = a })
