-- ===== src/Mailbox/Laws.antt =====
-- What a transfer through a mailbox has done when it returns.
use nadrvlinux.Prelude.{
  ℕ, zero, suc, ◌≤◌, ◌<◌, Bool, true, false, Option, none, some, List, [], ◌∷◌, ◌++◌, take, drop,
  length, min, ltb, ltb→lt, if◌then◌else◌, ◌≡◌, refl, ap, ◌⊎◌, inl, inr, Bool-cases, arith,
}
use nadrvlinux.Codes.{
  no_error, dev_mailbox_full, dev_mailbox_too_short, dev_get_no_packet, buffer_too_short,
}
use nadrvlinux.Device.{Device}
use nadrvlinux.System.{System, pure, ◌>>◌, modify}
use nadrvlinux.Handshake.{toggle_bit, wait_for_bit_state, bitstate_equal, bitstate_unequal}
use nadrvlinux.Handshake.Laws.{agrees, agrees-toggle_bit}
use nadrvlinux.Handshake.Passing.{
  passes, Agreed, Disagreed, wait_for_bit_state-Agreed, wait_for_bit_state-Disagreed,
}
use nadrvlinux.Mailbox.{packet_size, fill_send, count_received, put_packet, get_packet}

take-append_self : (n : ℕ) (xs ys : List ℕ) → n ≤ length xs → take n (take n xs ++ ys) ≡ take n xs
take-append_self zero xs ys h = refl
take-append_self (suc n) [] ys h = absurd (omega arith)
take-append_self (suc n) (x ∷ xs) ys h = ap (◌∷◌ x) (take-append_self n xs ys (omega arith))

-- The device at the moment `d`, which others alone have brought it to.
abbrev pub ReachedBy : System → Device → Type 0
ReachedBy s d = (n : ℕ) × (d ≡ passes n s.wakes s.device)

-- The send mailbox holds the packet at its beginning.
abbrev pub Holds : List ℕ → Device → Type 0
Holds bytes d = take (packet_size bytes) d.send_mbx.content ≡ take (packet_size bytes) bytes

abbrev pub PutResult : List ℕ → System → Option (ℕ × System) → Type 0
PutResult bytes s none = Unit {0}
PutResult bytes s (some (code, s')) =
    let bit = s.device.send_mbx.bitoffset in
    ((s.device.send_mbx.mailbox_length < packet_size bytes)
      × (code ≡ dev_mailbox_too_short)
      × (s' ≡ s))
    ⊎ ((packet_size bytes ≤ s.device.send_mbx.mailbox_length)
        × (code ≡ dev_mailbox_full)
        × (agrees s'.device bit ≡ false)
        × ReachedBy s s'.device)
    ⊎ ((packet_size bytes ≤ s.device.send_mbx.mailbox_length)
        × (code ≡ no_error)
        × ((d : Device) × ReachedBy s d
            × (agrees d bit ≡ true)
            × (s'.device ≡ toggle_bit bit (fill_send bytes d))
            × Holds bytes s'.device))

-- A packet that is not smaller than it says is refused exactly if it does not fit the mailbox, without
-- any effect, and is not written while the mailbox is full. Else it is written while the mailbox is
-- free, the mailbox then holds it, and the bit is toggled once.
pub put_packet-PutResult :
    (bytes : List ℕ) (timeout : ℕ) (s : System)
    → packet_size bytes ≤ length bytes
    → PutResult bytes s (put_packet bytes timeout s)
unfolding put_packet toggle_bit
put_packet-PutResult bytes timeout s whole =
    elim (Bool-cases (ltb s.device.send_mbx.mailbox_length (packet_size bytes))) [
      | inl large ↦
          rw large
            (inl (ltb→lt s.device.send_mbx.mailbox_length (packet_size bytes) large, refl, refl))
      | inr fits ↦ rw fits (
          concluded (ground arith)
            (wait_for_bit_state s.device.send_mbx.bitoffset bitstate_equal timeout s)
            (wait_for_bit_state-Agreed s.device.send_mbx.bitoffset timeout s))
    ]
  where
    bit : ℕ
    bit = s.device.send_mbx.bitoffset

    held : (d : Device) → Holds bytes (fill_send bytes d)
    held d =
        take-append_self (packet_size bytes) bytes (drop (packet_size bytes) d.send_mbx.content)
          whole

    concluded :
        packet_size bytes ≤ s.device.send_mbx.mailbox_length
        → (o : Option (Bool × System)) → Agreed bit s o
        → PutResult bytes s (elim o [
          | none ↦ none
          | some (free, t) ↦
              (if free
                  then modify (λ d. toggle_bit bit (fill_send bytes d)) >> pure no_error
                  else pure dev_mailbox_full)
                t
        ])
    concluded fits none h = tt
    concluded fits (some (false, t)) (a, (n, e, f)) = inr (inl (fits, refl, a, (n, e)))
    concluded fits (some (true, t)) (a, (n, e, f)) =
        inr (inr (fits, refl, (t.device, (n, e), a, refl, held t.device)))

abbrev pub GetResult : ℕ → System → Option ((ℕ × List ℕ) × System) → Type 0
GetResult size s none = Unit {0}
GetResult size s (some ((code, bytes), s')) =
    let bit = s.device.recv_mbx.bitoffset in
    ((code ≡ dev_get_no_packet)
      × (bytes ≡ [])
      × (agrees s'.device bit ≡ true)
      × ReachedBy s s'.device)
    ⊎ ((d : Device) × ReachedBy s d
        × (agrees d bit ≡ false)
        × (s'.device ≡ toggle_bit bit (count_received d))
        × (agrees s'.device bit ≡ true)
        × (bytes ≡ take (min size (packet_size d.recv_mbx.content)) d.recv_mbx.content)
        × (code
            ≡ (if ltb size (packet_size d.recv_mbx.content) then buffer_too_short else no_error)))

received_agrees : (d : Device) (bit : ℕ) → agrees (count_received d) bit ≡ agrees d bit
unfolding agrees
received_agrees d bit = refl

-- Where no packet has arrived, nothing is read and the toolkit changes nothing. Else the caller gets
-- the packet in the mailbox, or as much of it as there is room for, with an error if that is not all,
-- and in both cases the mailbox is given back: the bit is toggled, so that the two sides agree.
pub get_packet-GetResult :
    (size timeout : ℕ) (s : System) → GetResult size s (get_packet size timeout s)
unfolding get_packet
get_packet-GetResult size timeout s =
    concluded (wait_for_bit_state bit bitstate_unequal timeout s)
      (wait_for_bit_state-Disagreed bit timeout s)
  where
    bit : ℕ
    bit = s.device.recv_mbx.bitoffset

    answer : List ℕ → ℕ × List ℕ
    answer content =
        if ltb size (packet_size content)
        then (buffer_too_short, take size content)
        else (no_error, take (packet_size content) content)

    given : (content : List ℕ) → (answer content).1 ≡ take (min size (packet_size content)) content
    given content = grind arith

    freed :
        (d : Device) → agrees d bit ≡ false → agrees (toggle_bit bit (count_received d)) bit ≡ true
    freed d e =
        ground (arith, (agrees-toggle_bit (count_received d) bit bit).0, received_agrees d bit)

    concluded :
        (o : Option (Bool × System))
        → Disagreed bit s o
        → GetResult size s (elim o [
          | none ↦ none
          | some (arrived, t) ↦
              (if arrived
                  then modify (λ d. toggle_bit bit (count_received d))
                    >> pure (answer t.device.recv_mbx.content)
                  else pure (dev_get_no_packet, []))
                t
        ])
    concluded none h = tt
    concluded (some (false, t)) (a, (n, e, f)) = inl (refl, refl, a, (n, e))
    concluded (some (true, t)) (a, (n, e, f)) =
        inr (
          t.device,
          (n, e),
          a,
          refl,
          freed t.device a,
          given t.device.recv_mbx.content,
          ground arith,
        )
