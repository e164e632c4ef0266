-- ===== src/Boot/Transfer.antt =====
-- Putting a packet into the boot loader's mailbox and getting one from it.
use nadrvlinux.Prelude.{
  ℕ, ◌+◌, ◌≤◌, Bool, true, false, not, Option, none, some, List, [], ◌∷◌, ◌++◌, take, ltb,
  if◌then◌else◌, ◌≡◌, ◌≢◌, refl, ap, ◌⊎◌, inl, inr, arith,
}
use nadrvlinux.Prelude.Bits.{is_set}
use nadrvlinux.Codes.{
  no_error, dev_mailbox_full, dev_not_ready, dev_mailbox_too_short, dev_get_no_packet,
  buffer_too_short,
}
use nadrvlinux.Mailbox.{packet_size}
use nadrvlinux.Boot.{
  BootDpm, BootSystem, B, done, ◌>>=◌, ◌>>◌, post, change, acknowledge, copied_to, the_dpm,
  wait_for_bit_state_poll, put_packet_bl, get_packet_bl, system_mailbox_size, nsf_ready,
  hsf_send_mbx_cmd, hsf_recv_mbx_ack, flags_equal, flags_not_equal,
}
use nadrvlinux.Boot.Polling.{Alive, Alive-later, wait-Then}

-- The packet as it stands in the mailbox.
abbrev pub posted_bytes : List ℕ → List ℕ
posted_bytes bytes = take (packet_size bytes) bytes

-- What was posted before, and this packet exactly if there is no error.
abbrev pub Put : List (List ℕ) → List ℕ → ℕ → List (List ℕ) → Type 0
Put q bytes code q' =
    ((code ≡ no_error) × (q' ≡ q ++ posted_bytes bytes ∷ [])) ⊎ ((code ≢ no_error) × (q' ≡ q))

module _ {A : Type 0} (P : Option (A × BootSystem) → Type 0) (gap limit floor clock n : ℕ)
    (q : List (List ℕ)) (s : BootSystem) (a : Alive gap limit floor clock n q s) where
  pub put_packet-Then :
      (bytes : List ℕ) (timeout : ℕ) (k : ℕ → B A)
      → clock + gap + timeout + gap ≤ limit
      → ((code : ℕ) (q' : List (List ℕ)) (s' : BootSystem)
          → Put q bytes code q'
          → Alive gap limit floor (clock + gap + timeout + gap) n q' s'
          → P (k code s'))
      → P ((put_packet_bl bytes timeout >>= k) s)
  unfolding put_packet_bl
  put_packet-Then bytes timeout k h f =
      decided (not (is_set s.dpm.netx_flags nsf_ready))
        (ltb system_mailbox_size (packet_size bytes))
    where
      now : Alive gap limit floor (clock + gap + timeout + gap) n q s
      now =
          Alive-later gap limit floor clock (clock + gap + timeout + gap) n n q s (omega arith)
            (omega arith) a

      ended : Option (ℕ × BootSystem) → Option (A × BootSystem)
      ended o = elim o as (λ x. Option (A × BootSystem)) [ none ↦ none | some x ↦ k x.0 x.1 ]

      sent : Bool → B ℕ
      sent free = if free then post bytes >> done no_error else done dev_mailbox_full

      told :
          (ok : Bool) (s' : BootSystem)
          → Alive gap limit floor (clock + gap + timeout + gap) n q s'
          → P (ended (sent ok s'))
      told true s' b = f no_error (q ++ posted_bytes bytes ∷ []) _ (inl (refl, refl)) (record {
        last = b.last;
        not_before = b.not_before;
        not_after = b.not_after;
        steady = b.steady;
        reaches = b.reaches;
        left = b.left;
        posts = ap (λ (x : List (List ℕ)). x ++ posted_bytes bytes ∷ []) b.posts;
      })
      told false s' b = f dev_mailbox_full q s' (inr (ground arith, refl)) b

      decided :
          (x y : Bool)
          → P (
              ended (
                (if x
                    then done dev_not_ready
                    else if y
                    then done dev_mailbox_too_short
                    else (wait_for_bit_state_poll hsf_send_mbx_cmd flags_equal timeout >>= sent))
                  s))
      decided true y = f dev_not_ready q s (inr (ground arith, refl)) now
      decided false true = f dev_mailbox_too_short q s (inr (ground arith, refl)) now
      decided false false =
          wait-Then hsf_send_mbx_cmd flags_equal timeout sent (λ o. P (ended o)) gap limit floor
            clock n q s h a (λ ok s' e b. told ok s' b)

  pub get_packet-Then :
      (old : List ℕ) (size timeout : ℕ) (k : ℕ × List ℕ → B A)
      → clock + gap + timeout + gap ≤ limit
      → ((got : ℕ × List ℕ) (s' : BootSystem)
          → Alive gap limit floor (clock + gap + timeout + gap) n q s'
          → P (k got s'))
      → P ((get_packet_bl old size timeout >>= k) s)
  unfolding get_packet_bl
  get_packet-Then old size timeout k h f = decided (not (is_set s.dpm.netx_flags nsf_ready))
    where
      now : Alive gap limit floor (clock + gap + timeout + gap) n q s
      now =
          Alive-later gap limit floor clock (clock + gap + timeout + gap) n n q s (omega arith)
            (omega arith) a

      ended : Option ((ℕ × List ℕ) × BootSystem) → Option (A × BootSystem)
      ended o = elim o as (λ x. Option (A × BootSystem)) [ none ↦ none | some x ↦ k x.0 x.1 ]

      answer : BootDpm → ℕ × List ℕ
      answer d =
          if ltb size (packet_size d.recv_mbx)
          then (buffer_too_short, copied_to old size d.recv_mbx)
          else (no_error, copied_to old (packet_size d.recv_mbx) d.recv_mbx)

      taken : Bool → B (ℕ × List ℕ)
      taken arrived = the_dpm >>= λ d'.
          if arrived then change acknowledge >> done (answer d') else done (dev_get_no_packet, old)

      told :
          (ok : Bool) (s' : BootSystem)
          → Alive gap limit floor (clock + gap + timeout + gap) n q s'
          → P (ended (taken ok s'))
      told true s' b =
          f (answer s'.dpm) (record s' { dpm = acknowledge s'.dpm })
            (record {
              last = b.last;
              not_before = b.not_before;
              not_after = b.not_after;
              steady = b.steady;
              reaches = b.reaches;
              left = b.left;
              posts = b.posts;
            })
      told false s' b = f (dev_get_no_packet, old) s' b

      decided :
          (x : Bool)
          → P (
              ended (
                (if x
                    then done (dev_not_ready, old)
                    else (wait_for_bit_state_poll hsf_recv_mbx_ack flags_not_equal timeout
                        >>= taken))
                  s))
      decided true = f (dev_not_ready, old) s now
      decided false =
          wait-Then hsf_recv_mbx_ack flags_not_equal timeout taken (λ o. P (ended o)) gap limit
            floor clock n q s h a (λ ok s' e b. told ok s' b)
