-- ===== src/Download/Delivery.antt =====
-- The outcome of `DownloadFile` for every device, by induction on the rounds of its loop.
use mathlib.Core.List.{append_assoc}
use nadrvlinux.Prelude.{
  ℕ, zero, suc, ◌+◌, ◌≤◌, ◌<◌, u32, Bool, true, false, Option, none, some, List, [], ◌∷◌, ◌++◌,
  length, take, drop, leb, if◌then◌else◌, ◌≡◌, ◌≢◌, refl, ap, subst₂, ◌∙◌, inl, inr, arith,
  length-drop, take_all,
}
use native.Mathlib.Decide.{ℕ_discrete}
use nadrvlinux.Codes.{no_error}
use nadrvlinux.Crc32.{create_crc32}
use nadrvlinux.Download.{
  Packet, Request, Reply, Download, sending, aborting, data_packet, abort_packet, after_data,
  after_abort, result_of, abort_step, step, rounds, seq_none, seq_first, seq_middle, seq_last,
}
use nadrvlinux.Download.Packets.{data_packets}
use nadrvlinux.Download.Progress.{
  continued, continued-stop, continued-go, recorded, IsSending, Outcome, rounds_at, data_round,
  data_step_lem,
}
use nadrvlinux.Download.Replies.{
  after_data_failed, after_data_last, after_data_more, after_data_counts,
}

module _ {W : Type 0} where
  -- A packet that opens a run belongs to what the run delivers.
  pub Outcome-cons :
      (log expected : List Packet) (p : Packet) (o : Option (Download × (W × List Packet)))
      → Outcome (log ++ p ∷ []) expected o
      → Outcome log (p ∷ expected) o
  Outcome-cons log expected p none o = o
  Outcome-cons log expected p (some (d, (w, log'))) (inl (good, clean, e)) =
      inl (good, clean, e ∙ append_assoc log (p ∷ []) expected)
  Outcome-cons log expected p (some (d, (w, log'))) (inr (bad, (k, e))) = inr (
    bad,
    (suc k, e ∙ append_assoc log (p ∷ []) (take k expected ++ abort_packet d.current_id ∷ [])),
  )

module _ {W : Type 0} (transfer : W → Packet → Reply × W) (q : Request) where
  -- One more round sends the abort request and ends the loop, whatever the answer is.
  aborted :
      (fuel : ℕ) (d : Download) (w : W) (log : List Packet)
      → d.state ≡ aborting
      → let id = u32 (d.current_id + 1) in
        let (r, w') = transfer w (abort_packet id) in
        rounds (recorded transfer) (suc fuel) q d (w, log)
        ≡ some (after_abort (record d { current_id = id }) r, (w', log ++ abort_packet id ∷ []))
  unfolding continued step abort_step after_abort recorded
  aborted fuel d w log e = rounds_at (recorded transfer) q fuel d aborting (w, log) e

  -- After a refused packet: its error is kept, and the abort request closes the log.
  pub failed :
      (fuel : ℕ) (d : Download) (w : W) (log expected : List Packet) (k : ℕ)
      → d.state ≡ aborting
      → d.ret ≢ no_error
      → Outcome log expected (rounds (recorded transfer) (suc fuel) q d (w, log ++ take k expected))
  unfolding after_abort
  failed fuel d w log expected k e bad = rw (aborted fuel d w (log ++ take k expected) e) (
      inr
        (bad, (k, append_assoc log (take k expected) (abort_packet (u32 (d.current_id + 1)) ∷ []))))

  -- The round that sends `p`.
  answered : Download → W → List Packet → Packet → Download × (W × List Packet)
  answered d w log p = let (r, w') = transfer w p in (after_data q d r, (w', log ++ p ∷ []))

  -- What the counters are while a packet is with the device.
  abbrev sent : Download → List ℕ → Download
  sent d bytes = record d {
    current_id = u32 (d.current_id + 1);
    crc = create_crc32 0 (some bytes);
    block_number = u32 (d.block_number + 1);
  }

  sending_round :
      (fuel : ℕ) (d : Download) (w : W) (log : List Packet) (size : ℕ) (first : Bool)
      (before rest : List ℕ) (p : Packet)
      → IsSending q d size first before rest
      → data_packet
          (u32 (d.current_id + 1))
          d.cmd_data_state
          d.block_number
          (create_crc32 0 (some (before ++ take d.send_len rest)))
          d.send_len
          (take d.send_len rest)
        ≡ p
      → rounds (recorded transfer) (suc fuel) q d (w, log)
        ≡ continued
            (recorded transfer)
            q
            fuel
            (answered (sent d (before ++ take d.send_len rest)) w log p)
  unfolding step data_round recorded answered
  sending_round fuel d w log size first before rest p s e =
      rounds_at (recorded transfer) q fuel d sending (w, log) s.sending_state
      ∙ ap (continued (recorded transfer) q fuel) (
          data_step_lem (recorded transfer) q d (w, log) size first before rest s
          ∙ ap (answered (sent d (before ++ take d.send_len rest)) w log) e)

  -- The run after a packet that the device refuses.
  refused_round :
      (fuel : ℕ) (d : Download) (w : W) (log expected : List Packet) (p : Packet)
      → 0 < fuel
      → d.stop_download ≡ false
      → result_of (transfer w p).0 ≢ no_error
      → Outcome log (p ∷ expected) (continued (recorded transfer) q fuel (answered d w log p))
  unfolding answered
  refused_round zero d w log expected p pos running bad = absurd (omega arith)
  refused_round (suc fuel) d w log expected p pos running bad =
      let (state, ret, stop) = after_data_failed q d (transfer w p).0 bad running in
      rw
        (continued-go (recorded transfer) q (suc fuel) (after_data q d (transfer w p).0)
          ((transfer w p).1, log ++ p ∷ []) stop)
        (failed fuel (after_data q d (transfer w p).0) (transfer w p).1 log (p ∷ expected) 1 state
          (rw ret bad))

  last_round :
      (fuel : ℕ) (d : Download) (w : W) (log : List Packet) (p : Packet) (first : Bool)
      → 0 < fuel
      → d.stop_download ≡ false
      → d.cmd_data_state ≡ (if first then seq_none else seq_last)
      → d.ret_abort ≡ no_error
      → Outcome log (p ∷ []) (continued (recorded transfer) q fuel (answered d w log p))
  unfolding answered
  last_round fuel d w log p first pos running ext clean =
      elim (ℕ_discrete (result_of (transfer w p).0) no_error) [
        | yes good ↦
            let (ret, kept, stop) = after_data_last q d (transfer w p).0 first good ext clean in
            rw
              (continued-stop (recorded transfer) q fuel (after_data q d (transfer w p).0)
                ((transfer w p).1, log ++ p ∷ []) stop)
              (inl (ret, kept, refl))
        | no bad ↦ refused_round fuel d w log [] p pos running bad
      ]

  -- The run after a packet that the device takes, with more to come.
  accepted_round :
      (fuel : ℕ) (d : Download) (w : W) (log expected : List Packet) (p : Packet)
      → let d' = after_data q d (transfer w p).0 in
        d'.stop_download ≡ false
        → Outcome
            (log ++ p ∷ [])
            expected
            (rounds (recorded transfer) fuel q d' ((transfer w p).1, log ++ p ∷ []))
        → Outcome log (p ∷ expected) (continued (recorded transfer) q fuel (answered d w log p))
  unfolding answered
  accepted_round fuel d w log expected p running rest =
      let d' = after_data q d (transfer w p).0 in
      rw (continued-go (recorded transfer) q fuel d' ((transfer w p).1, log ++ p ∷ []) running) (
        Outcome-cons log expected p
          (rounds (recorded transfer) fuel q d' ((transfer w p).1, log ++ p ∷ [])) rest)

  pub delivers :
      (fuel steps : ℕ) (d : Download) (w : W) (log : List Packet) (size : ℕ) (first : Bool)
      (before rest : List ℕ)
      → IsSending q d size first before rest
      → length rest + 1 < fuel
      → length rest < steps
      → Outcome log
          (data_packets steps size (u32 (d.current_id + 1)) d.block_number first before rest)
          (rounds (recorded transfer) fuel q d (w, log))
  unfolding data_packets
  delivers zero steps d w log size first before rest s enough room = absurd (omega arith)
  delivers (suc fuel) zero d w log size first before rest s enough room = absurd (omega arith)
  delivers (suc fuel) (suc steps) d w log size first before rest s enough room = elim s.block [
    | inl (fits, len, ext) ↦
        let p =
          data_packet (u32 (d.current_id + 1)) (if first then seq_none else seq_last) d.block_number
            (create_crc32 0 (some (before ++ rest))) (length rest) rest in
        rw
          (le→leb fits, sending_round fuel d w log size first before rest p s (last_packet len ext))
          (last_round fuel (sent d (before ++ take d.send_len rest)) w log p first (omega arith)
            s.running ext s.no_abort)
    | inr (more, len, ext) ↦
        let p =
          data_packet (u32 (d.current_id + 1)) (if first then seq_first else seq_middle)
            d.block_number (create_crc32 0 (some (before ++ take size rest))) size
            (take size rest) in
        rw
          (
            lt→not_leb more,
            sending_round fuel d w log size first before rest p s (next_packet len ext),
          )
          (elim (ℕ_discrete (result_of (transfer w p).0) no_error) [
            | yes good ↦
                let d' = after_data q (sent d (before ++ take d.send_len rest)) (transfer w p).0 in
                let w' = (transfer w p).1 in
                let s' : IsSending q d' size false (before ++ take size rest) (drop size rest) =
                  after_data_more q (sent d (before ++ take d.send_len rest)) (transfer w p).0 size
                    first before rest good ext s.sending_state s.running s.no_abort s.whole s.small
                    s.size_pos s.offset s.transfered
                    (ap (λ n. create_crc32 0 (some (before ++ take n rest))) len) more len in
                let (same_id, same_block) =
                  after_data_counts q (sent d (before ++ take d.send_len rest)) (transfer w p).0 in
                accepted_round fuel (sent d (before ++ take d.send_len rest)) w log
                  (data_packets steps size (u32 (u32 (d.current_id + 1) + 1))
                    (u32 (d.block_number + 1)) false (before ++ take size rest) (drop size rest))
                  p s'.running
                  (subst₂
                    (λ id block.
                      Outcome (log ++ p ∷ [])
                        (data_packets steps size (u32 (id + 1)) block false
                          (before ++ take size rest) (drop size rest))
                        (rounds (recorded transfer) fuel q d' (w', log ++ p ∷ [])))
                    same_id same_block
                    (delivers fuel steps d' w' (log ++ p ∷ []) size false (before ++ take size rest)
                      (drop size rest) s' (shorter s.size_pos more)
                      (shorter_steps s.size_pos more)))
            | no bad ↦
                refused_round fuel (sent d (before ++ take d.send_len rest)) w log _ p (omega arith)
                  s.running bad
          ])
  ]
    where
      le→leb : length rest ≤ size → leb (length rest) size ≡ true
      le→leb h = ground arith

      lt→not_leb : size < length rest → leb (length rest) size ≡ false
      lt→not_leb h = ground arith

      last_packet :
          d.send_len ≡ length rest
          → d.cmd_data_state ≡ (if first then seq_none else seq_last)
          → data_packet
              (u32 (d.current_id + 1))
              d.cmd_data_state
              d.block_number
              (create_crc32 0 (some (before ++ take d.send_len rest)))
              d.send_len
              (take d.send_len rest)
            ≡ data_packet
                (u32 (d.current_id + 1))
                (if first then seq_none else seq_last)
                d.block_number
                (create_crc32 0 (some (before ++ rest)))
                (length rest)
                rest
      last_packet len ext =
          cc (ap (λ n. take n rest) len, take_all (length rest) rest (omega arith))

      next_packet :
          d.send_len ≡ size
          → d.cmd_data_state ≡ (if first then seq_first else seq_middle)
          → data_packet
              (u32 (d.current_id + 1))
              d.cmd_data_state
              d.block_number
              (create_crc32 0 (some (before ++ take d.send_len rest)))
              d.send_len
              (take d.send_len rest)
            ≡ data_packet
                (u32 (d.current_id + 1))
                (if first then seq_first else seq_middle)
                d.block_number
                (create_crc32 0 (some (before ++ take size rest)))
                size
                (take size rest)
      next_packet len ext = cc

      shorter : 0 < size → size < length rest → length (drop size rest) + 1 < fuel
      shorter pos more = omega (arith, length-drop size rest)

      shorter_steps : 0 < size → size < length rest → length (drop size rest) < steps
      shorter_steps pos more = omega (arith, length-drop size rest)
