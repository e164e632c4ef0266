-- ===== src/Boot/Rounds.antt =====
-- What the rounds of a download leave in the mailbox of the boot loader.
use mathlib.Core.List.{append_assoc}
use nadrvlinux.Prelude.{
  ℕ, zero, suc, ◌+◌, ◌*◌, u32, take, drop, ◌≤◌, Bool, true, false, Option, none, some, List, [],
  ◌∷◌, ◌++◌, length, ◌≡◌, ◌≢◌, refl, sym, ap, ◌∙◌, ◌⊎◌, inl, inr, arith,
}
use nadrvlinux.Codes.{no_error}
use nadrvlinux.Crc32.{create_crc32}
use nadrvlinux.Boot.{BootSystem, transfer_packet}
use nadrvlinux.Boot.Wire.{Line, wire, transfer_on, max_packet_size, to_send_packet}
use nadrvlinux.Boot.Transfer.{posted_bytes}
use nadrvlinux.Boot.Polling.{Steady, Reaches, Alive}
use nadrvlinux.Boot.Liveness.{Onward, transfer_packet-Onward}
use nadrvlinux.Download.{
  Packet, Reply, Request, Download, State, requesting, sending, aborting, step, rounds,
  request_step, data_step, abort_step, request_packet, data_packet, abort_packet, after_request,
  after_data, after_abort, result_of,
}
use nadrvlinux.Download.Progress.{recorded}

abbrev pub wires : List Packet → List (List ℕ)
wires [] = []
wires (p ∷ ps) = posted_bytes (wire p) ∷ wires ps

wires-append : (ps qs : List Packet) → wires (ps ++ qs) ≡ wires ps ++ wires qs
wires-append [] qs = refl
wires-append (p ∷ ps) qs =
    ap (λ (x : List (List ℕ)). posted_bytes (wire p) ∷ x) (wires-append ps qs)

-- The time that one transfer takes at most.
abbrev pub spell : ℕ → ℕ
spell gap = 2 * to_send_packet + 6 * gap

next_round :
    (clock fuel time limit : ℕ)
    → clock + suc fuel * time ≤ limit
    → (clock + time ≤ limit) × (clock + time + fuel * time ≤ limit)
next_round clock fuel time limit h = (omega arith, omega arith)

module _ (gap limit : ℕ) (before : List (List ℕ)) where
  -- The card goes on until the limit.
  abbrev Going : ℕ → BootSystem → Type 0
  Going clock s = (last : ℕ) × (last ≤ clock) × Steady gap last s.polls × Reaches limit s.polls

  -- What was posted since `before` are the packets of the log, or the download is being aborted, with an
  -- error.
  abbrev LineSound : ℕ → Download → Line → List Packet → Type 0
  LineSound clock d none log = ⊥
  LineSound clock d (some (s, received)) log =
      Going clock s × ((s.posted ≡ before ++ wires log) ⊎ (d.state ≡ aborting))

  abbrev Sound : ℕ → Download → Line × List Packet → Type 0
  Sound clock d (line, log) = (d.state ≡ aborting → d.ret ≢ no_error) × LineSound clock d line log

  -- One packet on the line: it is posted as well, or its reply is an error.
  abbrev Replies : ℕ → List Packet → Reply × Line → Type 0
  Replies clock log (r, none) = ⊥
  Replies clock log (r, some (s, received)) =
      Going clock s × ((s.posted ≡ before ++ wires log) ⊎ (r.ret ≢ no_error))

  transfer_on-Replies :
      (clock : ℕ) (log : List Packet) (d : Download) (line : Line) (p : Packet)
      → clock + spell gap ≤ limit
      → LineSound clock d line log
      → (d.state ≢ aborting → Replies (clock + spell gap) (log ++ p ∷ []) (transfer_on line p))
        × (d.state ≡ aborting
            → LineSound (clock + spell gap) d (transfer_on line p).1 (log ++ p ∷ []))
  unfolding transfer_on
  transfer_on-Replies clock log d none p enough sound = absurd sound
  transfer_on-Replies clock log d (some (s, received)) p enough
        ((last, low, steady, reaches), sound) =
      told (transfer_packet (wire p) received max_packet_size to_send_packet s) (
        transfer_packet-Onward (wire p) received max_packet_size to_send_packet gap limit last s
          (omega (arith, low, enough)) steady reaches)
    where
      late : ℕ
      late = last + 2 * to_send_packet + 6 * gap

      more :
          s.posted ≡ before ++ wires log
          → s.posted ++ posted_bytes (wire p) ∷ [] ≡ before ++ wires (log ++ p ∷ [])
      more e =
          ap (λ (x : List (List ℕ)). x ++ posted_bytes (wire p) ∷ []) e
          ∙ append_assoc before (wires log) (posted_bytes (wire p) ∷ [])
          ∙ ap (λ (x : List (List ℕ)). before ++ x) (sym (wires-append log (p ∷ [])))

      going :
          (q : List (List ℕ)) (s' : BootSystem)
          → Alive gap limit 0 late (length s'.polls) q s'
          → Going (clock + spell gap) s'
      going q s' a = (a.last, omega (arith, a.not_after, low), a.steady, a.reaches)

      not_stopped : d.state ≢ aborting → s.posted ≡ before ++ wires log
      not_stopped run = elim sound [ inl e ↦ e | inr stop ↦ absurd (run stop) ]

      told :
          (o : Option ((ℕ × List ℕ) × BootSystem))
          → Onward gap limit late s.posted (wire p) o
          → let x = elim o as (λ x. Reply × Line) [
            | none ↦ (
              record { ret = nadrvlinux.Codes.transfer_timeout; sta = 0; max_block_size = 0 },
              none,
            )
            | some ((code, got), s') ↦ (
              record {
                ret = code;
                sta = nadrvlinux.Boot.packet_sta got;
                max_block_size = nadrvlinux.Boot.word_at got 40;
              },
              some (s', got),
            )
          ] in
            (d.state ≢ aborting → Replies (clock + spell gap) (log ++ p ∷ []) x)
            × (d.state ≡ aborting → LineSound (clock + spell gap) d x.1 (log ++ p ∷ []))
      told none e = absurd e
      told (some ((code, got), s')) (inl (answer, a)) = (
        λ run. (going _ s' a, inl (a.posts ∙ more (not_stopped run))),
        λ stop. (going _ s' a, inr stop),
      )
      told (some ((code, got), s')) (inr (bad, a)) =
          (λ run. (going _ s' a, inr bad), λ stop. (going _ s' a, inr stop))

  after_request-Sound :
      (clock : ℕ) (q : Request) (d : Download) (r : Reply) (line : Line) (log : List Packet)
      → Replies clock log (r, line)
      → Sound clock (after_request q d r) (line, log)
  unfolding after_request result_of
  after_request-Sound clock q d r none log h = absurd h
  after_request-Sound clock q d r (some (s, received)) log (going, inl posts) =
      (ground arith, (going, inl posts))
  after_request-Sound clock q d r (some (s, received)) log (going, inr bad) =
      (ground arith, (going, inr (ground (arith, bad))))

  after_data-Sound :
      (clock : ℕ) (q : Request) (d : Download) (r : Reply) (line : Line) (log : List Packet)
      → d.state ≡ sending
      → Replies clock log (r, line)
      → Sound clock (after_data q d r) (line, log)
  unfolding after_data result_of
  after_data-Sound clock q d r none log e h = absurd h
  after_data-Sound clock q d r (some (s, received)) log e (going, inl posts) =
      (ground (arith, e), (going, inl posts))
  after_data-Sound clock q d r (some (s, received)) log e (going, inr bad) =
      (ground (arith, e), (going, inr (ground (arith, bad))))

  step-Sound :
      (clock : ℕ) (q : Request) (d : Download) (line : Line) (log : List Packet) (st : State)
      → clock + spell gap ≤ limit
      → d.state ≡ st
      → Sound clock d (line, log)
      → let y = step (recorded transfer_on) st q d (line, log) in Sound (clock + spell gap) y.0 y.1
  unfolding step request_step data_step abort_step recorded after_abort
  step-Sound clock q d line log requesting enough e (bad, sound) =
      let d' = record d { current_id = u32 (d.current_id + 1) } in
      let p = request_packet q d'.current_id d.cmd_data_state d.max_data_length in
      let answer = transfer_on line p in
      after_request-Sound (clock + spell gap) q d' answer.0 answer.1 (log ++ p ∷ [])
        ((transfer_on-Replies clock log d line p enough sound).0 (λ f. cc))
  step-Sound clock q d line log sending enough e (bad, sound) =
      let bytes = take d.send_len (drop d.current_offset q.file) in
      let d' = record d {
        current_id = u32 (d.current_id + 1);
        crc = create_crc32 d.crc (some bytes);
        block_number = u32 (d.block_number + 1);
      } in
      let p = data_packet d'.current_id d.cmd_data_state d.block_number d'.crc d.send_len bytes in
      let answer = transfer_on line p in
      after_data-Sound (clock + spell gap) q d' answer.0 answer.1 (log ++ p ∷ []) e
        ((transfer_on-Replies clock log d line p enough sound).0 (λ f. cc))
  step-Sound clock q d line log aborting enough e (bad, sound) =
      let p = abort_packet (u32 (d.current_id + 1)) in
      let d' = record d { current_id = u32 (d.current_id + 1) } in
      (
        bad,
        stopped (after_abort d' (transfer_on line p).0) e (transfer_on line p).1
            ((transfer_on-Replies clock log d line p enough sound).1 e),
      )
    where
      stopped :
          (d2 : Download)
          → d2.state ≡ aborting
          → (line2 : Line)
          → LineSound
              (clock + spell gap)
              d
              line2
              (log ++ abort_packet (u32 (d.current_id + 1)) ∷ [])
          → LineSound
              (clock + spell gap)
              d2
              line2
              (log ++ abort_packet (u32 (d.current_id + 1)) ∷ [])
      stopped d2 e2 none h = h
      stopped d2 e2 (some (s, received)) (going, h) = (going, inr e2)

  -- How a run leaves the line.
  abbrev pub EndSound : ℕ → Option (Download × (Line × List Packet)) → Type 0
  EndSound clock none = Unit {0}
  EndSound clock (some (d, w)) = Sound clock d w

  pub rounds-EndSound :
      (fuel clock : ℕ) (q : Request) (d : Download) (line : Line) (log : List Packet)
      → clock + fuel * spell gap ≤ limit
      → Sound clock d (line, log)
      → EndSound limit (rounds (recorded transfer_on) fuel q d (line, log))
  unfolding rounds
  rounds-EndSound zero clock q d line log enough h = tt
  rounds-EndSound (suc fuel) clock q d line log enough h =
      let y = step (recorded transfer_on) d.state q d (line, log) in
      decided y.0.stop_download y (step-Sound clock q d line log d.state fits.0 refl h)
        (λ d' line' log' h'. rounds-EndSound fuel (clock + spell gap) q d' line' log' fits.1 h')
    where
      fits : (clock + spell gap ≤ limit) × (clock + spell gap + fuel * spell gap ≤ limit)
      fits = next_round clock fuel (spell gap) limit enough

      later :
          (d' : Download) (line' : Line) (log' : List Packet)
          → Sound (clock + spell gap) d' (line', log')
          → Sound limit d' (line', log')
      later d' none log' (bad, h) = absurd h
      later d' (some (s, received)) log' (bad, ((last, low, steady, reaches), h)) =
          (bad, ((last, omega (arith, low, fits.0), steady, reaches), h))

      decided :
          (b : Bool) (y : Download × (Line × List Packet))
          → Sound (clock + spell gap) y.0 y.1
          → ((d' : Download) (line' : Line) (log' : List Packet)
              → Sound (clock + spell gap) d' (line', log')
              → EndSound limit (rounds (recorded transfer_on) fuel q d' (line', log')))
          → EndSound limit (elim b as (λ b. Option (Download × (Line × List Packet))) [
            | true ↦ some y
            | false ↦ rounds (recorded transfer_on) fuel q y.0 y.1
          ])
      decided true (d', (line', log')) sound rest = later d' line' log' sound
      decided false (d', (line', log')) sound rest = rest d' line' log' sound
