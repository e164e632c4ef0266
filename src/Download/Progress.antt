-- ===== src/Download/Progress.antt =====
-- A run of `DownloadFile`, with the packets that it transfers recorded.
use nadrvlinux.Prelude.{
  ℕ, suc, ◌+◌, ◌^◌, ◌≤◌, ◌<◌, u32, Bool, true, false, Option, none, some, List, [], ◌∷◌, ◌++◌,
  length, take, drop, if◌then◌else◌, ◌≡◌, ◌≢◌, sym, ap, ap₂, ◌∙◌, ◌⊎◌, drop-append,
}
use nadrvlinux.Codes.{no_error}
use nadrvlinux.Crc32.{create_crc32}
use nadrvlinux.Crc32.Laws.{create_crc32-append}
use nadrvlinux.Download.{
  Packet, Request, Reply, Download, State, sending, data_packet, abort_packet, after_data,
  data_step, step, rounds, seq_none, seq_first, seq_middle, seq_last,
}

-- The transfer of one packet, with a log of the packets.
unfoldable pub recorded :
    {W : Type 0} → (W → Packet → Reply × W) → W × List Packet → Packet → Reply × (W × List Packet)
recorded transfer (w, log) p = let (r, w') = transfer w p in (r, (w', log ++ p ∷ []))

-- The state while data is sent: `before` is with the device, `rest` is to come.
pub record IsSending (q : Request) (d : Download) (size : ℕ) (first : Bool) (before rest : List ℕ)
    : Type 0 where
  pub sending_state : d.state ≡ sending
  pub running : d.stop_download ≡ false
  pub no_abort : d.ret_abort ≡ no_error
  pub whole : before ++ rest ≡ q.file
  pub small : length q.file + size ≤ 2 ^ 32
  pub size_pos : 0 < size
  pub offset : d.current_offset ≡ length before
  pub transfered : d.transfered_length ≡ length before
  pub checksum : d.crc ≡ create_crc32 0 (some before)
  pub block :
      ((length rest ≤ size)
        × (d.send_len ≡ length rest)
        × (d.cmd_data_state ≡ (if first then seq_none else seq_last)))
      ⊎ ((size < length rest)
          × (d.send_len ≡ size)
          × (d.cmd_data_state ≡ (if first then seq_first else seq_middle)))

module _ {W : Type 0} where
  -- What a run may end in: all packets and no error, or an error, with the packets up to it and
  -- one abort request behind them.
  abbrev pub Outcome : List Packet → List Packet → Option (Download × (W × List Packet)) → Type 0
  Outcome log expected none = ⊥
  Outcome log expected (some (d, (w, log'))) =
      ((d.ret ≡ no_error) × (d.ret_abort ≡ no_error) × (log' ≡ log ++ expected))
      ⊎ ((d.ret ≢ no_error)
          × ((k : ℕ) × (log' ≡ log ++ (take k expected ++ abort_packet d.current_id ∷ []))))

module _ {W : Type 0} (transfer : W → Packet → Reply × W) (q : Request) where
  -- What follows a round: the loop ends, or goes on.
  unfoldable pub continued : ℕ → Download × W → Option (Download × W)
  continued fuel (d, w) = elim d.stop_download [
    | true ↦ some (d, w)
    | false ↦ rounds transfer fuel q d w
  ]

  pub continued-stop :
      (fuel : ℕ) (d : Download) (w : W)
      → d.stop_download ≡ true
      → continued fuel (d, w) ≡ some (d, w)
  unfolding continued
  continued-stop fuel d w e = simp e

  pub continued-go :
      (fuel : ℕ) (d : Download) (w : W)
      → d.stop_download ≡ false
      → continued fuel (d, w) ≡ rounds transfer fuel q d w
  unfolding continued
  continued-go fuel d w e = simp e

  pub rounds_at :
      (fuel : ℕ) (d : Download) (st : State) (w : W)
      → d.state ≡ st
      → rounds transfer (suc fuel) q d w ≡ continued fuel (step transfer st q d w)
  unfolding rounds continued
  rounds_at fuel d st w e = ap (λ st. continued fuel (step transfer st q d w)) e

  sent_bytes :
      (d : Download) (size : ℕ) (first : Bool) (before rest : List ℕ)
      → IsSending q d size first before rest
      → take d.send_len (drop d.current_offset q.file) ≡ take d.send_len rest
  sent_bytes d size first before rest s =
      ap (take d.send_len) (ap₂ drop s.offset (sym s.whole) ∙ drop-append before rest)

  sent_crc :
      (d : Download) (size : ℕ) (first : Bool) (before rest : List ℕ)
      → IsSending q d size first before rest
      → create_crc32 d.crc (some (take d.send_len rest))
        ≡ create_crc32 0 (some (before ++ take d.send_len rest))
  sent_crc d size first before rest s =
      ap (λ c. create_crc32 c (some (take d.send_len rest))) s.checksum
      ∙ create_crc32-append 0 before (take d.send_len rest)

  -- The round of a data packet, with the packet's bytes and checksum given.
  unfoldable pub data_round : Download → W → List ℕ → ℕ → Download × W
  unfolding data_packet
  data_round d w bytes crc =
      let id = u32 (d.current_id + 1) in
      let (r, w') =
        transfer w (data_packet id d.cmd_data_state d.block_number crc d.send_len bytes) in
      (
        after_data q
            (record d { current_id = id; crc = crc; block_number = u32 (d.block_number + 1) }) r,
        w',
      )

  pub data_step_lem :
      (d : Download) (w : W) (size : ℕ) (first : Bool) (before rest : List ℕ)
      → IsSending q d size first before rest
      → data_step transfer q d w
        ≡ data_round d w
            (take d.send_len rest)
            (create_crc32 0 (some (before ++ take d.send_len rest)))
  unfolding data_step data_round
  data_step_lem d w size first before rest s =
      ap (λ bytes. data_round d w bytes (create_crc32 d.crc (some bytes)))
        (sent_bytes d size first before rest s)
      ∙ ap (data_round d w (take d.send_len rest)) (sent_crc d size first before rest s)
