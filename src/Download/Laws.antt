-- ===== src/Download/Laws.antt =====
-- What `DownloadFile` does with a file, for every device.
use nadrvlinux.Prelude.{
  ℕ, suc, ◌+◌, ◌-◌, ◌^◌, ◌≤◌, ◌<◌, u32, sub32, true, false, not, Option, none, some, List, [], ◌∷◌,
  ◌++◌, length, take, ltb, ◌==◌, if◌then◌else◌, ◌≡◌, ◌≢◌, refl, ap, subst₂, ◌∙◌, ◌⊎◌, inl, inr,
  arith,
}
use native.Mathlib.Decide.{ℕ_discrete}
use nadrvlinux.Codes.{no_error}
use nadrvlinux.Crc32.Laws.{create_crc32_empty}
use nadrvlinux.Download.{
  Packet, Request, Reply, Download, requesting, aborting, start, request_packet, abort_packet,
  after_request, result_of, request_step, step, rounds, download_file, seq_none,
}
use nadrvlinux.Download.Packets.{data_packets}
use nadrvlinux.Download.Progress.{recorded, IsSending, Outcome, rounds_at, continued, continued-go}
use nadrvlinux.Download.Delivery.{Outcome-cons, failed, delivers}

-- The packets of a complete download, in blocks of `size`.
unfoldable pub all_packets : Request → ℕ → List Packet
all_packets q size =
    request_packet q 1 seq_none (q.mailbox_size - 48)
    ∷ data_packets (length q.file + 1) size 2 0 true [] q.file

-- A run ends, either with no error and all packets sent, or with an error and an abort request
-- behind the packets sent so far.
abbrev pub Delivered : {W : Type 0} → List Packet → Option (ℕ × (W × List Packet)) → Type 0
Delivered expected none = ⊥
Delivered expected (some (ret, (w, log))) =
    ((ret ≡ no_error) × (log ≡ expected))
    ⊎ ((ret ≢ no_error) × ((k n : ℕ) × (log ≡ take k expected ++ abort_packet n ∷ [])))

abbrev block_size : Request → Reply → ℕ
block_size q r =
    if ltb r.max_block_size (q.mailbox_size - 48) then r.max_block_size else q.mailbox_size - 48

asked : Request → Download
unfolding start
asked q = record (start q) { current_id = 1 }

module _ (q : Request) (r : Reply) (roomy : 48 < q.mailbox_size)
    (bounded : length q.file + q.mailbox_size ≤ 2 ^ 32) where
  after_request_failed :
      (result_of r ≢ no_error) ⊎ (r.max_block_size ≡ 0)
      → let d = after_request q (asked q) r in
        (d.state ≡ aborting) × (d.ret ≢ no_error) × (d.stop_download ≡ false)
  unfolding after_request asked
  after_request_failed bad = ground arith

  after_request_counts :
      let d = after_request q (asked q) r in (d.current_id ≡ 1) × (d.block_number ≡ 0)
  unfolding after_request asked
  after_request_counts = ground arith

  after_request-IsSending :
      result_of r ≡ no_error
      → r.max_block_size ≢ 0
      → IsSending q (after_request q (asked q) r) (block_size q r) true [] q.file
  unfolding after_request asked
  after_request-IsSending good some_room = record {
    sending_state = ground arith;
    running = ground arith;
    no_abort = ground arith;
    whole = refl;
    small = ground arith;
    size_pos = ground arith;
    offset = ground arith;
    transfered = ground arith;
    checksum = ground (arith, create_crc32_empty 0);
    block = ground arith;
  }

module _ {W : Type 0} where
  -- The code that the caller gets.
  finish : Option (Download × (W × List Packet)) → Option (ℕ × (W × List Packet))
  finish none = none
  finish (some (d, w)) = some (
    if not (d.ret == no_error)
        then d.ret
        else if not (d.ret_abort == no_error)
        then d.ret_abort
        else no_error,
    w,
  )

  finish-Delivered :
      (expected : List Packet) (o : Option (Download × (W × List Packet)))
      → Outcome [] expected o
      → Delivered expected (finish o)
  unfolding finish
  finish-Delivered expected none o = o
  finish-Delivered expected (some (d, (w, log))) (inl (good, clean, e)) = inl (ground arith, e)
  finish-Delivered expected (some (d, (w, log))) (inr (bad, (k, e))) =
      inr (ground arith, (k, d.current_id, e))

module _ {W : Type 0} (transfer : W → Packet → Reply × W) (q : Request) (w : W)
    (roomy : 48 < q.mailbox_size) (bounded : length q.file + q.mailbox_size ≤ 2 ^ 32) where
  asking : Packet
  asking = request_packet q 1 seq_none (q.mailbox_size - 48)

  first_round :
      rounds (recorded transfer) (length q.file + 3) q (start q) (w, [])
      ≡ continued
          (recorded transfer)
          q
          (length q.file + 2)
          (after_request q (asked q) (transfer w asking).0, ((transfer w asking).1, asking ∷ []))
  unfolding start asked asking step request_step recorded
  first_round =
      ap (λ n. rounds (recorded transfer) n q (start q) (w, [])) more_rounds
      ∙ rounds_at (recorded transfer) q (length q.file + 2) (start q) requesting (w, []) refl
      ∙ ap
          (λ m.
            let p = request_packet q 1 seq_none m in
            continued (recorded transfer) q (length q.file + 2)
              (after_request q (asked q) (transfer w p).0, ((transfer w p).1, p ∷ [])))
          no_wrap
    where
      more_rounds : length q.file + 3 ≡ suc (length q.file + 2)
      more_rounds = omega arith

      no_wrap : sub32 q.mailbox_size 48 ≡ q.mailbox_size - 48
      no_wrap = omega arith

  refused_request :
      (result_of (transfer w asking).0 ≢ no_error) ⊎ ((transfer w asking).0.max_block_size ≡ 0)
      → Outcome []
          (all_packets q 1)
          (rounds (recorded transfer) (length q.file + 3) q (start q) (w, []))
  unfolding all_packets asking
  refused_request bad =
      let r = (transfer w asking).0 in
      let (state, ret, running) = after_request_failed q r roomy bounded bad in
      rw
        (
          first_round,
          continued-go (recorded transfer) q (length q.file + 2) (after_request q (asked q) r)
              ((transfer w asking).1, asking ∷ []) running,
          more_rounds,
        )
        (failed transfer q (length q.file + 1) (after_request q (asked q) r) (transfer w asking).1
          [] (all_packets q 1) 1 state ret)
    where
      more_rounds : length q.file + 2 ≡ suc (length q.file + 1)
      more_rounds = omega arith

  taken_request :
      result_of (transfer w asking).0 ≡ no_error
      → (transfer w asking).0.max_block_size ≢ 0
      → Outcome []
          (all_packets q (block_size q (transfer w asking).0))
          (rounds (recorded transfer) (length q.file + 3) q (start q) (w, []))
  unfolding all_packets asking
  taken_request good some_room =
      let r = (transfer w asking).0 in
      let s = after_request-IsSending q r roomy bounded good some_room in
      let (id, block) = after_request_counts q r roomy bounded in
      rw
        (
          first_round,
          continued-go (recorded transfer) q (length q.file + 2) (after_request q (asked q) r)
              ((transfer w asking).1, asking ∷ []) s.running,
        )
        (Outcome-cons [] (data_packets (length q.file + 1) (block_size q r) 2 0 true [] q.file)
          asking
          (rounds (recorded transfer) (length q.file + 2) q (after_request q (asked q) r)
            ((transfer w asking).1, asking ∷ []))
          (subst₂
            (λ id block.
              Outcome (asking ∷ [])
                (data_packets (length q.file + 1) (block_size q r) (u32 (id + 1)) block true []
                  q.file)
                (rounds (recorded transfer) (length q.file + 2) q (after_request q (asked q) r)
                  ((transfer w asking).1, asking ∷ [])))
            id block
            (delivers transfer q (length q.file + 2) (length q.file + 1)
              (after_request q (asked q) r) (transfer w asking).1 (asking ∷ []) (block_size q r)
              true [] q.file s (omega arith) (omega arith))))

  -- DownloadFile ends for every device. With a mailbox larger than the header of a data packet, and
  -- a file that leaves 32 bits for its length and a mailbox, there is a block size, at most the room
  -- in the mailbox, for which either the result is no error and the packets are the request and the
  -- data packets of the file in such blocks, or the result is an error and a first part of those
  -- packets was followed by one abort request.
  pub download_file-Delivered :
      (size : ℕ) × (0 < size)
      × (size + 48 ≤ q.mailbox_size)
      × Delivered (all_packets q size) (download_file (recorded transfer) q (w, []))
  unfolding download_file finish all_packets
  download_file-Delivered = elim (ℕ_discrete (result_of (transfer w asking).0) no_error) [
    | no bad ↦ (
      1,
      omega arith,
      omega arith,
      finish-Delivered (all_packets q 1) _ (refused_request (inl bad)),
    )
    | yes good ↦ elim (ℕ_discrete (transfer w asking).0.max_block_size 0) [
      | yes none_left ↦ (
        1,
        omega arith,
        omega arith,
        finish-Delivered (all_packets q 1) _ (refused_request (inr none_left)),
      )
      | no some_room ↦ (
        block_size q (transfer w asking).0,
        ground arith,
        ground arith,
        finish-Delivered (all_packets q (block_size q (transfer w asking).0)) _
            (taken_request good some_room),
      )
    ]
  ]
