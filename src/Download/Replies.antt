-- ===== src/Download/Replies.antt =====
-- What DownloadFile does with the reply to a data packet.
use mathlib.Core.List.{append_assoc}
use nadrvlinux.Prelude.{
  ℕ, ◌+◌, ◌-◌, ◌^◌, ◌≤◌, ◌<◌, Bool, true, false, some, List, ◌++◌, length, take, drop, ◌==◌, ◌||◌,
  if◌then◌else◌, ◌≡◌, ◌≢◌, sym, ap, ◌∙◌, arith, take-append-drop, length-take, length-drop,
  length-append,
}
use nadrvlinux.Codes.{no_error}
use nadrvlinux.Crc32.{create_crc32}
use nadrvlinux.Download.{
  Request, Reply, Download, sending, aborting, after_data, result_of, seq_none, seq_first,
  seq_middle, seq_last,
}
use nadrvlinux.Download.Progress.{IsSending}

module _ (q : Request) (d : Download) (r : Reply) where
  -- A refused packet leads to the abort.
  pub after_data_failed :
      result_of r ≢ no_error
      → d.stop_download ≡ false
      → let d' = after_data q d r in
        (d'.state ≡ aborting) × (d'.ret ≡ result_of r) × (d'.stop_download ≡ false)
  unfolding after_data
  after_data_failed bad running = ground arith

  -- The last packet ends the loop.
  pub after_data_last :
      (first : Bool)
      → result_of r ≡ no_error
      → d.cmd_data_state ≡ (if first then seq_none else seq_last)
      → d.ret_abort ≡ no_error
      → let d' = after_data q d r in
        (d'.ret ≡ no_error) × (d'.ret_abort ≡ no_error) × (d'.stop_download ≡ true)
  unfolding after_data
  after_data_last true good e clean = ground arith
  after_data_last false good e clean = ground arith

  more_to_come :
      (first : Bool)
      → d.cmd_data_state ≡ (if first then seq_first else seq_middle)
      → ((d.cmd_data_state == seq_last) || (d.cmd_data_state == seq_none)) ≡ false
  more_to_come true e = ground arith
  more_to_come false e = ground arith

  -- Any other moves on to the next block.
  pub after_data_more :
      (size : ℕ) (first : Bool) (before rest : List ℕ)
      → result_of r ≡ no_error
      → d.cmd_data_state ≡ (if first then seq_first else seq_middle)
      → d.state ≡ sending
      → d.stop_download ≡ false
      → d.ret_abort ≡ no_error
      → before ++ rest ≡ q.file
      → length q.file + size ≤ 2 ^ 32
      → 0 < size
      → d.current_offset ≡ length before
      → d.transfered_length ≡ length before
      → d.crc ≡ create_crc32 0 (some (before ++ take size rest))
      → size < length rest
      → d.send_len ≡ size
      → IsSending q (after_data q d r) size false (before ++ take size rest) (drop size rest)
  unfolding after_data
  after_data_more size first before rest good e state running clean whole small pos offset done crc
        more len =
      record {
        sending_state = ground (arith, going);
        running = ground (arith, going);
        no_abort = ground (arith, going);
        whole =
            append_assoc before (take size rest) (drop size rest)
            ∙ ap (◌++◌ before) (take-append-drop size rest)
            ∙ whole;
        small = small;
        size_pos = pos;
        offset = ground (arith, going, total, taken);
        transfered = ground (arith, going, total, taken);
        checksum = ground (arith, going);
        block = ground (arith, going, total, left);
      }
    where
      going : ((d.cmd_data_state == seq_last) || (d.cmd_data_state == seq_none)) ≡ false
      going = more_to_come first e

      total : length before + length rest ≡ length q.file
      total = sym (length-append before rest) ∙ ap length whole

      taken : length (before ++ take size rest) ≡ length before + size
      taken = omega (arith, length-append before (take size rest), length-take size rest)

      left : length (drop size rest) ≡ length rest - size
      left = length-drop size rest

module _ (q : Request) (d : Download) (r : Reply) where
  pub after_data_counts :
      let d' = after_data q d r in
      (d'.current_id ≡ d.current_id) × (d'.block_number ≡ d.block_number)
  unfolding after_data
  after_data_counts = ground arith
