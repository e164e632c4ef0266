-- ===== src/Download/Tests.antt =====
-- Downloads to a device that takes every packet, and to one that refuses the third.
use nadrvlinux.Prelude.{ℕ, true, ◌+◌, ◌≤◌, ◌<◌, some, [], ◌∷◌, ◌≡◌, refl, ltb, if◌then◌else◌, arith}
use nadrvlinux.Codes.{no_error}
use nadrvlinux.Download.{
  Packet, Reply, Request, download_file, step, request_step, data_step, abort_step,
}
use nadrvlinux.Download.Packets.{data_packets, payloads, payloads-data_packets}
use nadrvlinux.Download.Progress.{recorded}
use nadrvlinux.Download.Laws.{all_packets, Delivered, download_file-Delivered}

abbrev request : Request
request = record {
  channel = 0;
  mailbox_size = 128;
  transfer_type = 1;
  file_name = 0x61 ∷ [];
  file = 1 ∷ 2 ∷ 3 ∷ 4 ∷ 5 ∷ [];
}

-- The device counts the packets.
abbrev taking : ℕ → Packet → Reply × ℕ
taking w p = (record { ret = 0; sta = 0; max_block_size = 2 }, w + 1)

abbrev refusing : ℕ → Packet → Reply × ℕ
refusing w p = (record { ret = 0; sta = if ltb w 2 then 0 else 77; max_block_size = 2 }, w + 1)

taking_test : download_file taking request 0 ≡ some (no_error, 4)
unfolding download_file step request_step data_step
taking_test = refl

refusing_test : download_file refusing request 0 ≡ some (77, 4)
unfolding download_file step request_step data_step abort_step
refusing_test = refl

payloads-data_packets_example :
    payloads (data_packets 6 2 2 0 true [] (1 ∷ 2 ∷ 3 ∷ 4 ∷ 5 ∷ [])) ≡ 1 ∷ 2 ∷ 3 ∷ 4 ∷ 5 ∷ []
payloads-data_packets_example =
    payloads-data_packets 6 2 2 0 true [] (1 ∷ 2 ∷ 3 ∷ 4 ∷ 5 ∷ []) (omega arith) (omega arith)

download_file-Delivered_example :
    (size : ℕ) × (0 < size)
    × (size + 48 ≤ 128)
    × Delivered (all_packets request size) (download_file (recorded refusing) request (0, []))
download_file-Delivered_example =
    download_file-Delivered refusing request 0 (omega arith) (omega arith)
