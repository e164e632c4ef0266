-- ===== src/Boot/Tests.antt =====
-- A boot loader that answers a request.
use nadrvlinux.Prelude.{
  ℕ, ◌+◌, ◌/◌, ◌%◌, bit_xor, take, drop, get_or, ◌==◌, if◌then◌else◌, List, [], ◌∷◌, ◌++◌, some,
  replicate, ◌≡◌, refl, arith,
}
use nadrvlinux.Codes.{no_error}
use nadrvlinux.Download.{Request, download_file, step, request_step, data_step}
use nadrvlinux.Boot.{BootDpm, Poll, BootSystem, transfer_packet}
use nadrvlinux.Boot.Wire.{download}
use nadrvlinux.Boot.Upload.{Uploaded, download-Uploaded}
use nadrvlinux.Boot.Liveness.{Transferred, transfer_packet-Transferred}

-- A packet without data, by id and command.
abbrev packet : ℕ → ℕ → List ℕ
packet id cmd = replicate 20 0 ++ id ∷ 0 ∷ 0 ∷ 0 ∷ 0 ∷ 0 ∷ 0 ∷ 0 ∷ cmd ∷ replicate 11 0

abbrev ready : BootDpm
ready = record {
  cookie = 0x544f_4f42;
  hsk_data = 0;
  netx_flags = 1;
  host_flags = 0;
  send_mbx = replicate 124 0;
  recv_mbx = replicate 124 0;
  system_state = 0;
  irq_enable = 0;
  image = [];
}

abbrev answers : BootDpm → BootDpm
answers d = record d {
  netx_flags = bit_xor d.netx_flags 0x30;
  recv_mbx = packet 7 0x1f ++ replicate 84 0;
}

abbrev idle : ℕ → Poll
idle clock = record { clock = clock; act = λ d. d }

abbrev answering : BootSystem
answering = record {
  dpm = ready;
  polls =
      idle 10
      ∷ idle 20
      ∷ record { clock = 30; act = answers }
      ∷ idle 40
      ∷ idle 50
      ∷ idle 60
      ∷ idle 70
      ∷ idle 80
      ∷ idle 90
      ∷ [];
  posted = [];
  resets = [];
}

answer_test :
    (s : BootSystem) × (transfer_packet (packet 7 0x1e) (replicate 40 0) 1596 10 answering
      ≡ some ((no_error, packet 7 0x1f), s))
unfolding transfer_packet
answer_test = (_, refl)

transfer_packet-Transferred_example :
    Transferred []
      (packet 7 0x1e)
      (transfer_packet (packet 7 0x1e) (replicate 40 0) 1596 10 answering)
transfer_packet-Transferred_example =
    transfer_packet-Transferred (packet 7 0x1e) (replicate 40 0) 1596 10 10 0 answering
      (ground arith) (ground arith)

-- A boot loader that answers every packet with its own data.
abbrev echo : BootDpm → BootDpm
echo d = if d.host_flags / 16 % 2 == d.netx_flags / 16 % 2 then d else record d {
  netx_flags = bit_xor d.netx_flags 0x30;
  recv_mbx = take 28 d.send_mbx ++ (get_or d.send_mbx 28 0 + 1) ∷ drop 29 d.send_mbx;
}

abbrev echoes : List ℕ → List Poll
echoes [] = []
echoes (c ∷ cs) = record { clock = c; act = echo } ∷ echoes cs

abbrev echoing : BootSystem
echoing = record {
  dpm = ready;
  polls = echoes (
      1 ∷ 2 ∷ 3 ∷ 4 ∷ 5 ∷ 6 ∷ 7 ∷ 8 ∷ 9 ∷ 10 ∷ 11 ∷ 12 ∷ 13 ∷ 14 ∷ 15 ∷ 16 ∷ 10000 ∷ 20000 ∷ 30000
      ∷ 40000 ∷ 50000 ∷ 60000 ∷ 70000 ∷ 80000 ∷ 90000 ∷ 100000 ∷ 110000 ∷ 120000 ∷ 130000 ∷ 140000
      ∷ 150000 ∷ 160000 ∷ 170000 ∷ 180000 ∷ 190000 ∷ 200000 ∷ 210000 ∷ 220000 ∷ 230000 ∷ 240000
      ∷ 250000 ∷ []);
  posted = [];
  resets = [];
}

abbrev short_file : Request
short_file = record {
  channel = 0;
  mailbox_size = 124;
  transfer_type = 1;
  file_name = 65 ∷ [];
  file = 42 ∷ [];
}

download_test : (s : BootSystem) × (download short_file echoing ≡ some (no_error, s))
unfolding download download_file step request_step transfer_packet data_step
download_test = (_, refl)

download-Uploaded_example : Uploaded short_file echoing (download short_file echoing)
download-Uploaded_example =
    download-Uploaded short_file echoing 10000 0 (ground arith) (ground arith) (ground arith)
      (ground arith)
