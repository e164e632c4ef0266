-- ===== src/Mailbox/Tests.antt =====
-- A packet of 42 bytes through mailboxes of 44.
use nadrvlinux.Prelude.{ℕ, List, [], ◌∷◌, ◌++◌, replicate, bit_xor, arith}
use nadrvlinux.System.{System}
use nadrvlinux.Sample.{sample_device, sample_system}
use nadrvlinux.Mailbox.{put_packet, get_packet}
use nadrvlinux.Mailbox.Laws.{PutResult, GetResult, put_packet-PutResult, get_packet-GetResult}

abbrev packet : List ℕ
packet = replicate 16 0 ++ 2 ∷ 0 ∷ 0 ∷ 0 ∷ replicate 22 7

abbrev arriving : System
arriving = record sample_system {
  device = record sample_device {
    recv_mbx = record sample_device.recv_mbx { content = packet ++ 0 ∷ 0 ∷ [] };
  };
  wakes =
      record { clock = 3; act = λ d. record d { netx_flags = bit_xor d.netx_flags 0x400 } }
      ∷ record { clock = 2000; act = λ d. d }
      ∷ [];
}

put_packet-PutResult_example : PutResult packet sample_system (put_packet packet 100 sample_system)
put_packet-PutResult_example = put_packet-PutResult packet 100 sample_system (omega arith)

get_packet-GetResult_example : GetResult 64 arriving (get_packet 64 100 arriving)
get_packet-GetResult_example = get_packet-GetResult 64 100 arriving
