-- ===== src/Download/Packets.antt =====
-- What a download has to put on the wire, described from the file alone.
use mathlib.Core.List.{append-nil}
use nadrvlinux.Prelude.{
  ℕ, zero, suc, ◌+◌, ◌≤◌, ◌<◌, u32, Bool, false, some, List, [], ◌∷◌, ◌++◌, length, take, drop, leb,
  if◌then◌else◌, ◌≡◌, ap, ◌∙◌, inl, inr, Bool-cases, leb→le, arith, take-append-drop, length-take,
  length-drop,
}
use nadrvlinux.Crc32.{create_crc32}
use nadrvlinux.Download.{
  Packet, Body, download_req, download_data_req, download_abort_req, data_packet, seq_none,
  seq_first, seq_middle, seq_last,
}

-- The packets for `rest`, after `before` has been sent, in blocks of `size`. The checksum of a
-- block is that of the file up to its end.
unfoldable pub data_packets :
    (fuel size id block : ℕ) (first : Bool) (before rest : List ℕ) → List Packet
data_packets zero size id block first before rest = []
data_packets (suc fuel) size id block first before rest =
    let later =
      data_packets fuel size (u32 (id + 1)) (u32 (block + 1)) false (before ++ take size rest)
        (drop size rest) in
    if leb (length rest) size
    then data_packet id (if first then seq_none else seq_last) block
        (create_crc32 0 (some (before ++ rest))) (length rest) rest
      ∷ []
    else data_packet id (if first then seq_first else seq_middle) block
        (create_crc32 0 (some (before ++ take size rest))) size (take size rest)
      ∷ later

-- The file's bytes in a packet.
abbrev pub body_bytes : Body → List ℕ
body_bytes (download_data_req n c bytes) = bytes
body_bytes (download_req x m f c n s) = []
body_bytes download_abort_req = []

abbrev pub payload : Packet → List ℕ
payload p = body_bytes p.body

abbrev pub payloads : List Packet → List ℕ
payloads [] = []
payloads (p ∷ ps) = payload p ++ payloads ps

-- Every payload fits a block.
abbrev pub Fits : ℕ → List Packet → Type 0
Fits size [] = Unit {0}
Fits size (p ∷ ps) = (length (payload p) ≤ size) × Fits size ps

-- The data packets of a file carry its bytes, in order and each once.
pub payloads-data_packets :
    (fuel size id block : ℕ) (first : Bool) (before rest : List ℕ)
    → 0 < size
    → length rest < fuel
    → payloads (data_packets fuel size id block first before rest) ≡ rest
unfolding data_packets data_packet
payloads-data_packets zero size id block first before rest h k = absurd (omega arith)
payloads-data_packets (suc fuel) size id block first before rest h k =
    elim (Bool-cases (leb (length rest) size)) [
      | inl e ↦ rw e (append-nil rest)
      | inr e ↦ rw e (
          ap (◌++◌ (take size rest)) (
            payloads-data_packets fuel size (u32 (id + 1)) (u32 (block + 1)) false
              (before ++ take size rest) (drop size rest) h (ground (arith, length-drop size rest)))
          ∙ take-append-drop size rest)
    ]

pub Fits-data_packets :
    (fuel size id block : ℕ) (first : Bool) (before rest : List ℕ)
    → Fits size (data_packets fuel size id block first before rest)
unfolding data_packets data_packet
Fits-data_packets zero size id block first before rest = tt
Fits-data_packets (suc fuel) size id block first before rest =
    elim (Bool-cases (leb (length rest) size)) [
      | inl e ↦ rw e (leb→le (length rest) size e, tt)
      | inr e ↦ rw e (
        omega (arith, length-take size rest),
        Fits-data_packets fuel size (u32 (id + 1)) (u32 (block + 1)) false
            (before ++ take size rest) (drop size rest),
      )
    ]
