-- ===== src/Boot/Wire.antt =====
-- The packets of netanalyzer_kernel_mod/toolkit/netana_toolkit.c as bytes, and the download with
-- TransferPacket as the function that transfers one of them.
use nadrvlinux.Prelude.{ℕ, ◌/◌, ◌%◌, Option, none, some, List, [], ◌∷◌, ◌++◌, length, replicate}
use nadrvlinux.Codes.{transfer_timeout}
use nadrvlinux.Boot.{BootSystem, B, packet_sta, word_at, transfer_packet}
use nadrvlinux.Download.{
  Packet, Body, Reply, Request, download_req, download_data_req, download_abort_req, download_file,
}

-- RCX_MAX_PACKET_SIZE and TO_SEND_PACKET
abbrev pub max_packet_size : ℕ
max_packet_size = 1596

abbrev pub to_send_packet : ℕ
to_send_packet = 1000

abbrev pub le16 : ℕ → List ℕ
le16 n = n % 256 ∷ n / 256 % 256 ∷ []

abbrev pub le32 : ℕ → List ℕ
le32 n = n % 256 ∷ n / 256 % 256 ∷ n / 65536 % 256 ∷ n / 16777216 % 256 ∷ []

-- A header with the fields that the toolkit writes; the others are 0.
abbrev pub header : (len id cmd ext : ℕ) → List ℕ
header len id cmd ext =
    replicate 16 0 ++ (le32 len ++ (le32 id ++ (le32 0 ++ (le32 cmd ++ (le32 ext ++ le32 0)))))

-- A request without identifiers.
abbrev pub plain_packet : (cmd : ℕ) → List ℕ → List ℕ
plain_packet cmd body = header (length body) 0 cmd 0 ++ body

abbrev pub body_cmd : Body → ℕ
body_cmd (download_req x m f c n s) = 0x1e62
body_cmd (download_data_req n c bytes) = 0x1e64
body_cmd download_abort_req = 0x1e66

abbrev pub body_wire : Body → List ℕ
body_wire (download_req x m f c n s) = le32 x ++ (le32 m ++ (le32 f ++ (le32 c ++ (le16 n ++ s))))
body_wire (download_data_req n c bytes) = le32 n ++ (le32 c ++ bytes)
body_wire download_abort_req = []

abbrev pub wire : Packet → List ℕ
wire p = header p.len p.id (body_cmd p.body) p.ext ++ body_wire p.body

-- The card, and the buffer that a download receives into; `none` once a transfer did not return.
abbrev pub Line : Type 0
Line = Option (BootSystem × List ℕ)

unfoldable pub transfer_on : Line → Packet → Reply × Line
transfer_on none p = (record { ret = transfer_timeout; sta = 0; max_block_size = 0 }, none)
transfer_on (some (s, received)) p =
    elim (transfer_packet (wire p) received max_packet_size to_send_packet s) [
      | none ↦ (record { ret = transfer_timeout; sta = 0; max_block_size = 0 }, none)
      | some ((code, got), s') ↦ (
        record { ret = code; sta = packet_sta got; max_block_size = word_at got 40 },
        some (s', got),
      )
    ]

abbrev pub on_line : Option (ℕ × Line) → Option (ℕ × BootSystem)
on_line none = none
on_line (some (code, none)) = none
on_line (some (code, some (s, received))) = some (code, s)

-- `DownloadFile` with `TransferPacket`.
unfoldable pub download : Request → B ℕ
unfolding transfer_on
download q s = on_line (download_file transfer_on q (some (s, replicate max_packet_size 0)))
