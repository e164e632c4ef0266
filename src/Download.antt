-- ===== src/Download.antt =====
-- `DownloadFile` of netanalyzer_kernel_mod/toolkit/netana_toolkit.c: a file sent to the device in
-- packets. The callback that transfers one packet is a parameter.
pub mod Packets
pub mod Progress
pub mod Replies
pub mod Delivery
pub mod Laws
mod Tests
use nadrvlinux.Prelude.{
  ℕ, zero, suc, ◌+◌, min, u16, u32, sub32, sub64, ◌-◌, Bool, true, false, not, ◌||◌, Option, none,
  some, List, ◌++◌, length, take, drop, replicate, ltb, leb, ◌==◌, if◌then◌else◌,
}
use nadrvlinux.Codes.{no_error, download_failed}
use nadrvlinux.Crc32.{create_crc32}

-- The sequence bits of `ulExt`.
abbrev pub seq_none : ℕ
seq_none = 0x00

abbrev pub seq_first : ℕ
seq_first = 0x80

abbrev pub seq_middle : ℕ
seq_middle = 0xc0

abbrev pub seq_last : ℕ
seq_last = 0x40

-- `sizeof` of the packed packet structures.
abbrev pub sizeof_download_req : ℕ
sizeof_download_req = 58

abbrev pub sizeof_download_req_data : ℕ
sizeof_download_req_data = 18

abbrev pub sizeof_download_data_req : ℕ
sizeof_download_data_req = 48

abbrev pub sizeof_download_data_req_data : ℕ
sizeof_download_data_req_data = 8

-- What follows the header, by command.
pub data Body : Type 0 where
  download_req :
      (xfer_type max_block_size file_length channel_no file_name_length : ℕ) → List ℕ → Body
  download_data_req : (block_no chksum : ℕ) → List ℕ → Body
  download_abort_req : Body

-- The header fields that change from packet to packet; the others are 0.
pub record Packet : Type 0 where
  pub id : ℕ
  pub len : ℕ
  pub ext : ℕ
  pub body : Body

-- What `pfnTransferPacket` returns, and the two fields of the answer that are read.
pub record Reply : Type 0 where
  pub ret : ℕ
  pub sta : ℕ
  pub max_block_size : ℕ

-- The arguments. The file is the list of its `ulFileLength` bytes.
pub record Request : Type 0 where
  pub channel : ℕ
  pub mailbox_size : ℕ
  pub transfer_type : ℕ
  pub file_name : List ℕ
  pub file : List ℕ

-- `ulState`. It takes no other value, so that the `default` branch has no case here.
pub data State : Type 0 where
  requesting sending aborting : State

-- The local variables.
pub record Download : Type 0 where
  pub max_data_length : ℕ
  pub send_len : ℕ
  pub transfered_length : ℕ
  pub crc : ℕ
  pub block_number : ℕ
  pub state : State
  pub cmd_data_state : ℕ
  pub stop_download : Bool
  pub ret_abort : ℕ
  pub ret : ℕ
  pub current_id : ℕ
  pub current_offset : ℕ

unfoldable pub start : Request → Download
start q = record {
  max_data_length = sub32 q.mailbox_size sizeof_download_data_req;
  send_len = 0;
  transfered_length = 0;
  crc = 0;
  block_number = 0;
  state = requesting;
  cmd_data_state = seq_none;
  stop_download = false;
  ret_abort = no_error;
  ret = no_error;
  current_id = 0;
  current_offset = 0;
}

-- `strncpy` pads with zeros.
unfoldable pub strncpy : List ℕ → ℕ → List ℕ
strncpy s n = take n s ++ replicate (n - length s) 0

unfoldable pub request_packet : Request → ℕ → ℕ → ℕ → Packet
unfolding strncpy
request_packet q id ext max_data = record {
  id = id;
  len = u32 (sizeof_download_req_data + name_length);
  ext = ext;
  body =
      download_req q.transfer_type max_data (u32 (length q.file)) q.channel (u16 name_length)
        (strncpy q.file_name name_length);
}
  where
    name_length : ℕ
    name_length = min (length q.file_name + 1) (sub64 q.mailbox_size sizeof_download_req)

unfoldable pub data_packet : ℕ → ℕ → ℕ → ℕ → ℕ → List ℕ → Packet
data_packet id ext block_no chksum send_len bytes = record {
  id = id;
  len = u32 (sizeof_download_data_req_data + send_len);
  ext = ext;
  body = download_data_req block_no chksum bytes;
}

unfoldable pub abort_packet : ℕ → Packet
abort_packet id = record { id = id; len = 0; ext = seq_none; body = download_abort_req }

-- The result of a transfer: its own code, else the state in the answer.
unfoldable pub result_of : Reply → ℕ
result_of r = if r.ret == no_error then r.sta else r.ret

-- After the answer to the request: the branches of `case RCX_FILE_DOWNLOAD_REQ`.
unfoldable pub after_request : Request → Download → Reply → Download
unfolding result_of
after_request q d r =
    if not (result_of r == no_error)
    then record d { state = aborting; ret = result_of r }
    else if r.max_block_size == 0
    then record d { state = aborting; ret = download_failed }
    else if leb (length q.file) max_data
    then record d {
      state = sending;
      ret = no_error;
      max_data_length = max_data;
      send_len = u32 (length q.file);
      cmd_data_state = seq_none;
    }
    else record d {
      state = sending;
      ret = no_error;
      max_data_length = max_data;
      send_len = max_data;
      cmd_data_state = seq_first;
    }
  where
    max_data : ℕ
    max_data =
        if ltb r.max_block_size d.max_data_length then r.max_block_size else d.max_data_length

-- After the answer to a data packet: the branches of `case RCX_FILE_DOWNLOAD_DATA_REQ`.
unfoldable pub after_data : Request → Download → Reply → Download
unfolding result_of
after_data q d r =
    if not (result_of r == no_error)
    then record d { state = aborting; ret = result_of r }
    else if (d.cmd_data_state == seq_last) || (d.cmd_data_state == seq_none)
    then record d { ret = no_error; transfered_length = done; stop_download = true }
    else if leb (length q.file) (u32 (d.send_len + done))
    then record d {
      ret = no_error;
      transfered_length = done;
      current_offset = u32 (d.current_offset + d.send_len);
      send_len = sub32 (u32 (length q.file)) done;
      cmd_data_state = seq_last;
    }
    else record d {
      ret = no_error;
      transfered_length = done;
      current_offset = u32 (d.current_offset + d.send_len);
      cmd_data_state = seq_middle;
    }
  where
    done : ℕ
    done = u32 (d.transfered_length + d.send_len)

unfoldable pub after_abort : Download → Reply → Download
unfolding result_of
after_abort d r = record d { ret_abort = result_of r; stop_download = true }

module _ {W : Type 0} (transfer : W → Packet → Reply × W) where
  unfoldable pub request_step : Request → Download → W → Download × W
  unfolding request_packet after_request
  request_step q d w =
      let id = u32 (d.current_id + 1) in
      let (r, w') = transfer w (request_packet q id d.cmd_data_state d.max_data_length) in
      (after_request q (record d { current_id = id }) r, w')

  unfoldable pub data_step : Request → Download → W → Download × W
  unfolding data_packet after_data
  data_step q d w =
      let id = u32 (d.current_id + 1) in
      let bytes = take d.send_len (drop d.current_offset q.file) in
      let crc = create_crc32 d.crc (some bytes) in
      let (r, w') =
        transfer w (data_packet id d.cmd_data_state d.block_number crc d.send_len bytes) in
      (
        after_data q
            (record d { current_id = id; crc = crc; block_number = u32 (d.block_number + 1) }) r,
        w',
      )

  unfoldable pub abort_step : Download → W → Download × W
  unfolding abort_packet after_abort
  abort_step d w =
      let id = u32 (d.current_id + 1) in
      let (r, w') = transfer w (abort_packet id) in
      (after_abort (record d { current_id = id }) r, w')

  -- One round of the `switch`.
  unfoldable pub step : State → Request → Download → W → Download × W
  step requesting q d w = request_step q d w
  step sending q d w = data_step q d w
  step aborting q d w = abort_step d w

  -- The `do … while (!fStopDownload)`, with fuel.
  unfoldable pub rounds : ℕ → Request → Download → W → Option (Download × W)
  rounds zero q d w = none
  rounds (suc fuel) q d w =
      let (d', w') = step d.state q d w in
      elim d'.stop_download [ true ↦ some (d', w') | false ↦ rounds fuel q d' w' ]

  -- A download takes a round for the request, at most one for each byte or for the empty file,
  -- and one for the abort.
  unfoldable pub download_file : Request → W → Option (ℕ × W)
  unfolding start rounds
  download_file q w = elim (rounds (length q.file + 3) q (start q) w) [
    | none ↦ none
    | some (d, w') ↦ some (
      if not (d.ret == no_error)
          then d.ret
          else if not (d.ret_abort == no_error)
          then d.ret_abort
          else no_error,
      w',
    )
  ]
