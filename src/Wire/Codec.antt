-- ===== src/Wire/Codec.antt =====
-- `serialize` and `deserialize` of Snapshot and MDUpdate: a byte for the message's type, then the
-- bytes of the struct.
use stakan.Base.{
  ℕ, ◌+◌, ◌*◌, List, length, set, replicate, if◌then◌else◌, ◌==◌, not, Result, ok, err,
  runtime_error,
}
use stakan.Wire.{Snapshot, MdUpdate, snapshot, md_update, type_byte, top_n}
use stakan.Wire.Memory.{
  memcpy, bytes_at, orders_bytes, orders_of_bytes, md_update_bytes, md_update_of_bytes, order_size,
}

-- `kPtrForMsgType` and `kByteForMsgType`
abbrev pub ptr_for_msg_type : ℕ
ptr_for_msg_type = 0

abbrev pub byte_for_msg_type : ℕ
byte_for_msg_type = 1

-- sizeof(topBids), which is sizeof(topAsks)
abbrev pub side_size : ℕ
side_size = top_n * order_size

-- sizeof(Snapshot)
abbrev pub snapshot_size : ℕ
snapshot_size = side_size + side_size

-- sizeof(MDUpdate)
abbrev pub md_update_size : ℕ
md_update_size = 48

-- `Snapshot::serialize`
unfoldable pub serialize_snapshot : Snapshot → List ℕ
serialize_snapshot s =
    let buffer = replicate (snapshot_size + byte_for_msg_type) 0 in
    let typed = set buffer ptr_for_msg_type (type_byte snapshot) in
    let with_bids = memcpy typed byte_for_msg_type (orders_bytes s.top_bids) in
    memcpy with_bids (byte_for_msg_type + side_size) (orders_bytes s.top_asks)

-- `Snapshot::deserialize`
unfoldable pub deserialize_snapshot : List ℕ → Result Snapshot
deserialize_snapshot bytes =
    if not (length bytes == snapshot_size + byte_for_msg_type)
    then err runtime_error
    else ok (record {
      top_bids = orders_of_bytes top_n (bytes_at bytes byte_for_msg_type side_size);
      top_asks = orders_of_bytes top_n (bytes_at bytes (byte_for_msg_type + side_size) side_size);
    })

-- `MDUpdate::serialize`
unfoldable pub serialize_md_update : MdUpdate → List ℕ
serialize_md_update u =
    let buffer = replicate (byte_for_msg_type + md_update_size) 0 in
    let typed = set buffer 0 (type_byte md_update) in
    memcpy typed byte_for_msg_type (md_update_bytes u)

-- `MDUpdate::deserialize`
unfoldable pub deserialize_md_update : List ℕ → Result MdUpdate
deserialize_md_update bytes =
    if not (length bytes == byte_for_msg_type + md_update_size)
    then err runtime_error
    else ok (md_update_of_bytes (bytes_at bytes byte_for_msg_type md_update_size))
