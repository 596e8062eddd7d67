-- ===== src/Wal/PageFrame.antt =====
-- src/wal/WalPageFrame.cpp and its header: the record of 4136 bytes that holds one page.
pub mod Layout
pub mod Decoding
use dan_db.Prelude.{ℕ, ◌+◌, ◌-◌, ◌==◌, length, slice, take}
use dan_db.Core.Status.{Result, ok, invalid_argument, corruption, require, ◌>>=◌, ◌>>◌}
use dan_db.Core.Bytes.{Bytes, page_size, bytes_are_zero, zero_fill, copy_bytes}
use dan_db.Core.Endian.{write_u32_le, write_u64_le, read_u32_le, read_u64_le}
use dan_db.Core.Checksum.{checksum, default_seed}
use dan_db.Storage.Page.{PageId}

abbrev pub wal_page_frame_record_type : ℕ
wal_page_frame_record_type = 1

abbrev pub wal_page_frame_record_size : ℕ
wal_page_frame_record_size = page_size + 40

-- `page_image` is an array of `page_size` bytes.
pub record WalPageFrame : Type 0 where
  pub transaction_id : ℕ
  pub page_id : PageId
  pub page_image : Bytes

unfoldable pub decode : Bytes → Result WalPageFrame
decode bytes = do
  require (length bytes == wal_page_frame_record_size) invalid_argument
  stored_record_type ← read_u32_le bytes 0
  require (stored_record_type == wal_page_frame_record_type) corruption
  stored_record_size ← read_u32_le bytes 4
  require (stored_record_size == wal_page_frame_record_size) corruption
  stored_transaction_id ← read_u64_le bytes 8
  stored_page_id ← read_u64_le bytes 16
  stored_page_image_size ← read_u32_le bytes 24
  require (stored_page_image_size == page_size) corruption
  require (bytes_are_zero (slice 28 4 bytes)) corruption
  let stored_page_image = slice 32 page_size bytes
  stored_checksum ← read_u64_le bytes 4128
  require (stored_checksum == checksum (take (wal_page_frame_record_size - 8) bytes) default_seed)
      corruption
  ok (record {
    transaction_id = stored_transaction_id;
    page_id = stored_page_id;
    page_image = stored_page_image;
  })

unfoldable pub encode_into : WalPageFrame → Bytes → Result Bytes
encode_into f out = do
  require (length out == wal_page_frame_record_size) invalid_argument
  let zeros = zero_fill out
  typed ← write_u32_le zeros 0 wal_page_frame_record_type
  sized ← write_u32_le typed 4 wal_page_frame_record_size
  with_transaction ← write_u64_le sized 8 f.transaction_id
  with_page ← write_u64_le with_transaction 16 f.page_id
  with_size ← write_u32_le with_page 24 page_size
  let with_image = copy_bytes with_size 32 f.page_image
  write_u64_le with_image 4128
      (checksum (take (wal_page_frame_record_size - 8) with_image) default_seed)
