-- ===== src/Wal/CommitRecord.antt =====
-- src/wal/WalCommitRecord.cpp and its header: the record of 32 bytes that ends a transaction.
pub mod Layout
pub mod Decoding
use dan_db.Prelude.{ℕ, ◌-◌, ◌==◌, length, take}
use dan_db.Core.Status.{Result, ok, err, invalid_argument, corruption, require, ◌>>=◌, ◌>>◌}
use dan_db.Core.Bytes.{Bytes, zero_fill}
use dan_db.Core.Endian.{write_u32_le, write_u64_le, read_u32_le, read_u64_le}
use dan_db.Core.Checksum.{checksum, default_seed}

abbrev pub wal_commit_record_type : ℕ
wal_commit_record_type = 2

abbrev pub wal_commit_record_size : ℕ
wal_commit_record_size = 32

pub record WalCommitRecord : Type 0 where
  pub transaction_id : ℕ
  pub frame_count : ℕ

unfoldable pub decode : Bytes → Result WalCommitRecord
decode bytes = do
  require (length bytes == wal_commit_record_size) invalid_argument
  stored_record_type ← read_u32_le bytes 0
  require (stored_record_type == wal_commit_record_type) corruption
  stored_record_size ← read_u32_le bytes 4
  require (stored_record_size == wal_commit_record_size) corruption
  stored_transaction_id ← read_u64_le bytes 8
  stored_frame_count ← read_u64_le bytes 16
  stored_checksum ← read_u64_le bytes 24
  require (stored_checksum == checksum (take (wal_commit_record_size - 8) bytes) default_seed)
      corruption
  ok (record { transaction_id = stored_transaction_id; frame_count = stored_frame_count })

-- `out` on success; a failed call leaves nothing that a caller reads.
unfoldable pub encode_into : WalCommitRecord → Bytes → Result Bytes
encode_into r out = do
  require (length out == wal_commit_record_size) invalid_argument
  let zeros = zero_fill out
  typed ← write_u32_le zeros 0 wal_commit_record_type
  sized ← write_u32_le typed 4 wal_commit_record_size
  with_transaction ← write_u64_le sized 8 r.transaction_id
  with_count ← write_u64_le with_transaction 16 r.frame_count
  write_u64_le with_count 24 (checksum (take (wal_commit_record_size - 8) with_count) default_seed)
