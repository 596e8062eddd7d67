-- ===== src/Wal/Header.antt =====
-- src/wal/WalHeader.cpp and its header: the first 64 bytes of the log.
pub mod Layout
pub mod Decoding
use dan_db.Prelude.{ℕ, [], ◌∷◌, ◌==◌, length, slice, take}
use dan_db.Core.Status.{Result, ok, invalid_argument, corruption, require, ◌>>=◌, ◌>>◌}
use dan_db.Core.Bytes.{Bytes, page_size, bytes_are_zero, zero_fill, copy_bytes, bytes_eq}
use dan_db.Core.Endian.{write_u32_le, write_u64_le, read_u32_le, read_u64_le}
use dan_db.Core.Checksum.{checksum, default_seed}

-- "DWAL"
unfoldable pub wal_magic_bytes : Bytes
wal_magic_bytes = b'D' ∷ b'W' ∷ b'A' ∷ b'L' ∷ []

abbrev pub wal_format_version : ℕ
wal_format_version = 1

abbrev pub wal_header_size : ℕ
wal_header_size = 64

pub record WalHeader : Type 0 where
  pub database_id : ℕ

unfoldable pub decode : Bytes → Result WalHeader
decode bytes = do
  require (length bytes == wal_header_size) invalid_argument
  require (bytes_eq (slice 0 4 bytes) wal_magic_bytes) corruption
  stored_wal_format_version ← read_u32_le bytes 4
  require (stored_wal_format_version == wal_format_version) corruption
  stored_page_size ← read_u32_le bytes 8
  require (stored_page_size == page_size) corruption
  stored_header_size ← read_u32_le bytes 12
  require (stored_header_size == wal_header_size) corruption
  stored_database_id ← read_u64_le bytes 16
  require (bytes_are_zero (slice 24 32 bytes)) corruption
  stored_checksum ← read_u64_le bytes 56
  require (stored_checksum == checksum (take 56 bytes) default_seed) corruption
  ok (record { database_id = stored_database_id })

unfoldable pub encode_into : WalHeader → Bytes → Result Bytes
encode_into h out = do
  require (length out == wal_header_size) invalid_argument
  let zeros = zero_fill out
  let marked = copy_bytes zeros 0 wal_magic_bytes
  versioned ← write_u32_le marked 4 wal_format_version
  paged ← write_u32_le versioned 8 page_size
  sized ← write_u32_le paged 12 wal_header_size
  owned ← write_u64_le sized 16 h.database_id
  write_u64_le owned 56 (checksum (take 56 owned) default_seed)
