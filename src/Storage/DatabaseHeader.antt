-- ===== src/Storage/DatabaseHeader.antt =====
-- src/storage/DatabaseHeader.cpp and include/dandb/storage/DatabaseHeader.h: page 0 of a database.
pub mod Layout
pub mod Decoding
use dan_db.Prelude.{
  ℕ, [], ◌∷◌, ◌==◌, ltb, leb, Bool, true, false, not, ◌&&◌, ◌||◌, length, slice, take,
}
use dan_db.Core.Status.{Result, ok, invalid_argument, corruption, require, ◌>>=◌, ◌>>◌}
use dan_db.Core.Bytes.{Bytes, page_size, bytes_are_zero, zero_fill, copy_bytes, bytes_eq}
use dan_db.Core.Endian.{write_u32_le, write_u64_le, read_u32_le, read_u64_le}
use dan_db.Core.Checksum.{checksum, default_seed}
use dan_db.Storage.Page.{PageId, invalid_page_id, first_allocatable_page_id}

-- "DDB1"
unfoldable pub database_magic_bytes : Bytes
database_magic_bytes = b'D' ∷ b'D' ∷ b'B' ∷ b'1' ∷ []

abbrev pub database_format_version : ℕ
database_format_version = 2

abbrev pub database_header_size : ℕ
database_header_size = 128

abbrev pub initial_database_page_count : ℕ
initial_database_page_count = 1

pub record DatabaseHeader : Type 0 where
  pub database_id : ℕ
  pub page_count : ℕ
  pub system_tables_root_page_id : PageId
  pub system_columns_root_page_id : PageId
  pub system_indexes_root_page_id : PageId
  pub system_index_columns_root_page_id : PageId

unfoldable pub root_page_id_is_valid : PageId → ℕ → Bool
root_page_id_is_valid page_id page_count =
    page_id == invalid_page_id || (leb first_allocatable_page_id page_id && ltb page_id page_count)

unfoldable pub create_new : ℕ → DatabaseHeader
create_new database_id = record {
  database_id = database_id;
  page_count = initial_database_page_count;
  system_tables_root_page_id = invalid_page_id;
  system_columns_root_page_id = invalid_page_id;
  system_indexes_root_page_id = invalid_page_id;
  system_index_columns_root_page_id = invalid_page_id;
}

unfoldable pub decode : Bytes → Result DatabaseHeader
decode page = do
  require (length page == page_size) invalid_argument
  require (bytes_eq (slice 0 4 page) database_magic_bytes) corruption
  stored_db_format_version ← read_u32_le page 4
  require (stored_db_format_version == database_format_version) corruption
  stored_page_size ← read_u32_le page 8
  require (stored_page_size == page_size) corruption
  stored_header_size ← read_u32_le page 12
  require (stored_header_size == database_header_size) corruption
  stored_database_id ← read_u64_le page 16
  stored_page_count ← read_u64_le page 24
  require (not (stored_page_count == 0)) corruption
  tables_root ← read_u64_le page 32
  require (root_page_id_is_valid tables_root stored_page_count) corruption
  columns_root ← read_u64_le page 40
  require (root_page_id_is_valid columns_root stored_page_count) corruption
  indexes_root ← read_u64_le page 48
  require (root_page_id_is_valid indexes_root stored_page_count) corruption
  index_columns_root ← read_u64_le page 56
  require (root_page_id_is_valid index_columns_root stored_page_count) corruption
  require (bytes_are_zero (slice 64 56 page)) corruption
  stored_checksum ← read_u64_le page 120
  require (stored_checksum == checksum (take 120 page) default_seed) corruption
  ok (record {
    database_id = stored_database_id;
    page_count = stored_page_count;
    system_tables_root_page_id = tables_root;
    system_columns_root_page_id = columns_root;
    system_indexes_root_page_id = indexes_root;
    system_index_columns_root_page_id = index_columns_root;
  })

unfoldable pub encode_into : DatabaseHeader → Bytes → Result Bytes
encode_into h page = do
  require (length page == page_size) invalid_argument
  require (not (h.page_count == 0)) invalid_argument
  let zeros = zero_fill page
  let marked = copy_bytes zeros 0 database_magic_bytes
  versioned ← write_u32_le marked 4 database_format_version
  paged ← write_u32_le versioned 8 page_size
  sized ← write_u32_le paged 12 database_header_size
  owned ← write_u64_le sized 16 h.database_id
  counted ← write_u64_le owned 24 h.page_count
  require (root_page_id_is_valid h.system_tables_root_page_id h.page_count) invalid_argument
  with_tables ← write_u64_le counted 32 h.system_tables_root_page_id
  require (root_page_id_is_valid h.system_columns_root_page_id h.page_count) invalid_argument
  with_columns ← write_u64_le with_tables 40 h.system_columns_root_page_id
  require (root_page_id_is_valid h.system_indexes_root_page_id h.page_count) invalid_argument
  with_indexes ← write_u64_le with_columns 48 h.system_indexes_root_page_id
  require (root_page_id_is_valid h.system_index_columns_root_page_id h.page_count) invalid_argument
  with_roots ← write_u64_le with_indexes 56 h.system_index_columns_root_page_id
  write_u64_le with_roots 120 (checksum (take 120 with_roots) default_seed)
