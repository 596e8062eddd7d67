-- ===== src/Storage/DatabaseHeader/Layout.antt =====
-- The header of src/storage/DatabaseHeader.cpp against the layout of docs/file-format.txt.
use dan_db.Prelude.{
  zero, ◌^◌, ◌<◌, ◌≡◌, refl, ap, ◌∙◌, true, false, ◌==◌, [], ◌++◌, append_assoc, arith, length,
  replicate, length-append, length-replicate,
}
use dan_db.Core.Status.{ok}
use dan_db.Core.Bytes.{Bytes, IsBytes, IsBytes-append, IsBytes-replicate, zero_fill-eq_replicate}
use dan_db.Core.Endian.Laws.{le_bytes, le_bytes-IsBytes, length-le_bytes}
use dan_db.Core.Endian.Fields.{
  seal, replicate-split, copy_bytes-zeros, write_le-zeros, write_le-seal_zeros,
}
use dan_db.Core.Checksum.{checksum, default_seed}
use dan_db.Storage.DatabaseHeader.{
  DatabaseHeader, database_magic_bytes, root_page_id_is_valid, encode_into,
}

unfoldable pub fields : DatabaseHeader → Bytes
fields h =
    database_magic_bytes
    ++ (le_bytes 4 2
        ++ (le_bytes 4 4096
            ++ (le_bytes 4 128
                ++ (le_bytes 8 h.database_id
                    ++ (le_bytes 8 h.page_count
                        ++ (le_bytes 8 h.system_tables_root_page_id
                            ++ (le_bytes 8 h.system_columns_root_page_id
                                ++ (le_bytes 8 h.system_indexes_root_page_id
                                    ++ (le_bytes 8 h.system_index_columns_root_page_id
                                        ++ replicate 56 0)))))))))

-- The header takes 128 bytes, and zeros fill the page.
abbrev pub layout : DatabaseHeader → Bytes
layout h = seal (fields h) ++ replicate 3968 0

pub record FitsWords (h : DatabaseHeader) : Type 0 where
  pub database_id : h.database_id < 2 ^ 64
  pub page_count : h.page_count < 2 ^ 64
  pub tables_root : h.system_tables_root_page_id < 2 ^ 64
  pub columns_root : h.system_columns_root_page_id < 2 ^ 64
  pub indexes_root : h.system_indexes_root_page_id < 2 ^ 64
  pub index_columns_root : h.system_index_columns_root_page_id < 2 ^ 64

-- There is a page, and every root is none or one of the pages.
pub record IsHeader (h : DatabaseHeader) : Type 0 where
  pub counted : (h.page_count == 0) ≡ false
  pub tables : root_page_id_is_valid h.system_tables_root_page_id h.page_count ≡ true
  pub columns : root_page_id_is_valid h.system_columns_root_page_id h.page_count ≡ true
  pub indexes : root_page_id_is_valid h.system_indexes_root_page_id h.page_count ≡ true
  pub index_columns : root_page_id_is_valid h.system_index_columns_root_page_id h.page_count ≡ true

pub length-magic : length database_magic_bytes ≡ 4
unfolding database_magic_bytes
length-magic = refl

-- The header up to each of its offsets.
module _ (h : DatabaseHeader) where
  abbrev pub to_8 : Bytes
  to_8 = database_magic_bytes ++ le_bytes 4 2

  abbrev pub to_12 : Bytes
  to_12 = to_8 ++ le_bytes 4 4096

  abbrev pub to_16 : Bytes
  to_16 = to_12 ++ le_bytes 4 128

  abbrev pub to_24 : Bytes
  to_24 = to_16 ++ le_bytes 8 h.database_id

  abbrev pub to_32 : Bytes
  to_32 = to_24 ++ le_bytes 8 h.page_count

  abbrev pub to_40 : Bytes
  to_40 = to_32 ++ le_bytes 8 h.system_tables_root_page_id

  abbrev pub to_48 : Bytes
  to_48 = to_40 ++ le_bytes 8 h.system_columns_root_page_id

  abbrev pub to_56 : Bytes
  to_56 = to_48 ++ le_bytes 8 h.system_indexes_root_page_id

  abbrev pub to_64 : Bytes
  to_64 = to_56 ++ le_bytes 8 h.system_index_columns_root_page_id

  pub length-to_8 : length to_8 ≡ 8
  length-to_8 =
      omega
        (arith, length-append database_magic_bytes (le_bytes 4 2), length-magic, length-le_bytes)

  pub length-to_12 : length to_12 ≡ 12
  length-to_12 = omega (arith, length-append to_8 (le_bytes 4 4096), length-to_8, length-le_bytes)

  pub length-to_16 : length to_16 ≡ 16
  length-to_16 = omega (arith, length-append to_12 (le_bytes 4 128), length-to_12, length-le_bytes)

  pub length-to_24 : length to_24 ≡ 24
  length-to_24 =
      omega (arith, length-append to_16 (le_bytes 8 h.database_id), length-to_16, length-le_bytes)

  pub length-to_32 : length to_32 ≡ 32
  length-to_32 =
      omega (arith, length-append to_24 (le_bytes 8 h.page_count), length-to_24, length-le_bytes)

  pub length-to_40 : length to_40 ≡ 40
  length-to_40 = omega (
    arith,
    length-append to_32 (le_bytes 8 h.system_tables_root_page_id),
    length-to_32,
    length-le_bytes,
  )

  pub length-to_48 : length to_48 ≡ 48
  length-to_48 = omega (
    arith,
    length-append to_40 (le_bytes 8 h.system_columns_root_page_id),
    length-to_40,
    length-le_bytes,
  )

  pub length-to_56 : length to_56 ≡ 56
  length-to_56 = omega (
    arith,
    length-append to_48 (le_bytes 8 h.system_indexes_root_page_id),
    length-to_48,
    length-le_bytes,
  )

  pub length-to_64 : length to_64 ≡ 64
  length-to_64 = omega (
    arith,
    length-append to_56 (le_bytes 8 h.system_index_columns_root_page_id),
    length-to_56,
    length-le_bytes,
  )

  pub fields-to_64 : fields h ≡ to_64 ++ replicate 56 0
  unfolding fields
  fields-to_64 = simp append_assoc

  pub length-fields : length (fields h) ≡ 120
  length-fields =
      ap length fields-to_64
      ∙ omega (arith, length-append to_64 (replicate 56 0), length-to_64, length-replicate 56 zero)

  pub length-sealed : length (seal (fields h)) ≡ 128
  length-sealed = omega (
    arith,
    length-append (fields h) (le_bytes 8 (checksum (fields h) default_seed)),
    length-fields,
    length-le_bytes,
  )

  pub length-layout : length (layout h) ≡ 4096
  length-layout = omega (
    arith,
    length-append (seal (fields h)) (replicate 3968 0),
    length-sealed,
    length-replicate 3968 zero,
  )

  pub layout-IsBytes : IsBytes (layout h)
  unfolding fields database_magic_bytes
  layout-IsBytes =
      IsBytes-append (seal (fields h)) _
        (IsBytes-append (fields h) _
          (IsBytes-append database_magic_bytes _
            (omega arith, (omega arith, (omega arith, (omega arith, tt))))
            (IsBytes-append _ _ (le_bytes-IsBytes 4 2) (
              IsBytes-append _ _ (le_bytes-IsBytes 4 4096) (
                IsBytes-append _ _ (le_bytes-IsBytes 4 128) (
                  IsBytes-append _ _ (le_bytes-IsBytes 8 h.database_id) (
                    IsBytes-append _ _ (le_bytes-IsBytes 8 h.page_count) (
                      IsBytes-append _ _ (le_bytes-IsBytes 8 h.system_tables_root_page_id) (
                        IsBytes-append _ _ (le_bytes-IsBytes 8 h.system_columns_root_page_id) (
                          IsBytes-append _ _ (le_bytes-IsBytes 8 h.system_indexes_root_page_id) (
                            IsBytes-append _ _
                              (le_bytes-IsBytes 8 h.system_index_columns_root_page_id)
                              (IsBytes-replicate 56)))))))))))
          (le_bytes-IsBytes 8 _))
        (IsBytes-replicate 3968)

-- Encoding a header writes its layout into any buffer of a page's size.
pub encode_into-layout :
    (h : DatabaseHeader) (out : Bytes)
    → IsHeader h
    → length out ≡ 4096
    → encode_into h out ≡ ok (layout h)
unfolding encode_into
encode_into-layout h out v e = rw (
  e,
  v.counted,
  zero_fill-eq_replicate out 4096 e,
  copy_bytes-zeros 4 4092 4096 0 [] database_magic_bytes refl length-magic refl,
  write_le-zeros 4 4088 4092 2 4 database_magic_bytes length-magic refl (omega arith),
  write_le-zeros 4 4084 4088 4096 8 (to_8 h) (length-to_8 h) refl (omega arith),
  write_le-zeros 4 4080 4084 128 12 (to_12 h) (length-to_12 h) refl (omega arith),
  write_le-zeros 8 4072 4080 h.database_id 16 (to_16 h) (length-to_16 h) refl (omega arith),
  write_le-zeros 8 4064 4072 h.page_count 24 (to_24 h) (length-to_24 h) refl (omega arith),
  v.tables,
  write_le-zeros 8 4056 4064 h.system_tables_root_page_id 32 (to_32 h) (length-to_32 h) refl
      (omega arith),
  v.columns,
  write_le-zeros 8 4048 4056 h.system_columns_root_page_id 40 (to_40 h) (length-to_40 h) refl
      (omega arith),
  v.indexes,
  write_le-zeros 8 4040 4048 h.system_indexes_root_page_id 48 (to_48 h) (length-to_48 h) refl
      (omega arith),
  v.index_columns,
  write_le-zeros 8 4032 4040 h.system_index_columns_root_page_id 56 (to_56 h) (length-to_56 h) refl
      (omega arith),
  replicate-split 56 3976 4032 refl,
  ← append_assoc (to_64 h) (replicate 56 0) (replicate 3976 0),
  ← fields-to_64 h,
  write_le-seal_zeros 120 3968 3976 (fields h) (length-fields h) refl,
)
