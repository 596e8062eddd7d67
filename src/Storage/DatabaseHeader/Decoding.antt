-- ===== src/Storage/DatabaseHeader/Decoding.antt =====
-- Decoding the header of src/storage/DatabaseHeader.cpp: which pages are accepted, and what is
-- returned.
use dan_db.Prelude.{
  ℕ, zero, ◌+◌, ◌≤◌, ◌≡◌, ◌↔◌, refl, sym, ap, ◌∙◌, true, ◌++◌, append_assoc, arith, length, take,
  drop, slice, replicate, length-append, length-replicate, length-slice, length-drop,
  take-append-drop, take-append_left, slice-append_left, slice-append_right, slice-append-drop,
  ==_refl,
}
use dan_db.Core.Status.{ok}
use dan_db.Core.Bytes.{
  Bytes, IsBytes, bytes_are_zero, bytes_eq, bytes_eq_refl, eq_of_bytes_eq, bytes_are_zero-replicate,
  eq_replicate_of_zero,
}
use dan_db.Core.Endian.{read_u32_le, read_u64_le}
use dan_db.Core.Endian.Laws.{le_bytes}
use dan_db.Core.Endian.Fields.{seal, read_le-split, read_le-lt, drop-field}
use dan_db.Core.Checksum.{checksum, default_seed}
use dan_db.Core.Checksum.Laws.{checksum-lt}
use dan_db.Storage.DatabaseHeader.{DatabaseHeader, database_magic_bytes, decode, encode_into}
use dan_db.Storage.DatabaseHeader.Layout.{
  fields, layout, FitsWords, IsHeader, length-magic, to_8, to_12, to_16, to_24, to_32, to_40, to_48,
  to_56, to_64, length-to_8, length-to_12, length-to_16, length-to_24, length-to_32, length-to_40,
  length-to_48, length-to_56, length-to_64, fields-to_64, length-fields, length-sealed,
  encode_into-layout,
}

-- What `decode` checks and returns, test by test.
pub record Decoded (page : Bytes) (h : DatabaseHeader) : Type 0 where
  pub size : length page ≡ 4096
  pub magic : bytes_eq (slice 0 4 page) database_magic_bytes ≡ true
  pub version : read_u32_le page 4 ≡ ok 2
  pub stored_page_size : read_u32_le page 8 ≡ ok 4096
  pub header_size : read_u32_le page 12 ≡ ok 128
  pub database_id : read_u64_le page 16 ≡ ok h.database_id
  pub page_count : read_u64_le page 24 ≡ ok h.page_count
  pub tables : read_u64_le page 32 ≡ ok h.system_tables_root_page_id
  pub columns : read_u64_le page 40 ≡ ok h.system_columns_root_page_id
  pub indexes : read_u64_le page 48 ≡ ok h.system_indexes_root_page_id
  pub index_columns : read_u64_le page 56 ≡ ok h.system_index_columns_root_page_id
  pub valid : IsHeader h
  pub reserved : bytes_are_zero (slice 64 56 page) ≡ true
  pub stored_checksum : read_u64_le page 120 ≡ ok (checksum (take 120 page) default_seed)

pub decode-Decoded : (page : Bytes) (h : DatabaseHeader) → decode page ≡ ok h → Decoded page h
unfolding decode
decode-Decoded page h e = ground arith

decode_of_Decoded : (page : Bytes) (h : DatabaseHeader) → Decoded page h → decode page ≡ ok h
unfolding decode
decode_of_Decoded page h d =
    rw
      (
        d.size, d.magic, d.version, d.stored_page_size, d.header_size, d.database_id, d.page_count,
        d.valid.counted, d.tables, d.valid.tables, d.columns, d.valid.columns, d.indexes,
        d.valid.indexes, d.index_columns, d.valid.index_columns, d.reserved, d.stored_checksum,
      )
      (rw (==_refl (checksum (take 120 page) default_seed)))

layout-Decoded :
    (h : DatabaseHeader) (rest : Bytes)
    → FitsWords h
    → IsHeader h
    → length rest ≡ 3968
    → Decoded (seal (fields h) ++ rest) h
unfolding fields
layout-Decoded h rest w v hr =
    let sum = checksum (fields h) default_seed in
    let t10 = le_bytes 8 sum ++ rest in
    let t9 = replicate 56 0 ++ t10 in
    let t8 = le_bytes 8 h.system_index_columns_root_page_id ++ t9 in
    let t7 = le_bytes 8 h.system_indexes_root_page_id ++ t8 in
    let t6 = le_bytes 8 h.system_columns_root_page_id ++ t7 in
    let t5 = le_bytes 8 h.system_tables_root_page_id ++ t6 in
    let t4 = le_bytes 8 h.page_count ++ t5 in
    let t3 = le_bytes 8 h.database_id ++ t4 in
    let t2 = le_bytes 4 128 ++ t3 in
    let t1 = le_bytes 4 4096 ++ t2 in
    let page = seal (fields h) ++ rest in
    let whole : page ≡ fields h ++ t10 = append_assoc (fields h) (le_bytes 8 sum) rest in
    let split : page ≡ to_64 h ++ t9 =
      whole ∙ ap (λ t. t ++ t10) (fields-to_64 h) ∙ append_assoc (to_64 h) (replicate 56 0) t10 in
    let reserved_bytes : slice 64 56 page ≡ replicate 56 0 =
      ap (slice 64 56) split
      ∙ slice-append_right (to_64 h) t9 0 64 56 (omega (arith, length-to_64 h))
      ∙ slice-append_left (replicate 56 0) t10 56 (length-replicate 56 zero) in
    record {
      size = omega (arith, length-append (seal (fields h)) rest, length-sealed h, hr);
      magic =
          ap (λ t. bytes_eq t database_magic_bytes)
            (ap (slice 0 4) (split ∙ simp append_assoc)
              ∙ slice-append_left database_magic_bytes (le_bytes 4 2 ++ t1) 4 length-magic)
          ∙ bytes_eq_refl database_magic_bytes;
      version =
          read_le-split 4 (omega arith) 4 2 database_magic_bytes t1 (split ∙ simp append_assoc)
            length-magic (omega arith);
      stored_page_size =
          read_le-split 4 (omega arith) 8 4096 (to_8 h) t2 (split ∙ simp append_assoc)
            (length-to_8 h) (omega arith);
      header_size =
          read_le-split 4 (omega arith) 12 128 (to_12 h) t3 (split ∙ simp append_assoc)
            (length-to_12 h) (omega arith);
      database_id =
          read_le-split 8 (omega arith) 16 h.database_id (to_16 h) t4 (split ∙ simp append_assoc)
            (length-to_16 h) w.database_id;
      page_count =
          read_le-split 8 (omega arith) 24 h.page_count (to_24 h) t5 (split ∙ simp append_assoc)
            (length-to_24 h) w.page_count;
      tables =
          read_le-split 8 (omega arith) 32 h.system_tables_root_page_id (to_32 h) t6
            (split ∙ simp append_assoc) (length-to_32 h) w.tables_root;
      columns =
          read_le-split 8 (omega arith) 40 h.system_columns_root_page_id (to_40 h) t7
            (split ∙ simp append_assoc) (length-to_40 h) w.columns_root;
      indexes =
          read_le-split 8 (omega arith) 48 h.system_indexes_root_page_id (to_48 h) t8
            (split ∙ simp append_assoc) (length-to_48 h) w.indexes_root;
      index_columns =
          read_le-split 8 (omega arith) 56 h.system_index_columns_root_page_id (to_56 h) t9
            (split ∙ simp append_assoc) (length-to_56 h) w.index_columns_root;
      valid = v;
      reserved = ap bytes_are_zero reserved_bytes ∙ bytes_are_zero-replicate 56;
      stored_checksum =
          read_le-split 8 (omega arith) 120 sum (fields h) rest whole (length-fields h)
            (checksum-lt (fields h) default_seed (omega arith))
          ∙ ap (λ t. ok (checksum t default_seed))
              (sym (ap (take 120) whole ∙ take-append_left (fields h) t10 120 (length-fields h)));
    }

-- From the checks of `decode` back to the bytes: the first 128 are determined.
module _ (page : Bytes) (h : DatabaseHeader) (v : IsBytes page) (d : Decoded page h) where
  Decoded-FitsWords : FitsWords h
  Decoded-FitsWords = record {
    database_id =
        read_le-lt 8 16 h.database_id page (omega arith) (omega (arith, d.size)) v d.database_id;
    page_count =
        read_le-lt 8 24 h.page_count page (omega arith) (omega (arith, d.size)) v d.page_count;
    tables_root =
        read_le-lt 8 32 h.system_tables_root_page_id page (omega arith) (omega (arith, d.size)) v
          d.tables;
    columns_root =
        read_le-lt 8 40 h.system_columns_root_page_id page (omega arith) (omega (arith, d.size)) v
          d.columns;
    indexes_root =
        read_le-lt 8 48 h.system_indexes_root_page_id page (omega arith) (omega (arith, d.size)) v
          d.indexes;
    index_columns_root =
        read_le-lt 8 56 h.system_index_columns_root_page_id page (omega arith)
          (omega (arith, d.size)) v d.index_columns;
  }

  Decoded-magic : page ≡ database_magic_bytes ++ drop 4 page
  unfolding drop
  Decoded-magic =
      sym (slice-append-drop 0 4 4 page refl)
      ∙ ap (λ t. t ++ drop 4 page) (eq_of_bytes_eq (slice 0 4 page) database_magic_bytes d.magic)

  Decoded-reserved : drop 64 page ≡ replicate 56 0 ++ drop 120 page
  Decoded-reserved =
      sym (slice-append-drop 64 56 120 page refl)
      ∙ ap (λ t. t ++ drop 120 page)
          (eq_replicate_of_zero (slice 64 56 page) 56
            (length-slice 64 56 page (omega (arith, d.size))) d.reserved)

  -- A field of the page, and what stands behind it.
  field_4 :
      (offset k value : ℕ)
      → offset + 4 ≡ k
      → k ≤ 4096
      → read_u32_le page offset ≡ ok value
      → drop offset page ≡ le_bytes 4 value ++ drop k page
  field_4 offset k value e fits r =
      drop-field 4 (omega arith) offset k value page e (omega (arith, d.size, fits)) v r

  field_8 :
      (offset k value : ℕ)
      → offset + 8 ≡ k
      → k ≤ 4096
      → read_u64_le page offset ≡ ok value
      → drop offset page ≡ le_bytes 8 value ++ drop k page
  field_8 offset k value e fits r =
      drop-field 8 (omega arith) offset k value page e (omega (arith, d.size, fits)) v r

  Decoded-split : page ≡ fields h ++ drop 120 page
  unfolding fields
  Decoded-split =
      Decoded-magic
      ∙ rw
          (
            field_4 4 8 2 refl (omega arith) d.version,
            field_4 8 12 4096 refl (omega arith) d.stored_page_size,
            field_4 12 16 128 refl (omega arith) d.header_size,
            field_8 16 24 h.database_id refl (omega arith) d.database_id,
            field_8 24 32 h.page_count refl (omega arith) d.page_count,
            field_8 32 40 h.system_tables_root_page_id refl (omega arith) d.tables,
            field_8 40 48 h.system_columns_root_page_id refl (omega arith) d.columns,
            field_8 48 56 h.system_indexes_root_page_id refl (omega arith) d.indexes,
            field_8 56 64 h.system_index_columns_root_page_id refl (omega arith) d.index_columns,
            Decoded-reserved,
          )
          (simp append_assoc)

  Decoded-sealed : take 128 page ≡ seal (fields h)
  Decoded-sealed =
      let sum = checksum (take 120 page) default_seed in
      let body : take 120 page ≡ fields h =
        ap (take 120) Decoded-split
        ∙ take-append_left (fields h) (drop 120 page) 120 (length-fields h) in
      let split : page ≡ seal (fields h) ++ drop 128 page =
        Decoded-split
        ∙ ap (λ t. fields h ++ t)
            (field_8 120 128 sum refl (omega arith) d.stored_checksum
              ∙ ap (λ t. le_bytes 8 (checksum t default_seed) ++ drop 128 page) body)
        ∙ sym (
            append_assoc (fields h) (le_bytes 8 (checksum (fields h) default_seed))
              (drop 128 page)) in
      ap (take 128) split ∙ take-append_left (seal (fields h)) (drop 128 page) 128 (length-sealed h)

-- On any bytes, `decode` returns a header exactly when the bytes are one page, the fields of the header
-- fit their words, there is a page and each root is none or one of the pages, and the first 128 bytes are
-- the header's fields in order and their checksum.
pub decode_database_header_iff-fields :
    (page : Bytes) (h : DatabaseHeader)
    → IsBytes page
    → (decode page ≡ ok h)
      ↔ ((length page ≡ 4096) × FitsWords h × IsHeader h × (take 128 page ≡ seal (fields h)))
decode_database_header_iff-fields page h v = (
  λ e.
      let d = decode-Decoded page h e in
      (d.size, Decoded-FitsWords page h v d, d.valid, Decoded-sealed page h v d),
  λ e.
      let split : page ≡ seal (fields h) ++ drop 128 page =
        sym (take-append-drop 128 page) ∙ ap (λ t. t ++ drop 128 page) (e.3) in
      ap decode split
      ∙ decode_of_Decoded _ h
          (layout-Decoded h (drop 128 page) (e.1) (e.2) (omega (arith, e.0, length-drop 128 page))),
)

pub decode-layout : (h : DatabaseHeader) → FitsWords h → IsHeader h → decode (layout h) ≡ ok h
decode-layout h w v =
    decode_of_Decoded (layout h) h
      (layout-Decoded h (replicate 3968 0) w v (length-replicate 3968 zero))

-- A header of 64-bit numbers with a page and with valid roots, encoded into any buffer of a page's size,
-- is encoded without an error and decodes to itself.
pub decode_database_header-encode_into :
    (h : DatabaseHeader) (out : Bytes)
    → FitsWords h
    → IsHeader h
    → length out ≡ 4096
    → (page : Bytes) × (encode_into h out ≡ ok page) × (decode page ≡ ok h)
decode_database_header-encode_into h out w v e =
    (layout h, encode_into-layout h out v e, decode-layout h w v)
