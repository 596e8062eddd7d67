-- ===== src/Wal/Header/Layout.antt =====
-- The log's header (src/wal/WalHeader.cpp) against the layout of docs/file-format.txt.
use dan_db.Prelude.{
  zero, ◌^◌, ◌<◌, ◌≡◌, refl, ap, ◌∙◌, [], ◌++◌, append_assoc, arith, length, replicate,
  length-append, length-replicate,
}
use dan_db.Core.Status.{ok}
use dan_db.Core.Bytes.{Bytes, zero_fill-eq_replicate}
use dan_db.Core.Endian.Laws.{le_bytes, length-le_bytes}
use dan_db.Core.Endian.Fields.{
  seal, replicate-split, copy_bytes-zeros, write_le-zeros, write_le-seal,
}
use dan_db.Core.Checksum.{checksum, default_seed}
use dan_db.Wal.Header.{WalHeader, wal_magic_bytes, encode_into}

unfoldable pub fields : WalHeader → Bytes
fields h =
    wal_magic_bytes
    ++ (le_bytes 4 1
        ++ (le_bytes 4 4096 ++ (le_bytes 4 64 ++ (le_bytes 8 h.database_id ++ replicate 32 0))))

abbrev pub layout : WalHeader → Bytes
layout h = seal (fields h)

abbrev pub FitsWords : WalHeader → Type 0
FitsWords h = h.database_id < 2 ^ 64

pub length-magic : length wal_magic_bytes ≡ 4
unfolding wal_magic_bytes
length-magic = refl

-- The header up to each of its offsets.
module _ (h : WalHeader) where
  abbrev pub to_8 : Bytes
  to_8 = wal_magic_bytes ++ le_bytes 4 1

  abbrev pub to_12 : Bytes
  to_12 = to_8 ++ le_bytes 4 4096

  abbrev pub to_16 : Bytes
  to_16 = to_12 ++ le_bytes 4 64

  abbrev pub to_24 : Bytes
  to_24 = to_16 ++ le_bytes 8 h.database_id

  pub length-to_8 : length to_8 ≡ 8
  length-to_8 =
      omega (arith, length-append wal_magic_bytes (le_bytes 4 1), length-magic, length-le_bytes)

  pub length-to_12 : length to_12 ≡ 12
  length-to_12 = omega (arith, length-append to_8 (le_bytes 4 4096), length-to_8, length-le_bytes)

  pub length-to_16 : length to_16 ≡ 16
  length-to_16 = omega (arith, length-append to_12 (le_bytes 4 64), length-to_12, length-le_bytes)

  pub length-to_24 : length to_24 ≡ 24
  length-to_24 =
      omega (arith, length-append to_16 (le_bytes 8 h.database_id), length-to_16, length-le_bytes)

  pub fields-to_24 : fields h ≡ to_24 ++ replicate 32 0
  unfolding fields
  fields-to_24 = simp append_assoc

  pub length-fields : length (fields h) ≡ 56
  length-fields =
      ap length fields-to_24
      ∙ omega (arith, length-append to_24 (replicate 32 0), length-to_24, length-replicate 32 zero)

  pub length-layout : length (layout h) ≡ 64
  length-layout = omega (
    arith,
    length-append (fields h) (le_bytes 8 (checksum (fields h) default_seed)),
    length-fields,
    length-le_bytes,
  )

-- Encoding writes the layout into any buffer of the header's size.
pub encode_into-layout :
    (h : WalHeader) (out : Bytes) → length out ≡ 64 → encode_into h out ≡ ok (layout h)
unfolding encode_into
encode_into-layout h out e = rw (
  e,
  zero_fill-eq_replicate out 64 e,
  copy_bytes-zeros 4 60 64 0 [] wal_magic_bytes refl length-magic refl,
  write_le-zeros 4 56 60 1 4 wal_magic_bytes length-magic refl (omega arith),
  write_le-zeros 4 52 56 4096 8 (to_8 h) (length-to_8 h) refl (omega arith),
  write_le-zeros 4 48 52 64 12 (to_12 h) (length-to_12 h) refl (omega arith),
  write_le-zeros 8 40 48 h.database_id 16 (to_16 h) (length-to_16 h) refl (omega arith),
  replicate-split 32 8 40 refl,
  ← append_assoc (to_24 h) (replicate 32 0) (replicate 8 0),
  ← fields-to_24 h,
  write_le-seal 56 (fields h) (length-fields h),
)
