-- ===== src/Wal/PageFrame/Layout.antt =====
-- The page frame of src/wal/WalPageFrame.cpp against the layout of docs/file-format.txt.
use dan_db.Prelude.{
  zero, ◌^◌, ◌<◌, ◌≡◌, refl, ap, ◌∙◌, [], ◌++◌, append_assoc, arith, length, replicate,
  length-append, length-replicate,
}
use dan_db.Core.Status.{ok}
use dan_db.Core.Bytes.{Bytes, IsBytes, zero_fill-eq_replicate}
use dan_db.Core.Endian.Laws.{le_bytes, length-le_bytes}
use dan_db.Core.Endian.Fields.{
  seal, replicate-split, copy_bytes-zeros, write_le-zeros, write_le-seal,
}
use dan_db.Core.Checksum.{checksum, default_seed}
use dan_db.Wal.PageFrame.{WalPageFrame, encode_into}

unfoldable pub fields : WalPageFrame → Bytes
fields f =
    le_bytes 4 1
    ++ (le_bytes 4 4136
        ++ (le_bytes 8 f.transaction_id
            ++ (le_bytes 8 f.page_id ++ (le_bytes 4 4096 ++ (replicate 4 0 ++ f.page_image)))))

abbrev pub layout : WalPageFrame → Bytes
layout f = seal (fields f)

-- The numbers are 64-bit words, and the image is an array of one page.
pub record FitsWords (f : WalPageFrame) : Type 0 where
  pub transaction_id : f.transaction_id < 2 ^ 64
  pub page_id : f.page_id < 2 ^ 64
  pub image_size : length f.page_image ≡ 4096
  pub image_bytes : IsBytes f.page_image

-- The record up to each of its offsets.
module _ (f : WalPageFrame) where
  abbrev pub to_4 : Bytes
  to_4 = le_bytes 4 1

  abbrev pub to_8 : Bytes
  to_8 = to_4 ++ le_bytes 4 4136

  abbrev pub to_16 : Bytes
  to_16 = to_8 ++ le_bytes 8 f.transaction_id

  abbrev pub to_24 : Bytes
  to_24 = to_16 ++ le_bytes 8 f.page_id

  abbrev pub to_28 : Bytes
  to_28 = to_24 ++ le_bytes 4 4096

  abbrev pub to_32 : Bytes
  to_32 = to_28 ++ replicate 4 0

  pub length-to_8 : length to_8 ≡ 8
  length-to_8 = omega (arith, length-append to_4 (le_bytes 4 4136), length-le_bytes)

  pub length-to_16 : length to_16 ≡ 16
  length-to_16 =
      omega (arith, length-append to_8 (le_bytes 8 f.transaction_id), length-to_8, length-le_bytes)

  pub length-to_24 : length to_24 ≡ 24
  length-to_24 =
      omega (arith, length-append to_16 (le_bytes 8 f.page_id), length-to_16, length-le_bytes)

  pub length-to_28 : length to_28 ≡ 28
  length-to_28 = omega (arith, length-append to_24 (le_bytes 4 4096), length-to_24, length-le_bytes)

  pub length-to_32 : length to_32 ≡ 32
  length-to_32 =
      omega (arith, length-append to_28 (replicate 4 0), length-to_28, length-replicate 4 zero)

  pub fields-to_32 : fields f ≡ to_32 ++ f.page_image
  unfolding fields
  fields-to_32 = simp append_assoc

  module _ (size : length f.page_image ≡ 4096) where
    pub length-fields : length (fields f) ≡ 4128
    length-fields =
        ap length fields-to_32 ∙ omega (arith, length-append to_32 f.page_image, length-to_32)

    pub length-layout : length (layout f) ≡ 4136
    length-layout = omega (
      arith,
      length-append (fields f) (le_bytes 8 (checksum (fields f) default_seed)),
      length-fields,
      length-le_bytes,
    )

-- Encoding writes the layout into any buffer of the record's size.
pub encode_into-layout :
    (f : WalPageFrame) (out : Bytes)
    → length f.page_image ≡ 4096
    → length out ≡ 4136
    → encode_into f out ≡ ok (layout f)
unfolding encode_into
encode_into-layout f out size e = rw (
  e,
  zero_fill-eq_replicate out 4136 e,
  write_le-zeros 4 4132 4136 1 0 [] refl refl (omega arith),
  write_le-zeros 4 4128 4132 4136 4 (to_4 f) (length-le_bytes 4 1) refl (omega arith),
  write_le-zeros 8 4120 4128 f.transaction_id 8 (to_8 f) (length-to_8 f) refl (omega arith),
  write_le-zeros 8 4112 4120 f.page_id 16 (to_16 f) (length-to_16 f) refl (omega arith),
  write_le-zeros 4 4108 4112 4096 24 (to_24 f) (length-to_24 f) refl (omega arith),
  replicate-split 4 4104 4108 refl,
  ← append_assoc (to_28 f) (replicate 4 0) (replicate 4104 0),
  copy_bytes-zeros 4096 8 4104 32 (to_32 f) f.page_image (length-to_32 f) size refl,
  ← fields-to_32 f,
  write_le-seal 4128 (fields f) (length-fields f size),
)

-- The layout behind its record type.
pub after_type : WalPageFrame → Bytes
after_type f =
    le_bytes 4 4136
    ++ (le_bytes 8 f.transaction_id
        ++ (le_bytes 8 f.page_id
            ++ (le_bytes 4 4096
                ++ (replicate 4 0
                    ++ (f.page_image ++ le_bytes 8 (checksum (fields f) default_seed))))))

pub layout-after_type : (f : WalPageFrame) → layout f ≡ le_bytes 4 1 ++ after_type f
unfolding fields after_type
layout-after_type f = simp append_assoc
