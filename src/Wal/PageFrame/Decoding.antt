-- ===== src/Wal/PageFrame/Decoding.antt =====
-- Decoding the page frame of src/wal/WalPageFrame.cpp: which bytes are accepted, and what is returned.
use dan_db.Prelude.{
  ℕ, zero, ◌<◌, ◌≡◌, ◌≢◌, ◌↔◌, refl, sym, ap, subst, ◌∙◌, inl, inr, true, [], ◌∷◌, ◌++◌,
  append_assoc, append-nil, arith, length, take, drop, slice, replicate, length-replicate,
  length-slice, take-append_left, slice-append_left, slice-append_right, slice-append-drop, ==_refl,
}
use dan_db.Core.Status.{StatusCode, Result-cases, ok, err, corruption}
use dan_db.Core.Bytes.{
  Bytes, IsBytes, IsBytes-append_right, IsBytes-replace, IsBytes-slice, length-replace,
  bytes_are_zero, bytes_are_zero-replicate, eq_replicate_of_zero,
}
use dan_db.Core.Endian.{read_u32_le, read_u64_le}
use dan_db.Core.Endian.Laws.{le_bytes, length-le_bytes, read_le-slice}
use dan_db.Core.Endian.Fields.{seal-one_byte, read_le-split, read_le-lt, drop-field, drop-last}
use dan_db.Core.Checksum.{checksum, default_seed}
use dan_db.Core.Checksum.Laws.{checksum-lt}
use dan_db.Wal.PageFrame.{WalPageFrame, decode, encode_into}
use dan_db.Wal.PageFrame.Layout.{
  encode_into-layout, fields, layout, FitsWords, to_4, to_8, to_16, to_24, to_28, to_32,
  length-to_8, length-to_16, length-to_24, length-to_28, length-to_32, fields-to_32, length-fields,
  length-layout,
}

-- What `decode` checks and returns, test by test.
pub record Decoded (bytes : Bytes) (f : WalPageFrame) : Type 0 where
  pub size : length bytes ≡ 4136
  pub record_type : read_u32_le bytes 0 ≡ ok 1
  pub record_size : read_u32_le bytes 4 ≡ ok 4136
  pub transaction_id : read_u64_le bytes 8 ≡ ok f.transaction_id
  pub page_id : read_u64_le bytes 16 ≡ ok f.page_id
  pub image_size : read_u32_le bytes 24 ≡ ok 4096
  pub reserved : bytes_are_zero (slice 28 4 bytes) ≡ true
  pub image : slice 32 4096 bytes ≡ f.page_image
  pub stored_checksum : read_u64_le bytes 4128 ≡ ok (checksum (take 4128 bytes) default_seed)

pub decode-Decoded : (bytes : Bytes) (f : WalPageFrame) → decode bytes ≡ ok f → Decoded bytes f
unfolding decode
decode-Decoded bytes f e = ground arith

decode_of_Decoded : (bytes : Bytes) (f : WalPageFrame) → Decoded bytes f → decode bytes ≡ ok f
unfolding decode
decode_of_Decoded bytes f d =
    rw
      (
        d.size, d.record_type, d.record_size, d.transaction_id, d.page_id, d.image_size, d.reserved,
        d.stored_checksum,
      )
      (rw (==_refl (checksum (take 4128 bytes) default_seed), d.image))

layout-Decoded : (f : WalPageFrame) → FitsWords f → Decoded (layout f) f
unfolding fields
layout-Decoded f w =
    let sum = checksum (fields f) default_seed in
    let t7 = le_bytes 8 sum in
    let t6 = f.page_image ++ t7 in
    let t5 = replicate 4 0 ++ t6 in
    let t4 = le_bytes 4 4096 ++ t5 in
    let t3 = le_bytes 8 f.page_id ++ t4 in
    let t2 = le_bytes 8 f.transaction_id ++ t3 in
    let t1 = le_bytes 4 4136 ++ t2 in
    let whole : layout f ≡ to_32 f ++ t6 =
      ap (λ t. t ++ t7) (fields-to_32 f) ∙ append_assoc (to_32 f) f.page_image t7 in
    let reserved_bytes : slice 28 4 (layout f) ≡ replicate 4 0 =
      ap (slice 28 4) (whole ∙ append_assoc (to_28 f) (replicate 4 0) t6)
      ∙ slice-append_right (to_28 f) t5 0 28 4 (omega (arith, length-to_28 f))
      ∙ slice-append_left (replicate 4 0) t6 4 (length-replicate 4 zero) in
    record {
      size = length-layout f w.image_size;
      record_type = read_le-split 4 (omega arith) 0 1 [] t1 (simp append_assoc) refl (omega arith);
      record_size =
          read_le-split 4 (omega arith) 4 4136 (to_4 f) t2 (simp append_assoc) (length-le_bytes 4 1)
            (omega arith);
      transaction_id =
          read_le-split 8 (omega arith) 8 f.transaction_id (to_8 f) t3 (simp append_assoc)
            (length-to_8 f) w.transaction_id;
      page_id =
          read_le-split 8 (omega arith) 16 f.page_id (to_16 f) t4 (simp append_assoc)
            (length-to_16 f) w.page_id;
      image_size =
          read_le-split 4 (omega arith) 24 4096 (to_24 f) t5 (simp append_assoc) (length-to_24 f)
            (omega arith);
      reserved = ap bytes_are_zero reserved_bytes ∙ bytes_are_zero-replicate 4;
      image =
          ap (slice 32 4096) whole
          ∙ slice-append_right (to_32 f) t6 0 32 4096 (omega (arith, length-to_32 f))
          ∙ slice-append_left f.page_image t7 4096 w.image_size;
      stored_checksum = rw (take-append_left (fields f) t7 4128 (length-fields f w.image_size)) (
          read_le-split 8 (omega arith) 4128 sum (fields f) [] (simp (append_assoc, append-nil))
            (length-fields f w.image_size) (checksum-lt (fields f) default_seed (omega arith)));
    }

-- From the checks of `decode` back to the layout: every byte of the record is determined.
module _ (bytes : Bytes) (f : WalPageFrame) (v : IsBytes bytes) (d : Decoded bytes f) where
  pub Decoded-FitsWords : FitsWords f
  Decoded-FitsWords = record {
    transaction_id =
        read_le-lt 8 8 f.transaction_id bytes (omega arith) (omega (arith, d.size)) v
          d.transaction_id;
    page_id = read_le-lt 8 16 f.page_id bytes (omega arith) (omega (arith, d.size)) v d.page_id;
    image_size = ap length (sym d.image) ∙ length-slice 32 4096 bytes (omega (arith, d.size));
    image_bytes = subst IsBytes d.image (IsBytes-slice 32 4096 bytes v);
  }

  Decoded-reserved : drop 28 bytes ≡ replicate 4 0 ++ drop 32 bytes
  Decoded-reserved =
      sym (slice-append-drop 28 4 32 bytes refl)
      ∙ ap (λ t. t ++ drop 32 bytes)
          (eq_replicate_of_zero (slice 28 4 bytes) 4
            (length-slice 28 4 bytes (omega (arith, d.size))) d.reserved)

  Decoded-image : drop 32 bytes ≡ f.page_image ++ drop 4128 bytes
  Decoded-image =
      sym (slice-append-drop 32 4096 4128 bytes refl) ∙ ap (λ t. t ++ drop 4128 bytes) d.image

  Decoded-split : bytes ≡ fields f ++ drop 4128 bytes
  unfolding fields drop
  Decoded-split =
      drop-field 4 (omega arith) 0 4 1 bytes refl (omega (arith, d.size)) v d.record_type
      ∙ ap (λ t. le_bytes 4 1 ++ t)
          (drop-field 4 (omega arith) 4 8 4136 bytes refl (omega (arith, d.size)) v d.record_size
            ∙ ap (λ t. le_bytes 4 4136 ++ t)
                (drop-field 8 (omega arith) 8 16 f.transaction_id bytes refl (omega (arith, d.size))
                    v d.transaction_id
                  ∙ ap (λ t. le_bytes 8 f.transaction_id ++ t)
                      (drop-field 8 (omega arith) 16 24 f.page_id bytes refl (omega (arith, d.size))
                          v d.page_id
                        ∙ ap (λ t. le_bytes 8 f.page_id ++ t)
                            (drop-field 4 (omega arith) 24 28 4096 bytes refl
                                (omega (arith, d.size)) v d.image_size
                              ∙ ap (λ t. le_bytes 4 4096 ++ t)
                                  (Decoded-reserved
                                    ∙ ap (λ t. replicate 4 0 ++ t) Decoded-image)))))
      ∙ simp append_assoc

  Decoded-layout : bytes ≡ layout f
  Decoded-layout =
      let body : take 4128 bytes ≡ fields f =
        ap (take 4128) Decoded-split
        ∙ take-append_left (fields f) (drop 4128 bytes) 4128
            (length-fields f Decoded-FitsWords.image_size) in
      Decoded-split
      ∙ ap (λ t. fields f ++ t)
          (drop-last 8 4128 (checksum (take 4128 bytes) default_seed) bytes (omega arith)
              (sym d.size) v d.stored_checksum
            ∙ ap (λ t. le_bytes 8 (checksum t default_seed)) body)

-- On any bytes, `decode` returns a page frame exactly when its fields fit their words and the bytes are
-- its layout in the file format: its fields in order and the checksum of what stands before it.
pub decode_page_frame_iff-layout :
    (bytes : Bytes) (f : WalPageFrame)
    → IsBytes bytes
    → (decode bytes ≡ ok f) ↔ (FitsWords f × (bytes ≡ layout f))
decode_page_frame_iff-layout bytes f v = (
  λ e.
      let d = decode-Decoded bytes f e in
      (Decoded-FitsWords bytes f v d, Decoded-layout bytes f v d),
  λ e. rw (e.1) (decode_of_Decoded (layout f) f (layout-Decoded f e.0)),
)

pub decode-layout : (f : WalPageFrame) → FitsWords f → decode (layout f) ≡ ok f
decode-layout f w = decode_of_Decoded (layout f) f (layout-Decoded f w)

-- A page frame whose numbers fit 64 bits and whose image is one page of bytes, encoded into any
-- buffer of 4136 bytes, is encoded without an error and decodes to itself.
pub decode_page_frame-encode_into :
    (f : WalPageFrame) (out : Bytes)
    → FitsWords f
    → length out ≡ 4136
    → (encoded : Bytes) × (encode_into f out ≡ ok encoded) × (decode encoded ≡ ok f)
decode_page_frame-encode_into f out w e =
    (layout f, encode_into-layout f out w.image_size e, decode-layout f w)

-- Bytes of the right size that do not decode are reported as corruption.
pub decode-error :
    (bytes : Bytes) (e : StatusCode)
    → IsBytes bytes
    → length bytes ≡ 4136
    → decode bytes ≡ err e
    → e ≡ corruption
unfolding decode
decode-error bytes e v l x = ground (
  arith,
  read_le-slice 4 0 bytes (omega arith) (omega arith) v,
  read_le-slice 4 4 bytes (omega arith) (omega arith) v,
  read_le-slice 8 8 bytes (omega arith) (omega arith) v,
  read_le-slice 8 16 bytes (omega arith) (omega arith) v,
  read_le-slice 4 24 bytes (omega arith) (omega arith) v,
  read_le-slice 8 4128 bytes (omega arith) (omega arith) v,
)

-- When bytes decode to a page frame, the same bytes with any single byte changed to another value do
-- not decode, and the error is corruption.
pub decode_page_frame_one_byte :
    (front back : Bytes) (a b : ℕ) (f : WalPageFrame)
    → IsBytes (front ++ (a ∷ back))
    → b < 256
    → a ≢ b
    → decode (front ++ (a ∷ back)) ≡ ok f
    → decode (front ++ (b ∷ back)) ≡ err corruption
decode_page_frame_one_byte front back a b f v hb ne e =
    let d = decode-Decoded (front ++ (a ∷ back)) f e in
    let tail = IsBytes-append_right front (a ∷ back) v in
    let v' = IsBytes-replace front back a b hb v in
    elim (Result-cases (decode (front ++ (b ∷ back)))) [
      | inl (f', e') ↦
          let d' = decode-Decoded (front ++ (b ∷ back)) f' e' in
          absurd (
            seal-one_byte (fields f) (fields f') front back a b tail.0 hb tail.1
              (length-fields f (Decoded-FitsWords _ f v d).image_size
                ∙ sym (length-fields f' (Decoded-FitsWords _ f' v' d').image_size))
              (Decoded-layout _ f v d) (Decoded-layout _ f' v' d') ne)
      | inr (x, e') ↦
          e' ∙ ap err (decode-error _ x v' (sym (length-replace front back a b) ∙ d.size) e')
    ]
