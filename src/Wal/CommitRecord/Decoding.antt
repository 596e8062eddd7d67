-- ===== src/Wal/CommitRecord/Decoding.antt =====
-- Decoding the commit record of src/wal/WalCommitRecord.cpp: which bytes are accepted, and what is returned.
use dan_db.Prelude.{
  ℕ, ◌≢◌, ◌↔◌, inl, inr, ◌∷◌, drop, ==_refl, take-append_left, ◌<◌, ◌≡◌, refl, sym, ap, ◌∙◌, [],
  ◌++◌, append_assoc, append-nil, arith, length, take, length-append,
}
use dan_db.Core.Status.{StatusCode, Result-cases, ok, err, corruption}
use dan_db.Core.Bytes.{Bytes, IsBytes, IsBytes-append_right, IsBytes-replace, length-replace}
use dan_db.Core.Endian.{read_u32_le, read_u64_le}
use dan_db.Core.Endian.Laws.{le_bytes, length-le_bytes, read_le-slice}
use dan_db.Core.Endian.Fields.{seal-one_byte, read_le-split, read_le-lt, drop-field, drop-last}
use dan_db.Core.Checksum.{checksum, default_seed}
use dan_db.Core.Checksum.Laws.{checksum-lt}
use dan_db.Wal.CommitRecord.{WalCommitRecord, decode, encode_into}
use dan_db.Wal.CommitRecord.Layout.{
  encode_into-layout, fields, layout, FitsWords, length-fields, length-layout,
}

-- The fields in the order of the file format; the checksum follows them.
-- What `decode` checks and returns, test by test.
pub record Decoded (bytes : Bytes) (r : WalCommitRecord) : Type 0 where
  pub size : length bytes ≡ 32
  pub record_type : read_u32_le bytes 0 ≡ ok 2
  pub record_size : read_u32_le bytes 4 ≡ ok 32
  pub transaction_id : read_u64_le bytes 8 ≡ ok r.transaction_id
  pub frame_count : read_u64_le bytes 16 ≡ ok r.frame_count
  pub stored_checksum : read_u64_le bytes 24 ≡ ok (checksum (take 24 bytes) default_seed)

pub decode-Decoded : (bytes : Bytes) (r : WalCommitRecord) → decode bytes ≡ ok r → Decoded bytes r
unfolding decode
decode-Decoded bytes r h = ground arith

decode_of_Decoded : (bytes : Bytes) (r : WalCommitRecord) → Decoded bytes r → decode bytes ≡ ok r
unfolding decode
decode_of_Decoded bytes r d =
    rw (d.size, d.record_type, d.record_size, d.transaction_id, d.frame_count, d.stored_checksum)
      (rw (==_refl (checksum (take 24 bytes) default_seed)))

layout-Decoded : (r : WalCommitRecord) → FitsWords r → Decoded (layout r) r
unfolding fields
layout-Decoded r w =
    let f1 = le_bytes 4 2 in
    let f2 = f1 ++ le_bytes 4 32 in
    let f3 = f2 ++ le_bytes 8 r.transaction_id in
    let f4 = f3 ++ le_bytes 8 r.frame_count in
    let sum = checksum (fields r) default_seed in
    let t4 = le_bytes 8 sum in
    let t3 = le_bytes 8 r.frame_count ++ t4 in
    let t2 = le_bytes 8 r.transaction_id ++ t3 in
    let t1 = le_bytes 4 32 ++ t2 in
    let l2 : length f2 ≡ 8 = omega (arith, length-append f1 (le_bytes 4 32), length-le_bytes) in
    let l3 : length f3 ≡ 16 =
      omega (arith, length-append f2 (le_bytes 8 r.transaction_id), length-le_bytes) in
    record {
      size = length-layout r;
      record_type = read_le-split 4 (omega arith) 0 2 [] t1 (simp append_assoc) refl (omega arith);
      record_size =
          read_le-split 4 (omega arith) 4 32 f1 t2 (simp append_assoc) (length-le_bytes 4 2)
            (omega arith);
      transaction_id =
          read_le-split 8 (omega arith) 8 r.transaction_id f2 t3 (simp append_assoc) l2 w.0;
      frame_count = read_le-split 8 (omega arith) 16 r.frame_count f3 t4 (simp append_assoc) l3 w.1;
      stored_checksum = rw (take-append_left (fields r) t4 24 (length-fields r)) (
          read_le-split 8 (omega arith) 24 sum (fields r) [] (simp (append_assoc, append-nil))
            (length-fields r) (checksum-lt (fields r) default_seed (omega arith)));
    }

-- From the checks of `decode` back to the layout: every byte of the record is determined.
module _ (bytes : Bytes) (r : WalCommitRecord) (v : IsBytes bytes) (d : Decoded bytes r) where
  Decoded-FitsWords : FitsWords r
  Decoded-FitsWords = (
    read_le-lt 8 8 r.transaction_id bytes (omega arith) (omega (arith, d.size)) v d.transaction_id,
    read_le-lt 8 16 r.frame_count bytes (omega arith) (omega (arith, d.size)) v d.frame_count,
  )

  Decoded-split : bytes ≡ fields r ++ drop 24 bytes
  unfolding fields drop
  Decoded-split =
      drop-field 4 (omega arith) 0 4 2 bytes refl (omega (arith, d.size)) v d.record_type
      ∙ ap (λ t. le_bytes 4 2 ++ t)
          (drop-field 4 (omega arith) 4 8 32 bytes refl (omega (arith, d.size)) v d.record_size
            ∙ ap (λ t. le_bytes 4 32 ++ t)
                (drop-field 8 (omega arith) 8 16 r.transaction_id bytes refl (omega (arith, d.size))
                    v d.transaction_id
                  ∙ ap (λ t. le_bytes 8 r.transaction_id ++ t)
                      (drop-field 8 (omega arith) 16 24 r.frame_count bytes refl
                        (omega (arith, d.size)) v d.frame_count)))
      ∙ simp append_assoc

  Decoded-layout : bytes ≡ layout r
  Decoded-layout =
      let body : take 24 bytes ≡ fields r =
        ap (take 24) Decoded-split
        ∙ take-append_left (fields r) (drop 24 bytes) 24 (length-fields r) in
      Decoded-split
      ∙ ap (λ t. fields r ++ t)
          (drop-last 8 24 (checksum (take 24 bytes) default_seed) bytes (omega arith) (sym d.size) v
              d.stored_checksum
            ∙ ap (λ t. le_bytes 8 (checksum t default_seed)) body)

-- On any bytes, `decode` returns a commit record exactly when its fields fit their words and the bytes are
-- its layout in the file format: its fields in order and the checksum of what stands before it.
pub decode_commit_record_iff-layout :
    (bytes : Bytes) (r : WalCommitRecord)
    → IsBytes bytes
    → (decode bytes ≡ ok r) ↔ (FitsWords r × (bytes ≡ layout r))
decode_commit_record_iff-layout bytes r v = (
  λ h.
      let d = decode-Decoded bytes r h in
      (Decoded-FitsWords bytes r v d, Decoded-layout bytes r v d),
  λ h. rw (h.1) (decode_of_Decoded (layout r) r (layout-Decoded r h.0)),
)

pub decode-layout : (r : WalCommitRecord) → FitsWords r → decode (layout r) ≡ ok r
decode-layout r w = decode_of_Decoded (layout r) r (layout-Decoded r w)

-- A commit record whose numbers fit 64 bits, encoded into any buffer of 32 bytes, is encoded without
-- an error and decodes to itself.
pub decode_commit_record-encode_into :
    (r : WalCommitRecord) (out : Bytes)
    → FitsWords r
    → length out ≡ 32
    → (encoded : Bytes) × (encode_into r out ≡ ok encoded) × (decode encoded ≡ ok r)
decode_commit_record-encode_into r out w h =
    (layout r, encode_into-layout r out h, decode-layout r w)

-- Bytes of the record's size that do not decode are reported as corruption.
pub decode-error :
    (bytes : Bytes) (e : StatusCode)
    → IsBytes bytes
    → length bytes ≡ 32
    → decode bytes ≡ err e
    → e ≡ corruption
unfolding decode
decode-error bytes e v h x = ground (
  arith,
  read_le-slice 4 0 bytes (omega arith) (omega arith) v,
  read_le-slice 4 4 bytes (omega arith) (omega arith) v,
  read_le-slice 8 8 bytes (omega arith) (omega arith) v,
  read_le-slice 8 16 bytes (omega arith) (omega arith) v,
  read_le-slice 8 24 bytes (omega arith) (omega arith) v,
)

-- When bytes decode to a commit record, the same bytes with any single byte changed to another value
-- do not decode, and the error is corruption.
pub decode_commit_record_one_byte :
    (front back : Bytes) (a b : ℕ) (r : WalCommitRecord)
    → IsBytes (front ++ (a ∷ back))
    → b < 256
    → a ≢ b
    → decode (front ++ (a ∷ back)) ≡ ok r
    → decode (front ++ (b ∷ back)) ≡ err corruption
decode_commit_record_one_byte front back a b r v hb ne h =
    let d = decode-Decoded (front ++ (a ∷ back)) r h in
    let tail = IsBytes-append_right front (a ∷ back) v in
    let v' = IsBytes-replace front back a b hb v in
    elim (Result-cases (decode (front ++ (b ∷ back)))) [
      | inl (r', h') ↦ absurd (
          seal-one_byte (fields r) (fields r') front back a b tail.0 hb tail.1
            (length-fields r ∙ sym (length-fields r')) (Decoded-layout _ r v d)
            (Decoded-layout _ r' v' (decode-Decoded _ r' h')) ne)
      | inr (e, h') ↦
          h' ∙ ap err (decode-error _ e v' (sym (length-replace front back a b) ∙ d.size) h')
    ]
