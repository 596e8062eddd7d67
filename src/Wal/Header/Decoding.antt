-- ===== src/Wal/Header/Decoding.antt =====
-- Decoding the header of src/wal/WalHeader.cpp: which bytes are accepted, and what is returned.
use dan_db.Prelude.{
  ℕ, zero, ◌<◌, ◌≡◌, ◌≢◌, ◌↔◌, refl, sym, ap, ◌∙◌, inl, inr, true, [], ◌∷◌, ◌++◌, append_assoc,
  append-nil, arith, length, take, drop, slice, replicate, length-replicate, length-slice,
  take-append_left, slice-append_left, slice-append_right, slice-append-drop, ==_refl,
}
use dan_db.Core.Status.{StatusCode, Result-cases, ok, err, corruption}
use dan_db.Core.Bytes.{
  Bytes, IsBytes, IsBytes-append_right, IsBytes-replace, length-replace, bytes_are_zero, bytes_eq,
  bytes_eq_refl, eq_of_bytes_eq, bytes_are_zero-replicate, eq_replicate_of_zero,
}
use dan_db.Core.Endian.{read_u32_le, read_u64_le}
use dan_db.Core.Endian.Laws.{le_bytes, read_le-slice}
use dan_db.Core.Endian.Fields.{seal-one_byte, read_le-split, read_le-lt, drop-field, drop-last}
use dan_db.Core.Checksum.{checksum, default_seed}
use dan_db.Core.Checksum.Laws.{checksum-lt}
use dan_db.Wal.Header.{WalHeader, wal_magic_bytes, decode, encode_into}
use dan_db.Wal.Header.Layout.{
  encode_into-layout, fields, layout, FitsWords, length-magic, to_8, to_12, to_16, to_24,
  length-to_8, length-to_12, length-to_16, length-to_24, fields-to_24, length-fields, length-layout,
}

-- What `decode` checks and returns, test by test.
pub record Decoded (bytes : Bytes) (h : WalHeader) : Type 0 where
  pub size : length bytes ≡ 64
  pub magic : bytes_eq (slice 0 4 bytes) wal_magic_bytes ≡ true
  pub version : read_u32_le bytes 4 ≡ ok 1
  pub stored_page_size : read_u32_le bytes 8 ≡ ok 4096
  pub header_size : read_u32_le bytes 12 ≡ ok 64
  pub database_id : read_u64_le bytes 16 ≡ ok h.database_id
  pub reserved : bytes_are_zero (slice 24 32 bytes) ≡ true
  pub stored_checksum : read_u64_le bytes 56 ≡ ok (checksum (take 56 bytes) default_seed)

pub decode-Decoded : (bytes : Bytes) (h : WalHeader) → decode bytes ≡ ok h → Decoded bytes h
unfolding decode
decode-Decoded bytes h e = ground arith

decode_of_Decoded : (bytes : Bytes) (h : WalHeader) → Decoded bytes h → decode bytes ≡ ok h
unfolding decode
decode_of_Decoded bytes h d =
    rw
      (
        d.size, d.magic, d.version, d.stored_page_size, d.header_size, d.database_id, d.reserved,
        d.stored_checksum,
      )
      (rw (==_refl (checksum (take 56 bytes) default_seed)))

layout-Decoded : (h : WalHeader) → FitsWords h → Decoded (layout h) h
unfolding fields
layout-Decoded h w =
    let sum = checksum (fields h) default_seed in
    let t6 = le_bytes 8 sum in
    let t5 = replicate 32 0 ++ t6 in
    let t4 = le_bytes 8 h.database_id ++ t5 in
    let t3 = le_bytes 4 64 ++ t4 in
    let t2 = le_bytes 4 4096 ++ t3 in
    let reserved_bytes : slice 24 32 (layout h) ≡ replicate 32 0 =
      ap (slice 24 32)
        (ap (λ t. t ++ t6) (fields-to_24 h) ∙ append_assoc (to_24 h) (replicate 32 0) t6)
      ∙ slice-append_right (to_24 h) t5 0 24 32 (omega (arith, length-to_24 h))
      ∙ slice-append_left (replicate 32 0) t6 32 (length-replicate 32 zero) in
    record {
      size = length-layout h;
      magic =
          ap (λ t. bytes_eq t wal_magic_bytes)
            (ap (slice 0 4) (append_assoc wal_magic_bytes _ t6)
              ∙ slice-append_left wal_magic_bytes _ 4 length-magic)
          ∙ bytes_eq_refl wal_magic_bytes;
      version =
          read_le-split 4 (omega arith) 4 1 wal_magic_bytes t2 (simp append_assoc) length-magic
            (omega arith);
      stored_page_size =
          read_le-split 4 (omega arith) 8 4096 (to_8 h) t3 (simp append_assoc) (length-to_8 h)
            (omega arith);
      header_size =
          read_le-split 4 (omega arith) 12 64 (to_12 h) t4 (simp append_assoc) (length-to_12 h)
            (omega arith);
      database_id =
          read_le-split 8 (omega arith) 16 h.database_id (to_16 h) t5 (simp append_assoc)
            (length-to_16 h) w;
      reserved = ap bytes_are_zero reserved_bytes ∙ bytes_are_zero-replicate 32;
      stored_checksum = rw (take-append_left (fields h) t6 56 (length-fields h)) (
          read_le-split 8 (omega arith) 56 sum (fields h) [] (simp (append_assoc, append-nil))
            (length-fields h) (checksum-lt (fields h) default_seed (omega arith)));
    }

-- From the checks of `decode` back to the layout: every byte of the header is determined.
module _ (bytes : Bytes) (h : WalHeader) (v : IsBytes bytes) (d : Decoded bytes h) where
  Decoded-FitsWords : FitsWords h
  Decoded-FitsWords =
      read_le-lt 8 16 h.database_id bytes (omega arith) (omega (arith, d.size)) v d.database_id

  Decoded-magic : bytes ≡ wal_magic_bytes ++ drop 4 bytes
  unfolding drop
  Decoded-magic =
      sym (slice-append-drop 0 4 4 bytes refl)
      ∙ ap (λ t. t ++ drop 4 bytes) (eq_of_bytes_eq (slice 0 4 bytes) wal_magic_bytes d.magic)

  Decoded-reserved : drop 24 bytes ≡ replicate 32 0 ++ drop 56 bytes
  Decoded-reserved =
      sym (slice-append-drop 24 32 56 bytes refl)
      ∙ ap (λ t. t ++ drop 56 bytes)
          (eq_replicate_of_zero (slice 24 32 bytes) 32
            (length-slice 24 32 bytes (omega (arith, d.size))) d.reserved)

  Decoded-split : bytes ≡ fields h ++ drop 56 bytes
  unfolding fields
  Decoded-split =
      Decoded-magic
      ∙ ap (λ t. wal_magic_bytes ++ t)
          (drop-field 4 (omega arith) 4 8 1 bytes refl (omega (arith, d.size)) v d.version
            ∙ ap (λ t. le_bytes 4 1 ++ t)
                (drop-field 4 (omega arith) 8 12 4096 bytes refl (omega (arith, d.size)) v
                    d.stored_page_size
                  ∙ ap (λ t. le_bytes 4 4096 ++ t)
                      (drop-field 4 (omega arith) 12 16 64 bytes refl (omega (arith, d.size)) v
                          d.header_size
                        ∙ ap (λ t. le_bytes 4 64 ++ t)
                            (drop-field 8 (omega arith) 16 24 h.database_id bytes refl
                                (omega (arith, d.size)) v d.database_id
                              ∙ ap (λ t. le_bytes 8 h.database_id ++ t) Decoded-reserved))))
      ∙ simp append_assoc

  Decoded-layout : bytes ≡ layout h
  Decoded-layout =
      let body : take 56 bytes ≡ fields h =
        ap (take 56) Decoded-split
        ∙ take-append_left (fields h) (drop 56 bytes) 56 (length-fields h) in
      Decoded-split
      ∙ ap (λ t. fields h ++ t)
          (drop-last 8 56 (checksum (take 56 bytes) default_seed) bytes (omega arith) (sym d.size) v
              d.stored_checksum
            ∙ ap (λ t. le_bytes 8 (checksum t default_seed)) body)

-- On any bytes, `decode` returns a header exactly when its fields fit their words and the bytes are
-- its layout in the file format: its fields in order and the checksum of what stands before it.
pub decode_header_iff-layout :
    (bytes : Bytes) (h : WalHeader)
    → IsBytes bytes
    → (decode bytes ≡ ok h) ↔ (FitsWords h × (bytes ≡ layout h))
decode_header_iff-layout bytes h v = (
  λ e.
      let d = decode-Decoded bytes h e in
      (Decoded-FitsWords bytes h v d, Decoded-layout bytes h v d),
  λ e. rw (e.1) (decode_of_Decoded (layout h) h (layout-Decoded h e.0)),
)

pub decode-layout : (h : WalHeader) → FitsWords h → decode (layout h) ≡ ok h
decode-layout h w = decode_of_Decoded (layout h) h (layout-Decoded h w)

-- A header whose id is a 64-bit number, encoded into any buffer of 64 bytes, is encoded without an
-- error and decodes to itself.
pub decode_header-encode_into :
    (h : WalHeader) (out : Bytes)
    → FitsWords h
    → length out ≡ 64
    → (encoded : Bytes) × (encode_into h out ≡ ok encoded) × (decode encoded ≡ ok h)
decode_header-encode_into h out w e = (layout h, encode_into-layout h out e, decode-layout h w)

-- Bytes of the right size that do not decode are reported as corruption.
pub decode-error :
    (bytes : Bytes) (e : StatusCode)
    → IsBytes bytes
    → length bytes ≡ 64
    → decode bytes ≡ err e
    → e ≡ corruption
unfolding decode
decode-error bytes e v l x = ground (
  arith,
  read_le-slice 4 4 bytes (omega arith) (omega arith) v,
  read_le-slice 4 8 bytes (omega arith) (omega arith) v,
  read_le-slice 4 12 bytes (omega arith) (omega arith) v,
  read_le-slice 8 16 bytes (omega arith) (omega arith) v,
  read_le-slice 8 56 bytes (omega arith) (omega arith) v,
)

-- When bytes decode to a header, the same bytes with any single byte changed to another value do not
-- decode, and the error is corruption.
pub decode_header_one_byte :
    (front back : Bytes) (a b : ℕ) (h : WalHeader)
    → IsBytes (front ++ (a ∷ back))
    → b < 256
    → a ≢ b
    → decode (front ++ (a ∷ back)) ≡ ok h
    → decode (front ++ (b ∷ back)) ≡ err corruption
decode_header_one_byte front back a b h v hb ne e =
    let d = decode-Decoded (front ++ (a ∷ back)) h e in
    let tail = IsBytes-append_right front (a ∷ back) v in
    let v' = IsBytes-replace front back a b hb v in
    elim (Result-cases (decode (front ++ (b ∷ back)))) [
      | inl (h', e') ↦
          let d' = decode-Decoded (front ++ (b ∷ back)) h' e' in
          absurd (
            seal-one_byte (fields h) (fields h') front back a b tail.0 hb tail.1
              (length-fields h ∙ sym (length-fields h')) (Decoded-layout _ h v d)
              (Decoded-layout _ h' v' d') ne)
      | inr (x, e') ↦
          e' ∙ ap err (decode-error _ x v' (sym (length-replace front back a b) ∙ d.size) e')
    ]
