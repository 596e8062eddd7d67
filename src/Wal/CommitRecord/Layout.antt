-- ===== src/Wal/CommitRecord/Layout.antt =====
-- The commit record of src/wal/WalCommitRecord.cpp against the layout of docs/file-format.txt.
use dan_db.Prelude.{◌^◌, ◌<◌, ◌≡◌, refl, ap, [], ◌++◌, append_assoc, arith, length, length-append}
use dan_db.Core.Status.{ok}
use dan_db.Core.Bytes.{Bytes, zero_fill-eq_replicate}
use dan_db.Core.Endian.Laws.{le_bytes, length-le_bytes}
use dan_db.Core.Endian.Fields.{seal, write_le-zeros, write_le-seal}
use dan_db.Core.Checksum.{checksum, default_seed}
use dan_db.Wal.CommitRecord.{WalCommitRecord, encode_into}

-- The fields in the order of the file format; the checksum follows them.
unfoldable pub fields : WalCommitRecord → Bytes
fields r =
    le_bytes 4 2 ++ (le_bytes 4 32 ++ (le_bytes 8 r.transaction_id ++ le_bytes 8 r.frame_count))

abbrev pub layout : WalCommitRecord → Bytes
layout r = seal (fields r)

abbrev pub FitsWords : WalCommitRecord → Type 0
FitsWords r = (r.transaction_id < 2 ^ 64) × (r.frame_count < 2 ^ 64)

pub length-fields : (r : WalCommitRecord) → length (fields r) ≡ 24
unfolding fields
length-fields r = omega (
  arith,
  length-append (le_bytes 4 2)
      (le_bytes 4 32 ++ (le_bytes 8 r.transaction_id ++ le_bytes 8 r.frame_count)),
  length-append (le_bytes 4 32) (le_bytes 8 r.transaction_id ++ le_bytes 8 r.frame_count),
  length-append (le_bytes 8 r.transaction_id) (le_bytes 8 r.frame_count),
  length-le_bytes,
)

pub length-layout : (r : WalCommitRecord) → length (layout r) ≡ 32
length-layout r = omega (
  arith,
  length-append (fields r) (le_bytes 8 (checksum (fields r) default_seed)),
  length-fields r,
  length-le_bytes,
)

-- Encoding writes the layout into any buffer of the record's size.
pub encode_into-layout :
    (r : WalCommitRecord) (out : Bytes) → length out ≡ 32 → encode_into r out ≡ ok (layout r)
unfolding encode_into fields
encode_into-layout r out h =
    let f1 = le_bytes 4 2 in
    let f2 = f1 ++ le_bytes 4 32 in
    let f3 = f2 ++ le_bytes 8 r.transaction_id in
    let f4 = f3 ++ le_bytes 8 r.frame_count in
    let l1 : length f1 ≡ 4 = length-le_bytes 4 2 in
    let l2 : length f2 ≡ 8 = omega (arith, length-append f1 (le_bytes 4 32), length-le_bytes) in
    let l3 : length f3 ≡ 16 =
      omega (arith, length-append f2 (le_bytes 8 r.transaction_id), length-le_bytes) in
    let l4 : length f4 ≡ 24 =
      omega (arith, length-append f3 (le_bytes 8 r.frame_count), length-le_bytes) in
    rw
      (
        h,
        zero_fill-eq_replicate out 32 h,
        write_le-zeros 4 28 32 2 0 [] refl refl (omega arith),
        write_le-zeros 4 24 28 32 4 f1 l1 refl (omega arith),
        write_le-zeros 8 16 24 r.transaction_id 8 f2 l2 refl (omega arith),
        write_le-zeros 8 8 16 r.frame_count 16 f3 l3 refl (omega arith),
        write_le-seal 24 f4 l4,
      )
      (ap (λ t. ok (seal t)) (simp append_assoc))

-- The layout behind its record type.
pub after_type : WalCommitRecord → Bytes
after_type r =
    le_bytes 4 32
    ++ (le_bytes 8 r.transaction_id
        ++ (le_bytes 8 r.frame_count ++ le_bytes 8 (checksum (fields r) default_seed)))

pub layout-after_type : (r : WalCommitRecord) → layout r ≡ le_bytes 4 2 ++ after_type r
unfolding fields after_type
layout-after_type r = simp append_assoc
