-- ===== src/Tests/Records.antt =====
-- The records of the log (src/wal) at concrete inputs.
use dan_db.Prelude.{
  ◌≡◌, refl, ap, sym, subst, ◌∙◌, ◌↔◌, [], ◌∷◌, ◌++◌, arith, replicate, length-replicate, drop,
}
use dan_db.Core.Status.{ok, err, corruption}
use dan_db.Core.Bytes.{Bytes, IsBytes, IsBytes-replicate, IsBytes-append}
use dan_db.Core.Checksum.{checksum, default_seed}
use dan_db.Core.Endian.Laws.{le_bytes, le_bytes-IsBytes}
use dan_db.Wal.Header
use dan_db.Wal.Header.{WalHeader, wal_magic_bytes}
use dan_db.Wal.Header.Layout as HeaderLayout
use dan_db.Wal.Header.Decoding as HeaderDecoding
use dan_db.Wal.PageFrame
use dan_db.Wal.PageFrame.{WalPageFrame}
use dan_db.Wal.PageFrame.Layout as FrameLayout
use dan_db.Wal.PageFrame.Decoding as FrameDecoding
use dan_db.Wal.CommitRecord
use dan_db.Wal.CommitRecord.{WalCommitRecord}
use dan_db.Wal.CommitRecord.Layout as CommitLayout
use dan_db.Wal.CommitRecord.Decoding as CommitDecoding

sealed-IsBytes :
    (body : Bytes) → IsBytes body → IsBytes (body ++ le_bytes 8 (checksum body default_seed))
sealed-IsBytes body v = IsBytes-append body _ v (le_bytes-IsBytes 8 _)

abbrev frame : WalPageFrame
frame = record { transaction_id = 5; page_id = 3; page_image = replicate 4096 0 }

frame-FitsWords : FrameLayout.FitsWords frame
frame-FitsWords = record {
  transaction_id = omega arith;
  page_id = omega arith;
  image_size = length-replicate 4096 0;
  image_bytes = IsBytes-replicate 4096;
}

frame-IsBytes : IsBytes (FrameLayout.layout frame)
unfolding FrameLayout.fields
frame-IsBytes = sealed-IsBytes (FrameLayout.fields frame) (
    IsBytes-append _ _ (le_bytes-IsBytes 4 1) (
      IsBytes-append _ _ (le_bytes-IsBytes 4 4136) (
        IsBytes-append _ _ (le_bytes-IsBytes 8 5) (
          IsBytes-append _ _ (le_bytes-IsBytes 8 3) (
            IsBytes-append _ _ (le_bytes-IsBytes 4 4096)
              (IsBytes-append _ _ (IsBytes-replicate 4) (IsBytes-replicate 4096)))))))

decode_page_frame_iff-layout_example :
    (PageFrame.decode (FrameLayout.layout frame) ≡ ok frame)
    ↔ (FrameLayout.FitsWords frame × (FrameLayout.layout frame ≡ FrameLayout.layout frame))
decode_page_frame_iff-layout_example =
    FrameDecoding.decode_page_frame_iff-layout (FrameLayout.layout frame) frame frame-IsBytes

decode_page_frame-encode_into_example :
    (encoded : Bytes) × (PageFrame.encode_into frame (replicate 4136 0) ≡ ok encoded)
    × (PageFrame.decode encoded ≡ ok frame)
decode_page_frame-encode_into_example =
    FrameDecoding.decode_page_frame-encode_into frame (replicate 4136 0) frame-FitsWords
      (length-replicate 4136 0)

-- The layout begins with the record type.
abbrev frame_tail : Bytes
frame_tail = drop 1 (FrameLayout.layout frame)

frame_split : FrameLayout.layout frame ≡ 1 ∷ frame_tail
unfolding FrameLayout.fields le_bytes drop
frame_split = refl

decode_page_frame_one_byte_example : PageFrame.decode (2 ∷ frame_tail) ≡ err corruption
decode_page_frame_one_byte_example =
    FrameDecoding.decode_page_frame_one_byte [] frame_tail 1 2 frame
      (subst IsBytes frame_split frame-IsBytes) (omega arith) (λ e. absurd (omega arith))
      (ap PageFrame.decode (sym frame_split) ∙ FrameDecoding.decode-layout frame frame-FitsWords)

abbrev header : WalHeader
header = record { database_id = 77 }

header-IsBytes : IsBytes (HeaderLayout.layout header)
unfolding HeaderLayout.fields wal_magic_bytes
header-IsBytes = sealed-IsBytes (HeaderLayout.fields header) (
    IsBytes-append wal_magic_bytes _ (omega arith, (omega arith, (omega arith, (omega arith, tt))))
      (IsBytes-append _ _ (le_bytes-IsBytes 4 1) (
        IsBytes-append _ _ (le_bytes-IsBytes 4 4096) (
          IsBytes-append _ _ (le_bytes-IsBytes 4 64)
            (IsBytes-append _ _ (le_bytes-IsBytes 8 77) (IsBytes-replicate 32))))))

decode_header_iff-layout_example :
    (Header.decode (HeaderLayout.layout header) ≡ ok header)
    ↔ (HeaderLayout.FitsWords header × (HeaderLayout.layout header ≡ HeaderLayout.layout header))
decode_header_iff-layout_example =
    HeaderDecoding.decode_header_iff-layout (HeaderLayout.layout header) header header-IsBytes

decode_header-encode_into_example :
    (encoded : Bytes) × (Header.encode_into header (replicate 64 0) ≡ ok encoded)
    × (Header.decode encoded ≡ ok header)
decode_header-encode_into_example =
    HeaderDecoding.decode_header-encode_into header (replicate 64 0) (omega arith)
      (length-replicate 64 0)

abbrev header_front : Bytes
header_front = wal_magic_bytes

-- The layout goes on with the format version behind the magic number.
abbrev header_tail : Bytes
header_tail = drop 5 (HeaderLayout.layout header)

header_split : HeaderLayout.layout header ≡ header_front ++ (1 ∷ header_tail)
unfolding HeaderLayout.fields wal_magic_bytes le_bytes drop
header_split = refl

decode_header_one_byte_example : Header.decode (header_front ++ (2 ∷ header_tail)) ≡ err corruption
decode_header_one_byte_example =
    HeaderDecoding.decode_header_one_byte header_front header_tail 1 2 header
      (subst IsBytes header_split header-IsBytes) (omega arith) (λ e. absurd (omega arith))
      (ap Header.decode (sym header_split) ∙ HeaderDecoding.decode-layout header (omega arith))

abbrev commit : WalCommitRecord
commit = record { transaction_id = 5; frame_count = 2 }

commit-IsBytes : IsBytes (CommitLayout.layout commit)
unfolding CommitLayout.fields
commit-IsBytes = sealed-IsBytes (CommitLayout.fields commit) (
    IsBytes-append _ _ (le_bytes-IsBytes 4 2) (
      IsBytes-append _ _ (le_bytes-IsBytes 4 32)
        (IsBytes-append _ _ (le_bytes-IsBytes 8 5) (le_bytes-IsBytes 8 2))))

decode_commit_record_iff-layout_example :
    (CommitRecord.decode (CommitLayout.layout commit) ≡ ok commit)
    ↔ (CommitLayout.FitsWords commit × (CommitLayout.layout commit ≡ CommitLayout.layout commit))
decode_commit_record_iff-layout_example =
    CommitDecoding.decode_commit_record_iff-layout (CommitLayout.layout commit) commit
      commit-IsBytes

decode_commit_record-encode_into_example :
    (encoded : Bytes) × (CommitRecord.encode_into commit (replicate 32 0) ≡ ok encoded)
    × (CommitRecord.decode encoded ≡ ok commit)
decode_commit_record-encode_into_example =
    CommitDecoding.decode_commit_record-encode_into commit (replicate 32 0)
      (omega arith, omega arith) (length-replicate 32 0)

abbrev commit_tail : Bytes
commit_tail = drop 1 (CommitLayout.layout commit)

commit_split : CommitLayout.layout commit ≡ 2 ∷ commit_tail
unfolding CommitLayout.fields le_bytes drop
commit_split = refl

decode_commit_record_one_byte_example : CommitRecord.decode (1 ∷ commit_tail) ≡ err corruption
decode_commit_record_one_byte_example =
    CommitDecoding.decode_commit_record_one_byte [] commit_tail 2 1 commit
      (subst IsBytes commit_split commit-IsBytes) (omega arith) (λ e. absurd (omega arith))
      (ap CommitRecord.decode (sym commit_split)
        ∙ CommitDecoding.decode-layout commit (omega arith, omega arith))
