-- ===== src/Wal/Scanner.antt =====
-- src/wal/WalScanner.cpp, include/dandb/wal/WalScanResult.h and PendingFrame.h: the scan of a log
-- that finds the last committed frame of each page.
pub mod Handlers
pub mod Rounds
pub mod Soundness
pub mod Log
pub mod Intact
pub mod Collect
pub mod Replay
pub mod Crash
pub mod Recovery
use dan_db.Prelude.{
  ℕ, zero, suc, ◌+◌, ◌-◌, Bool, true, false, not, ◌||◌, Option, none, some, List, [], ◌∷◌, ◌++◌,
  ltb, ◌==◌, if◌then◌else◌, length,
}
use dan_db.Prelude.Map.{Map, insert}
use dan_db.Core.Status.{Result, ok, err, corruption, require, ◌>>=◌, ◌>>◌}
use dan_db.Core.Bytes.{Bytes}
use dan_db.Core.Endian.{read_u32_le}
use dan_db.Storage.Page.{PageId}
use dan_db.Wal.Header
use dan_db.Wal.Header.{WalHeader, wal_header_size}
use dan_db.Wal.PageFrame
use dan_db.Wal.PageFrame.{WalPageFrame, wal_page_frame_record_type, wal_page_frame_record_size}
use dan_db.Wal.CommitRecord
use dan_db.Wal.CommitRecord.{WalCommitRecord, wal_commit_record_type, wal_commit_record_size}

pub record PendingFrame : Type 0 where
  pub offset : ℕ
  pub page_id : PageId

pub record WalScanResult : Type 0 where
  pub latest_committed_frame_offsets : Map ℕ
  pub valid_wal_end_offset : ℕ
  pub ignored_trailing_bytes : Bool

-- The variables of the loop.
pub record Scan : Type 0 where
  pub pending_frames : List PendingFrame
  pub pending_transaction_id : ℕ
  pub has_pending_transaction : Bool
  pub latest : Map ℕ
  pub valid_wal_end_offset : ℕ
  pub is_damaged_tail : Bool
  pub offset : ℕ

-- A round goes on with the next one, or leaves the loop by `break` or by its test.
pub data Round : Type 0 where
  next : Scan → Round
  done : Scan → Round

abbrev pub start : Scan
start = record {
  pending_frames = [];
  pending_transaction_id = 0;
  has_pending_transaction = false;
  latest = [];
  valid_wal_end_offset = wal_header_size;
  is_damaged_tail = false;
  offset = wal_header_size;
}

-- Records after a damaged one are no longer trusted.
unfoldable pub damage : Scan → ℕ → Scan
damage s size = record s {
  is_damaged_tail = true;
  pending_frames = [];
  pending_transaction_id = 0;
  has_pending_transaction = false;
  offset = s.offset + size;
}

unfoldable pub push_frame : Scan → ℕ → PageId → Scan
push_frame s transaction_id page_id = record s {
  pending_frames = s.pending_frames ++ (record { offset = s.offset; page_id = page_id } ∷ []);
  pending_transaction_id = transaction_id;
  has_pending_transaction = true;
  offset = s.offset + wal_page_frame_record_size;
}

-- An intact page frame joins the pending transaction, and a damaged one ends the trusted log.
unfoldable pub on_page_frame : Scan → Result WalPageFrame → Result Round
on_page_frame s (err e) = ok (next (damage s wal_page_frame_record_size))
on_page_frame s (ok frame) =
    if not s.has_pending_transaction
    then ok (next (push_frame s frame.transaction_id frame.page_id))
    else if not (s.pending_transaction_id == frame.transaction_id)
    then err corruption
    else ok (next (push_frame s s.pending_transaction_id frame.page_id))

unfoldable pub publish : List PendingFrame → Map ℕ → Map ℕ
publish [] latest = latest
publish (f ∷ frames) latest = publish frames (insert f.page_id f.offset latest)

unfoldable pub commit_frames : Scan → Scan
unfolding publish
commit_frames s = record s {
  pending_frames = [];
  pending_transaction_id = 0;
  has_pending_transaction = false;
  latest = publish s.pending_frames s.latest;
  valid_wal_end_offset = s.offset + wal_commit_record_size;
  offset = s.offset + wal_commit_record_size;
}

unfoldable pub skip_commit : Scan → Scan
skip_commit s = record s {
  valid_wal_end_offset = s.offset + wal_commit_record_size;
  offset = s.offset + wal_commit_record_size;
}

unfoldable pub on_intact_commit : Scan → WalCommitRecord → Result Round
on_intact_commit s commit =
    if (if s.has_pending_transaction then false else commit.frame_count == 0)
    then ok (next (skip_commit s))
    else if not s.has_pending_transaction
        || (not (commit.transaction_id == s.pending_transaction_id)
            || not (commit.frame_count == length s.pending_frames))
    then err corruption
    else ok (next (commit_frames s))

-- The first argument is `is_damaged_tail`.
unfoldable pub on_commit : Bool → Scan → Result WalCommitRecord → Result Round
on_commit true s (ok commit) = err corruption
on_commit true s (err e) = ok (next (record s { offset = s.offset + wal_commit_record_size }))
on_commit false s (err e) = ok (next (damage s wal_commit_record_size))
on_commit false s (ok commit) = on_intact_commit s commit

unfoldable pub finish : ℕ → Scan → WalScanResult
finish file_size s = record {
  latest_committed_frame_offsets = s.latest;
  valid_wal_end_offset = s.valid_wal_end_offset;
  ignored_trailing_bytes = not (s.valid_wal_end_offset == file_size);
}

unfoldable pub scan_records : ℕ → Option (Result Scan) → Option (Result WalScanResult)
unfolding finish
scan_records file_size none = none
scan_records file_size (some r) = some (r >>= λ s. ok (finish file_size s))

-- `read_at` and `file_size` are what src/platform/FileHandle.cpp returns for the open file.
module _ (read_at : ℕ → ℕ → Result Bytes) (file_size : ℕ) where
  unfoldable pub page_frame_round : Scan → Result Round
  page_frame_round s =
      if ltb (file_size - s.offset) wal_page_frame_record_size
      then ok (done s)
      else if s.is_damaged_tail
      then ok (next (record s { offset = s.offset + wal_page_frame_record_size }))
      else read_at s.offset wal_page_frame_record_size >>= λ bytes.
          on_page_frame s (PageFrame.decode bytes)

  unfoldable pub commit_round : Scan → Result Round
  commit_round s =
      if ltb (file_size - s.offset) wal_commit_record_size
      then ok (done s)
      else read_at s.offset wal_commit_record_size >>= λ bytes.
          on_commit s.is_damaged_tail s (CommitRecord.decode bytes)

  unfoldable pub other_round : Scan → Result Round
  other_round s =
      if ltb (file_size - s.offset) wal_commit_record_size then ok (done s) else err corruption

  unfoldable pub record_round : Scan → ℕ → Result Round
  record_round s stored_record_type =
      if stored_record_type == wal_page_frame_record_type
      then page_frame_round s
      else if stored_record_type == wal_commit_record_type
      then commit_round s
      else other_round s

  -- One round of `while(offset < file_size)`.
  unfoldable pub round : Scan → Result Round
  round s = if not (ltb s.offset file_size) || ltb (file_size - s.offset) 4 then ok (done s) else do
    record_type_bytes ← read_at s.offset 4
    stored_record_type ← read_u32_le record_type_bytes 0
    record_round s stored_record_type

  -- The loop on fuel; `none` means that the fuel ran out.
  unfoldable pub scan_loop : ℕ → Scan → Option (Result Scan)
  scan_loop zero s = none
  scan_loop (suc fuel) s = elim (round s) [
    | err e ↦ some (err e)
    | ok (done t) ↦ some (ok t)
    | ok (next t) ↦ scan_loop fuel t
  ]

  unfoldable pub check_header : ℕ → Result (Unit {0})
  check_header expected_database_id = do
    require (not (ltb file_size wal_header_size)) corruption
    wal_header_bytes ← read_at 0 wal_header_size
    wal_header ← Header.decode wal_header_bytes
    require (wal_header.database_id == expected_database_id) corruption

  -- Every round takes bytes off the file, so `file_size + 1` rounds are enough.
  unfoldable pub scan : ℕ → Option (Result WalScanResult)
  scan expected_database_id = elim (check_header expected_database_id) [
    | err e ↦ some (err e)
    | ok _ ↦ scan_records file_size (scan_loop (suc file_size) start)
  ]
