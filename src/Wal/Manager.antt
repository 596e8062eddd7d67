-- ===== src/Wal/Manager.antt =====
-- src/wal/WalManager.cpp: the open log, which appends the frames of a transaction and its commit.
pub mod Appending
pub mod Committing
pub mod Opening
pub mod Resetting
use dan_db.Prelude.{
  ℕ, ◌+◌, ◌-◌, Bool, not, Option, none, some, List, [], ◌∷◌, ltb, ◌==◌, if◌then◌else◌, length,
  replicate,
}
use dan_db.Core.Status.{Result, ok, err, StatusCode, invalid_argument, corruption, internal_error}
use dan_db.Core.Bytes.{Bytes}
use dan_db.Platform.File.{FileOps}
use dan_db.Storage.Page.{Page, is_valid}
use dan_db.Wal.Header
use dan_db.Wal.Header.{WalHeader, wal_header_size}
use dan_db.Wal.PageFrame
use dan_db.Wal.PageFrame.{wal_page_frame_record_size}
use dan_db.Wal.CommitRecord
use dan_db.Wal.CommitRecord.{wal_commit_record_size}
use dan_db.Wal.Scanner.{scan, WalScanResult}

pub record WalManager (Disk : Type 0) : Type 0 where
  pub file_handle : Disk
  pub append_offset : ℕ
  pub database_id : ℕ

module _ {Disk : Type 0} (ops : FileOps Disk) where
  abbrev pub Outcome : Type 0
  Outcome = Result (Unit {0}) × WalManager Disk

  -- `if(!status.ok()) return status;`
  unfoldable pub and_then : Outcome → (WalManager Disk → Outcome) → Outcome
  and_then (err e, m) f = (err e, m)
  and_then (ok u, m) f = f m

  -- Writes encoded bytes at the append offset, and moves the offset if the write succeeds.
  unfoldable pub append_written : WalManager Disk → ℕ → Result (Unit {0}) × Disk → Outcome
  append_written m size (err e, d) = (err e, record m { file_handle = d })
  append_written m size (ok u, d) =
      (ok tt, record m { file_handle = d; append_offset = m.append_offset + size })

  unfoldable pub append_encoded : WalManager Disk → ℕ → Result Bytes → Outcome
  unfolding append_written
  append_encoded m size (err e) = (err e, m)
  append_encoded m size (ok bytes) =
      append_written m size (ops.write_at m.file_handle m.append_offset bytes)

  unfoldable pub append_page_frame : WalManager Disk → ℕ → Page → Outcome
  unfolding append_encoded
  append_page_frame m transaction_id page =
      if not (is_valid page.id)
      then (err invalid_argument, m)
      else append_encoded m wal_page_frame_record_size (
          PageFrame.encode_into
            (record {
              transaction_id = transaction_id;
              page_id = page.id;
              page_image = page.contents;
            })
            (replicate wal_page_frame_record_size 0))

  unfoldable pub append_commit : WalManager Disk → ℕ → ℕ → Outcome
  unfolding append_encoded
  append_commit m transaction_id frame_count = append_encoded m wal_commit_record_size (
      CommitRecord.encode_into
        (record { transaction_id = transaction_id; frame_count = frame_count })
        (replicate wal_commit_record_size 0))

  unfoldable pub sync : WalManager Disk → Outcome
  sync m = let (r, d) = ops.sync m.file_handle in (r, record m { file_handle = d })

  unfoldable pub append_page_frames : WalManager Disk → ℕ → List Page → Outcome
  unfolding and_then
  append_page_frames m transaction_id [] = (ok tt, m)
  append_page_frames m transaction_id (page ∷ pages) =
      and_then (append_page_frame m transaction_id page)
        (λ m'. append_page_frames m' transaction_id pages)

  unfoldable pub commit_transaction : WalManager Disk → ℕ → List Page → Outcome
  unfolding and_then
  commit_transaction m transaction_id pages =
      and_then (append_page_frames m transaction_id pages)
        (λ m'. and_then (append_commit m' transaction_id (length pages)) sync)

  -- When the file could not be cut, its size says whether the cut was made all the same.
  unfoldable pub after_failed_resize : WalManager Disk → StatusCode → Result ℕ → Outcome
  after_failed_resize m e (err e') = (err e, m)
  after_failed_resize m e (ok n) =
      (err e, if n == wal_header_size then record m { append_offset = wal_header_size } else m)

  unfoldable pub reset_written : WalManager Disk → Result (Unit {0}) × Disk → Outcome
  reset_written m (err e, d) = (err e, record m { file_handle = d })
  reset_written m (ok u, d) = sync (record m { file_handle = d })

  unfoldable pub reset_resized : WalManager Disk → Bytes → Result (Unit {0}) × Disk → Outcome
  unfolding after_failed_resize reset_written
  reset_resized m header (err e, d) =
      after_failed_resize (record m { file_handle = d }) e (ops.size d)
  reset_resized m header (ok u, d) =
      reset_written (record m { file_handle = d; append_offset = wal_header_size })
        (ops.write_at d 0 header)

  unfoldable pub reset_encoded : WalManager Disk → Result Bytes → Outcome
  unfolding reset_resized
  reset_encoded m (err e) = (err e, m)
  reset_encoded m (ok header) = reset_resized m header (ops.resize m.file_handle wal_header_size)

  unfoldable pub reset : WalManager Disk → Outcome
  unfolding reset_encoded
  reset m =
      reset_encoded m
        (Header.encode_into (record { database_id = m.database_id }) (replicate wal_header_size 0))

  abbrev pub Opening : Type 0
  Opening = Option (Result (WalManager Disk) × Disk)

  opened : ℕ → ℕ → Result (Unit {0}) × Disk → Result (WalManager Disk) × Disk
  opened offset id (err e, d) = (err e, d)
  opened offset id (ok u, d) =
      (ok (record { file_handle = d; append_offset = offset; database_id = id }), d)

  resized : ℕ → ℕ → Result (Unit {0}) × Disk → Result (WalManager Disk) × Disk
  unfolding opened
  resized offset id (err e, d) = (err e, d)
  resized offset id (ok u, d) = opened offset id (ops.sync d)

  -- Bytes behind the valid part are cut off, and the cut is made durable.
  cut_tail : Disk → ℕ → WalScanResult → Result (WalManager Disk) × Disk
  unfolding resized opened
  cut_tail d id r =
      if r.ignored_trailing_bytes
      then resized r.valid_wal_end_offset id (ops.resize d r.valid_wal_end_offset)
      else opened r.valid_wal_end_offset id (ok tt, d)

  after_scan : Disk → ℕ → Option (Result WalScanResult) → Opening
  unfolding cut_tail
  after_scan d id none = none
  after_scan d id (some (err e)) = some (err e, d)
  after_scan d id (some (ok r)) = some (cut_tail d id r)

  after_header : Disk → ℕ → ℕ → Result WalHeader → Opening
  unfolding after_scan
  after_header d size id (err e) = some (err e, d)
  after_header d size id (ok header) =
      if not (header.database_id == id)
      then some (err corruption, d)
      else after_scan d id (scan (ops.read_at d) size id)

  after_read : Disk → ℕ → ℕ → Result Bytes → Opening
  unfolding after_header
  after_read d size id (err e) = some (err e, d)
  after_read d size id (ok bytes) = after_header d size id (Header.decode bytes)

  create : Disk → ℕ → Result Bytes → Result (WalManager Disk) × Disk
  unfolding opened
  create d id (err e) = (err e, d)
  create d id (ok header) = opened wal_header_size id (ops.write_at d 0 header)

  after_size : Disk → ℕ → Result ℕ → Opening
  unfolding create after_read
  after_size d id (err e) = some (err e, d)
  after_size d id (ok size) =
      if size == 0
      then some (
          create d id
            (Header.encode_into (record { database_id = id }) (replicate wal_header_size 0)))
      else if ltb size wal_header_size
      then some (err corruption, d)
      else after_read d size id (ops.read_at d 0 wal_header_size)

  -- From the file that `FileHandle::open_or_create` has opened.
  unfoldable pub open_or_create : Disk → ℕ → Opening
  unfolding after_size
  open_or_create d expected_database_id = after_size d expected_database_id (ops.size d)
