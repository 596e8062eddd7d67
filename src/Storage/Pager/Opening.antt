-- ===== src/Storage/Pager/Opening.antt =====
-- Pager::open of src/storage/Pager.cpp, from the files that are open: the lock and the paths are the
-- platform's. The scan is the one of Wal/Scanner, and the pages are read at the offsets it found.
use dan_db.Prelude.{ℕ, false, Option, none, some, [], ◌∷◌, ◌==◌, if◌then◌else◌}
use dan_db.Prelude.Map.{Map, insert}
use dan_db.Core.Status.{Result, ok, err, invalid_argument, corruption, ◌>>=◌, ◌>>◌, require}
use dan_db.Core.Bytes.{Bytes}
use dan_db.Platform.File.{FileOps}
use dan_db.Storage.Page.{Page, header_page_id}
use dan_db.Storage.DatabaseHeader
use dan_db.Storage.DatabaseHeader.{DatabaseHeader}
use dan_db.Storage.DiskManager
use dan_db.Buffer.BufferPoolManager
use dan_db.Buffer.BufferPoolManager.{BufferPool}
use dan_db.Transaction.TransactionState.{no_transaction}
use dan_db.Wal.Manager
use dan_db.Wal.Manager.{WalManager}
use dan_db.Wal.PageFrame
use dan_db.Wal.PageFrame.{WalPageFrame, wal_page_frame_record_size}
use dan_db.Wal.Scanner.{scan, WalScanResult}
use dan_db.Storage.Pager.{Pager}

-- db_header and recovered_pages.
pub record Recovered : Type 0 where
  pub header : DatabaseHeader
  pub pages : Map Page

unfoldable pub with_header : Recovered → Result DatabaseHeader → Result Recovered
with_header r (err e) = err e
with_header r (ok header) = ok (record r { header = header })

unfoldable pub keep_frame : Recovered → WalPageFrame → Result Recovered
unfolding with_header
keep_frame r frame =
    if frame.page_id == header_page_id
    then with_header r (DatabaseHeader.decode frame.page_image)
    else ok (record r {
      pages =
          insert frame.page_id (record { id = frame.page_id; contents = frame.page_image }) r.pages;
    })

-- One round of the loop over the offsets.
unfoldable pub recover_page : (ℕ → ℕ → Result Bytes) → Recovered → ℕ × ℕ → Result Recovered
unfolding keep_frame
recover_page read_at r (id, offset) = do
  page_frame_bytes ← read_at offset wal_page_frame_record_size
  wal_page_frame ← PageFrame.decode page_frame_bytes
  require (wal_page_frame.page_id == id) corruption
  keep_frame r wal_page_frame

unfoldable pub recover_pages : (ℕ → ℕ → Result Bytes) → Recovered → Map ℕ → Result Recovered
unfolding recover_page
recover_pages read_at r [] = ok r
recover_pages read_at r (entry ∷ offsets) =
    recover_page read_at r entry >>= λ r'. recover_pages read_at r' offsets

-- The offsets are read back only when the scan has found some.
unfoldable pub recover : (ℕ → ℕ → Result Bytes) → DatabaseHeader → WalScanResult → Result Recovered
unfolding recover_pages
recover read_at header found =
    recover_pages read_at (record { header = header; pages = [] })
      found.latest_committed_frame_offsets

module _ {Disk Log : Type 0} (disk_ops : FileOps Disk) (wal_ops : FileOps Log) where
  unfoldable pub opened_pager : ℕ → Disk → WalManager Log → Recovered → Pager Disk Log
  opened_pager bpm_capacity d wal r = record {
    disk_manager = d;
    wal_manager = wal;
    bpm = BufferPoolManager.new_pool bpm_capacity;
    db_header = r.header;
    committed_header = r.header;
    recovered_pages = r.pages;
    transaction_state = no_transaction;
    next_transaction_id = 1;
    closed = false;
  }

  -- The pager that is opened, or an error. Nothing when the scan of the log does not end.
  abbrev pub Opening : Type 0
  Opening = Option (Result (Pager Disk Log))

  unfoldable pub after_scan :
      ℕ → Disk → WalManager Log → DatabaseHeader → Option (Result WalScanResult) → Opening
  unfolding recover opened_pager
  after_scan bpm_capacity d wal header none = none
  after_scan bpm_capacity d wal header (some (err e)) = some (err e)
  after_scan bpm_capacity d wal header (some (ok found)) = some (
      recover (wal_ops.read_at wal.file_handle) header found >>= λ r.
      ok (opened_pager bpm_capacity d wal r))

  unfoldable pub after_size : ℕ → Disk → WalManager Log → DatabaseHeader → Result ℕ → Opening
  unfolding after_scan
  after_size bpm_capacity d wal header (err e) = some (err e)
  after_size bpm_capacity d wal header (ok file_size) =
      after_scan bpm_capacity d wal header
        (scan (wal_ops.read_at wal.file_handle) file_size header.database_id)

  unfoldable pub after_log_open :
      ℕ → Disk → DatabaseHeader → Option (Result (WalManager Log) × Log) → Opening
  unfolding after_size
  after_log_open bpm_capacity d header none = none
  after_log_open bpm_capacity d header (some (err e, file)) = some (err e)
  after_log_open bpm_capacity d header (some (ok wal, file)) =
      after_size bpm_capacity d wal header (wal_ops.size wal.file_handle)

  unfoldable pub after_header : ℕ → Disk → Log → Result DatabaseHeader → Opening
  unfolding after_log_open
  after_header bpm_capacity d wal_file (err e) = some (err e)
  after_header bpm_capacity d wal_file (ok header) =
      after_log_open bpm_capacity d header
        (Manager.open_or_create wal_ops wal_file header.database_id)

  unfoldable pub open_database : ℕ → Disk → Log → Opening
  unfolding after_header
  open_database bpm_capacity d wal_file =
      if bpm_capacity == 0
      then some (err invalid_argument)
      else after_header bpm_capacity d wal_file
          (DiskManager.open_existing disk_ops d >> DiskManager.read_header disk_ops d)
