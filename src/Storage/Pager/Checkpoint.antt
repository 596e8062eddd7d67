-- ===== src/Storage/Pager/Checkpoint.antt =====
-- Pager::checkpoint and Pager::close of src/storage/Pager.cpp.
use dan_db.Prelude.{true, [], ◌∷◌, if◌then◌else◌}
use dan_db.Prelude.Map.{Map}
use dan_db.Core.Status.{Result, ok, err, transaction_error}
use dan_db.Platform.File.{FileOps}
use dan_db.Storage.Page.{Page}
use dan_db.Storage.DiskManager
use dan_db.Transaction.TransactionState.{is_unresolved}
use dan_db.Wal.Manager
use dan_db.Wal.Manager.{WalManager}
use dan_db.Storage.Pager.{Pager, Outcome, and_then}

module _ {Disk Log : Type 0} (disk_ops : FileOps Disk) (wal_ops : FileOps Log) where
  unfoldable pub set_disk : Pager Disk Log → Disk → Pager Disk Log
  set_disk p disk_manager = record {
    disk_manager = disk_manager;
    wal_manager = p.wal_manager;
    bpm = p.bpm;
    db_header = p.db_header;
    committed_header = p.committed_header;
    recovered_pages = p.recovered_pages;
    transaction_state = p.transaction_state;
    next_transaction_id = p.next_transaction_id;
    closed = p.closed;
  }

  unfoldable pub on_disk : Pager Disk Log → Result (Unit {0}) × Disk → Outcome disk_ops wal_ops
  unfolding set_disk
  on_disk p (r, d) = (r, set_disk p d)

  unfoldable pub write_recovered : Pager Disk Log → Map Page → Outcome disk_ops wal_ops
  unfolding on_disk and_then
  write_recovered p [] = (ok tt, p)
  write_recovered p ((id, page) ∷ pages) =
      and_then disk_ops wal_ops (on_disk p (DiskManager.write_page disk_ops p.disk_manager page))
        (λ q. write_recovered q pages)

  -- The log is emptied, and then no page comes from it.
  unfoldable pub log_reset :
      Pager Disk Log → Result (Unit {0}) × WalManager Log → Outcome disk_ops wal_ops
  log_reset p (err e, wal) = (
    err e,
    record {
      disk_manager = p.disk_manager;
      wal_manager = wal;
      bpm = p.bpm;
      db_header = p.db_header;
      committed_header = p.committed_header;
      recovered_pages = p.recovered_pages;
      transaction_state = p.transaction_state;
      next_transaction_id = p.next_transaction_id;
      closed = p.closed;
    },
  )
  log_reset p (ok u, wal) = (
    ok tt,
    record {
      disk_manager = p.disk_manager;
      wal_manager = wal;
      bpm = p.bpm;
      db_header = p.db_header;
      committed_header = p.committed_header;
      recovered_pages = [];
      transaction_state = p.transaction_state;
      next_transaction_id = p.next_transaction_id;
      closed = p.closed;
    },
  )

  unfoldable pub reset_log : Pager Disk Log → Outcome disk_ops wal_ops
  unfolding log_reset
  reset_log p = log_reset p (Manager.reset wal_ops p.wal_manager)

  unfoldable pub sync_and_reset : Pager Disk Log → Outcome disk_ops wal_ops
  unfolding on_disk reset_log and_then
  sync_and_reset p = and_then disk_ops wal_ops (on_disk p (disk_ops.sync p.disk_manager)) reset_log

  unfoldable pub write_header_on : Pager Disk Log → Outcome disk_ops wal_ops
  unfolding on_disk sync_and_reset and_then
  write_header_on p =
      and_then disk_ops wal_ops
        (on_disk p (DiskManager.write_header disk_ops p.disk_manager p.committed_header))
        sync_and_reset

  unfoldable pub write_pages_on : Pager Disk Log → Outcome disk_ops wal_ops
  unfolding write_recovered write_header_on and_then
  write_pages_on p = and_then disk_ops wal_ops (write_recovered p p.recovered_pages) write_header_on

  -- The file gets its new size, then the pages, then the header, and is forced to the disk before the
  -- log is emptied.
  unfoldable pub checkpoint : Pager Disk Log → Outcome disk_ops wal_ops
  unfolding on_disk write_pages_on and_then
  checkpoint p =
      if is_unresolved p.transaction_state
      then (err transaction_error, p)
      else and_then disk_ops wal_ops
          (on_disk p (
            DiskManager.resize_to_page_count disk_ops p.disk_manager p.committed_header.page_count))
          write_pages_on

  -- The outcomes of closing the log, the file of the pages and the lock are the platform's.
  unfoldable pub close_checked :
      Pager Disk Log
      → Result (Unit {0})
      → Result (Unit {0})
      → Result (Unit {0})
      → Outcome disk_ops wal_ops
  close_checked p (err e) disk lock = (err e, p)
  close_checked p (ok u) (err e) lock = (err e, p)
  close_checked p (ok u) (ok v) (err e) = (err e, p)
  close_checked p (ok u) (ok v) (ok w) = (
    ok tt,
    record {
      disk_manager = p.disk_manager;
      wal_manager = p.wal_manager;
      bpm = p.bpm;
      db_header = p.db_header;
      committed_header = p.committed_header;
      recovered_pages = p.recovered_pages;
      transaction_state = p.transaction_state;
      next_transaction_id = p.next_transaction_id;
      closed = true;
    },
  )

  unfoldable pub close :
      Pager Disk Log
      → Result (Unit {0})
      → Result (Unit {0})
      → Result (Unit {0})
      → Outcome disk_ops wal_ops
  unfolding close_checked
  close p wal disk lock = if p.closed then (ok tt, p) else close_checked p wal disk lock
