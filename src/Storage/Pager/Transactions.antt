-- ===== src/Storage/Pager/Transactions.antt =====
-- The transactions and the checkpoint of src/storage/Pager.cpp. A loop over an unordered set or map
-- visits the list of its members in order.
use dan_db.Prelude.{ℕ, ◌+◌, ◌%◌, ◌^◌, true, not, List, [], ◌∷◌, ◌==◌, if◌then◌else◌}
use dan_db.Prelude.Map.{Map, insert}
use dan_db.Prelude.Sets.{contains}
use dan_db.Core.Status.{
  Result, ok, err, invalid_argument, transaction_error, internal_error, ◌>>=◌, ◌>>◌, require,
}
use dan_db.Core.Bytes.{Bytes}
use dan_db.Platform.File.{FileOps}
use dan_db.Storage.Page.{Page, PageId, new_page, header_page_id}
use dan_db.Storage.DatabaseHeader
use dan_db.Storage.DatabaseHeader.{DatabaseHeader}
use dan_db.Buffer.BufferPoolManager
use dan_db.Buffer.BufferPoolManager.{BufferPool, PagePin, frame_at, release, is_unpinned}
use dan_db.Transaction.TransactionState.{
  active, failed, unresolved, in_transaction, is_failed, is_unresolved, clear,
}
use dan_db.Wal.Manager
use dan_db.Wal.Manager.{WalManager}
use dan_db.Storage.Pager.{Pager, Outcome, and_then, set_bpm, set_state, set_header}

-- The loop that requires every dirty page to be unpinned.
unfoldable pub require_unpinned : BufferPool → List PageId → Result (Unit {0})
require_unpinned bpm [] = ok tt
require_unpinned bpm (id ∷ ids) =
    (if id == header_page_id then ok true else is_unpinned bpm id) >>= λ unpinned.
    require unpinned transaction_error >> require_unpinned bpm ids

unfoldable pub header_page : Result Bytes → Result Page
header_page (err e) = err e
header_page (ok bytes) = ok (record { id = header_page_id; contents = bytes })

unfoldable pub check_restorable : BufferPool → PageId → Page → Result (Unit {0})
check_restorable bpm id page =
    if id == header_page_id
    then (DatabaseHeader.decode page.contents >>= (λ header. ok tt))
    else BufferPoolManager.can_restore_page bpm page

-- The first loop of a rollback: every page can be put back.
unfoldable pub check_original : BufferPool → List PageId → ℕ × Page → Result (Unit {0})
unfolding check_restorable
check_original bpm new_page_ids (id, page) = do
  require (id == page.id) internal_error
  require (not (contains id new_page_ids)) internal_error
  check_restorable bpm id page

unfoldable pub check_originals : BufferPool → List PageId → Map Page → Result (Unit {0})
unfolding check_original
check_originals bpm new_page_ids [] = ok tt
check_originals bpm new_page_ids (entry ∷ originals) =
    check_original bpm new_page_ids entry >> check_originals bpm new_page_ids originals

unfoldable pub check_discards : BufferPool → List PageId → Result (Unit {0})
check_discards bpm [] = ok tt
check_discards bpm (id ∷ ids) = BufferPoolManager.can_discard_page bpm id >> check_discards bpm ids

module _ {Disk Log : Type 0} (disk_ops : FileOps Disk) (wal_ops : FileOps Log) where
  unfoldable pub begin_transaction : Pager Disk Log → Outcome disk_ops wal_ops
  begin_transaction p =
      if p.closed
      then (err invalid_argument, p)
      else if in_transaction p.transaction_state
      then (err transaction_error, p)
      else (
        ok tt,
        record {
          disk_manager = p.disk_manager;
          wal_manager = p.wal_manager;
          bpm = p.bpm;
          db_header = p.db_header;
          committed_header = p.committed_header;
          recovered_pages = p.recovered_pages;
          transaction_state = record p.transaction_state {
            status = active;
            transaction_id = p.next_transaction_id;
          };
          next_transaction_id = (p.next_transaction_id + 1) % 2 ^ 64;
          closed = p.closed;
        },
      )

  unfoldable pub mark_transaction_failed : Pager Disk Log → Outcome disk_ops wal_ops
  unfolding set_state
  mark_transaction_failed p =
      if p.closed
      then (err invalid_argument, p)
      else if not (in_transaction p.transaction_state)
      then (err transaction_error, p)
      else if is_unresolved p.transaction_state
      then (err transaction_error, p)
      else (ok tt, set_state disk_ops wal_ops p (record p.transaction_state { status = failed }))

  unfoldable pub pinned_snapshot :
      Pager Disk Log → Result PagePin × BufferPool → Result Page × Pager Disk Log
  unfolding set_bpm
  pinned_snapshot p (err e, bpm) = (err e, set_bpm disk_ops wal_ops p bpm)
  pinned_snapshot p (ok page_pin, bpm) = (
    ok (frame_at bpm page_pin.frame_id).page,
    set_bpm disk_ops wal_ops p (release bpm page_pin).0,
  )

  unfoldable pub dirty_page_snapshot : Pager Disk Log → PageId → Result Page × Pager Disk Log
  unfolding header_page pinned_snapshot
  dirty_page_snapshot p id =
      if id == header_page_id
      then (
        header_page (DatabaseHeader.encode_into p.db_header (new_page header_page_id).contents),
        p,
      )
      else pinned_snapshot p (BufferPoolManager.get_page p.bpm id)

  -- One page in front of the others, or the error of either.
  unfoldable pub add_page :
      Page → Result (List Page) × Pager Disk Log → Result (List Page) × Pager Disk Log
  add_page page (err e, p) = (err e, p)
  add_page page (ok pages, p) = (ok (page ∷ pages), p)

  unfoldable pub snapshot_step :
      (Pager Disk Log → Result (List Page) × Pager Disk Log)
      → Result Page × Pager Disk Log
      → Result (List Page) × Pager Disk Log
  unfolding add_page
  snapshot_step rest (err e, p) = (err e, p)
  snapshot_step rest (ok page, p) = add_page page (rest p)

  unfoldable pub snapshots : Pager Disk Log → List PageId → Result (List Page) × Pager Disk Log
  unfolding snapshot_step dirty_page_snapshot
  snapshots p [] = (ok [], p)
  snapshots p (id ∷ ids) = snapshot_step (λ q. snapshots q ids) (dirty_page_snapshot p id)

  unfoldable pub publish_page : Pager Disk Log → Page → Outcome disk_ops wal_ops
  publish_page p page =
      if page.id == header_page_id
      then (
        ok tt,
        record {
          disk_manager = p.disk_manager;
          wal_manager = p.wal_manager;
          bpm = p.bpm;
          db_header = p.db_header;
          committed_header = p.db_header;
          recovered_pages = p.recovered_pages;
          transaction_state = p.transaction_state;
          next_transaction_id = p.next_transaction_id;
          closed = p.closed;
        },
      )
      else let (r, bpm) = BufferPoolManager.clear_dirty p.bpm page.id in
        (
          r,
          record {
            disk_manager = p.disk_manager;
            wal_manager = p.wal_manager;
            bpm = bpm;
            db_header = p.db_header;
            committed_header = p.committed_header;
            recovered_pages = insert page.id page p.recovered_pages;
            transaction_state = p.transaction_state;
            next_transaction_id = p.next_transaction_id;
            closed = p.closed;
          },
        )

  unfoldable pub publish_pages : Pager Disk Log → List Page → Outcome disk_ops wal_ops
  unfolding publish_page and_then
  publish_pages p [] = (ok tt, p)
  publish_pages p (page ∷ pages) =
      and_then disk_ops wal_ops (publish_page p page) (λ q. publish_pages q pages)

  unfoldable pub clear_transaction : Pager Disk Log → Outcome disk_ops wal_ops
  unfolding set_state clear
  clear_transaction p = (ok tt, set_state disk_ops wal_ops p (clear p.transaction_state))

  -- When the log could not be written, whether the transaction is committed is not known.
  unfoldable pub after_log :
      List Page → Pager Disk Log → Result (Unit {0}) × WalManager Log → Outcome disk_ops wal_ops
  unfolding set_state publish_pages clear_transaction and_then
  after_log pages p (err e, wal) = (
    err e,
    record {
      disk_manager = p.disk_manager;
      wal_manager = wal;
      bpm = p.bpm;
      db_header = p.db_header;
      committed_header = p.committed_header;
      recovered_pages = p.recovered_pages;
      transaction_state = record p.transaction_state { status = unresolved };
      next_transaction_id = p.next_transaction_id;
      closed = p.closed;
    },
  )
  after_log pages p (ok u, wal) =
      and_then disk_ops wal_ops
        (publish_pages
          (record {
            disk_manager = p.disk_manager;
            wal_manager = wal;
            bpm = p.bpm;
            db_header = p.db_header;
            committed_header = p.committed_header;
            recovered_pages = p.recovered_pages;
            transaction_state = p.transaction_state;
            next_transaction_id = p.next_transaction_id;
            closed = p.closed;
          })
          pages)
        clear_transaction

  unfoldable pub log_pages : Result (List Page) × Pager Disk Log → Outcome disk_ops wal_ops
  unfolding after_log
  log_pages (err e, p) = (err e, p)
  log_pages (ok pages, p) =
      after_log pages p
        (Manager.commit_transaction wal_ops p.wal_manager p.transaction_state.transaction_id pages)

  unfoldable pub commit_checked : Pager Disk Log → Result (Unit {0}) → Outcome disk_ops wal_ops
  unfolding log_pages snapshots
  commit_checked p (err e) = (err e, p)
  commit_checked p (ok u) = log_pages (snapshots p p.transaction_state.dirty_page_ids)

  unfoldable pub commit_transaction : Pager Disk Log → Outcome disk_ops wal_ops
  unfolding commit_checked require_unpinned
  commit_transaction p =
      if p.closed
      then (err invalid_argument, p)
      else if not (in_transaction p.transaction_state)
      then (err transaction_error, p)
      else if is_failed p.transaction_state
      then (err transaction_error, p)
      else if is_unresolved p.transaction_state
      then (err transaction_error, p)
      else commit_checked p (require_unpinned p.bpm p.transaction_state.dirty_page_ids)

  unfoldable pub restore_header : Pager Disk Log → Result DatabaseHeader → Outcome disk_ops wal_ops
  unfolding set_header
  restore_header p (err e) = (err e, p)
  restore_header p (ok header) = (ok tt, set_header disk_ops wal_ops p header)

  unfoldable pub with_bpm :
      Pager Disk Log → Result (Unit {0}) × BufferPool → Outcome disk_ops wal_ops
  unfolding set_bpm
  with_bpm p (r, bpm) = (r, set_bpm disk_ops wal_ops p bpm)

  unfoldable pub restore_original : Pager Disk Log → ℕ × Page → Outcome disk_ops wal_ops
  unfolding restore_header with_bpm
  restore_original p (id, page) =
      if id == header_page_id
      then restore_header p (DatabaseHeader.decode page.contents)
      else with_bpm p (BufferPoolManager.restore_page p.bpm page)

  unfoldable pub restore_originals : Pager Disk Log → Map Page → Outcome disk_ops wal_ops
  unfolding restore_original and_then
  restore_originals p [] = (ok tt, p)
  restore_originals p (entry ∷ originals) =
      and_then disk_ops wal_ops (restore_original p entry) (λ q. restore_originals q originals)

  unfoldable pub discard_pages : Pager Disk Log → List PageId → Outcome disk_ops wal_ops
  unfolding with_bpm and_then
  discard_pages p [] = (ok tt, p)
  discard_pages p (id ∷ ids) =
      and_then disk_ops wal_ops (with_bpm p (BufferPoolManager.discard_page p.bpm id))
        (λ q. discard_pages q ids)

  unfoldable pub rollback_checked : Pager Disk Log → Result (Unit {0}) → Outcome disk_ops wal_ops
  unfolding restore_originals discard_pages clear_transaction and_then
  rollback_checked p (err e) = (err e, p)
  rollback_checked p (ok u) =
      and_then disk_ops wal_ops (restore_originals p p.transaction_state.original_pages) (λ q.
        and_then disk_ops wal_ops (discard_pages q p.transaction_state.new_page_ids)
          clear_transaction)

  unfoldable pub rollback_transaction : Pager Disk Log → Outcome disk_ops wal_ops
  unfolding rollback_checked check_originals check_discards
  rollback_transaction p =
      let t = p.transaction_state in
      if p.closed
      then (err invalid_argument, p)
      else if not (in_transaction t)
      then (err transaction_error, p)
      else if is_unresolved t
      then (err transaction_error, p)
      else rollback_checked p (
          check_originals p.bpm t.new_page_ids t.original_pages
          >> check_discards p.bpm t.new_page_ids)
