-- ===== src/Storage/Pager/Checkpointing.antt =====
-- Pager::checkpoint (src/storage/Pager.cpp) over files that work.
use dan_db.Prelude.{
  ◌*◌, ◌≤◌, ◌≡◌, refl, ap, ◌∙◌, false, Option, none, some, [], ◌∷◌, All, length, arith,
}
use dan_db.Prelude.Map.{Map, lookup}
use dan_db.Prelude.Keys.{keys}
use dan_db.Prelude.Sets.{IsOnce}
use dan_db.Core.Status.{Result, ok, err}
use dan_db.Core.Bytes.{Bytes}
use dan_db.Platform.File.{FileOps, FileLaws, PageFileLaws, Works, max_file_size}
use dan_db.Storage.Page.{Page, PageId}
use dan_db.Storage.DatabaseHeader.{DatabaseHeader}
use dan_db.Storage.DatabaseHeader.Layout.{FitsWords, IsHeader}
use dan_db.Storage.DiskManager.{
  read_page, read_header, resize_to_page_count, write_page, write_header,
}
use dan_db.Storage.DiskManager.Pages.{
  write_page-Written, write_header-Written, read_header-write_header,
}
use dan_db.Storage.DiskManager.Checkpointing.{
  Resized, resize-Resized, write_pages, IsEntry, length-write_pages, read_page-write_pages,
  read_page_same, read_header_same,
}
use dan_db.Transaction.TransactionState.{is_unresolved}
use dan_db.Wal.Manager
use dan_db.Wal.Manager.{WalManager}
use dan_db.Wal.Manager.Opening.{committed_log}
use dan_db.Wal.Manager.Resetting.{reset-IsReset}
use dan_db.Storage.Pager.{Pager, Outcome, and_then, find_page}
use dan_db.Storage.Pager.Checkpoint.{
  set_disk, on_disk, write_recovered, log_reset, reset_log, sync_and_reset, write_header_on,
  write_pages_on, checkpoint,
}

module _ {Disk Log : Type 0} (disk_ops : FileOps Disk) (wal_ops : FileOps Log)
    (content : Disk → Bytes) (works : Works disk_ops content) (laws : FileLaws disk_ops content)
    (random : PageFileLaws disk_ops content) where
  and_then-done :
      (o : Outcome disk_ops wal_ops) (f : Pager Disk Log → Outcome disk_ops wal_ops)
      → o.0 ≡ ok tt
      → and_then disk_ops wal_ops o f ≡ f o.1
  unfolding and_then
  and_then-done (ok u, p) f h = refl
  and_then-done (err e, p) f h = absurd (cc h)

  write_recovered-done :
      (p : Pager Disk Log) (pages : Map Page)
      → All (IsEntry (length (content p.disk_manager))) pages
      → write_recovered disk_ops wal_ops p pages ≡ (
        ok tt,
        set_disk disk_ops wal_ops p
            (write_pages disk_ops content works laws random p.disk_manager pages),
      )
  unfolding write_recovered write_pages on_disk set_disk
  write_recovered-done p [] all = refl
  write_recovered-done p ((id, page) ∷ pages) ((own, good, inside, size), all) =
      let (done, written) =
        write_page-Written disk_ops content works laws random p.disk_manager page
          (good, inside, size) in
      and_then-done (on_disk disk_ops wal_ops p (write_page disk_ops p.disk_manager page)) _ done
      ∙ write_recovered-done
          (set_disk disk_ops wal_ops p (write_page disk_ops p.disk_manager page).1) pages
          (rw written.same_size all)

  -- A pager whose committed pages fit the file: the length that the committed header says is at most the largest
  -- size of a file, the file is not longer, and each page of the log lies inside that length.
  pub record IsCheckpointable (p : Pager Disk Log) : Type 0 where
    pub resolved : is_unresolved p.transaction_state ≡ false
    pub low : 1 ≤ p.committed_header.page_count
    pub high : p.committed_header.page_count * 4096 ≤ max_file_size
    pub fits : FitsWords p.committed_header
    pub valid : IsHeader p.committed_header
    pub file : length (content p.disk_manager) ≤ p.committed_header.page_count * 4096
    pub once : IsOnce (keys p.recovered_pages)
    pub entries : All (IsEntry (p.committed_header.page_count * 4096)) p.recovered_pages

  module _ (p : Pager Disk Log) (s : IsCheckpointable p) where
    abbrev header : DatabaseHeader
    header = p.committed_header

    abbrev d1 : Disk
    d1 = (resize_to_page_count disk_ops p.disk_manager header.page_count).1

    resized :
        Resized disk_ops content works laws random p.disk_manager header.page_count
          (resize_to_page_count disk_ops p.disk_manager header.page_count)
    resized =
        resize-Resized disk_ops content works laws random p.disk_manager header.page_count s.low
          s.high s.file

    abbrev d2 : Disk
    d2 = write_pages disk_ops content works laws random d1 p.recovered_pages

    abbrev d3 : Disk
    d3 = (write_header disk_ops d2 header).1

    abbrev d4 : Disk
    d4 = (disk_ops.sync d3).1

    entries1 : All (IsEntry (length (content d1))) p.recovered_pages
    entries1 = rw resized.new_size s.entries

    size2 : 4096 ≤ length (content d2)
    size2 = omega (
      arith,
      length-write_pages disk_ops content works laws random d1 p.recovered_pages entries1,
      resized.new_size,
      s.low,
    )

    checkpoint_lem :
        checkpoint disk_ops wal_ops p
        ≡ log_reset disk_ops wal_ops
            (set_disk disk_ops wal_ops p d4)
            (Manager.reset wal_ops p.wal_manager)
    unfolding checkpoint write_pages_on write_header_on sync_and_reset reset_log on_disk set_disk
        and_then
    checkpoint_lem =
        let at = set_disk disk_ops wal_ops p in
        rw s.resolved (
          and_then-done
            (on_disk disk_ops wal_ops p
              (resize_to_page_count disk_ops p.disk_manager header.page_count))
            (write_pages_on disk_ops wal_ops) resized.done
          ∙ ap
              (λ (o : Outcome disk_ops wal_ops).
                and_then disk_ops wal_ops o (write_header_on disk_ops wal_ops))
              (write_recovered-done (at d1) p.recovered_pages entries1)
          ∙ and_then-done (on_disk disk_ops wal_ops (at d2) (write_header disk_ops d2 header))
              (sync_and_reset disk_ops wal_ops)
              (write_header-Written disk_ops content works laws random d2 header s.valid size2).0
          ∙ and_then-done (on_disk disk_ops wal_ops (at d3) (disk_ops.sync d3))
              (reset_log disk_ops wal_ops) (works.sync_ok d3))

    -- The header and the pages that the file has at the end.
    header_read : read_header disk_ops d4 ≡ ok header
    header_read =
        let (done, written) =
          write_header-Written disk_ops content works laws random d2 header s.valid size2 in
        let (read, others) =
          read_header-write_header disk_ops content works laws random d2 header s.fits s.valid
            size2 in
        read_header_same disk_ops content works laws random d3 d4 (laws.sync_lem d3)
          (omega (arith, written.same_size, size2))
        ∙ read

    page_read :
        (q : PageId) (page : Page)
        → find_page disk_ops wal_ops p q ≡ ok page
        → read_page disk_ops d4 q ≡ ok page
    unfolding find_page
    page_read q page found =
        let (read, others) =
          read_header-write_header disk_ops content works laws random d2 header s.fits s.valid
            size2 in
        read_page_same disk_ops content works laws random d3 d4 q (laws.sync_lem d3)
        ∙ others q
        ∙ read_page-write_pages disk_ops content works laws random d1 p.recovered_pages q s.once
            entries1
        ∙ carried (lookup q p.recovered_pages) found
      where
        carried :
            (o : Option Page)
            → elim o [ some page' ↦ ok page' | none ↦ read_page disk_ops p.disk_manager q ]
              ≡ ok page
            → elim o [ none ↦ read_page disk_ops d1 q | some page' ↦ ok page' ] ≡ ok page
        carried none e = resized.reads q page e
        carried (some page') e = e

  -- What a checkpoint makes of a pager.
  pub record Checkpointed (log : Log → Bytes) (p : Pager Disk Log) (o : Outcome disk_ops wal_ops)
      : Type 0 where
    pub done : o.0 ≡ ok tt
    pub empty : log o.1.wal_manager.file_handle ≡ committed_log p.wal_manager.database_id []
    pub header : read_header disk_ops o.1.disk_manager ≡ ok p.committed_header
    pub in_file :
        (q : PageId) (page : Page)
        → find_page disk_ops wal_ops p q ≡ ok page
        → read_page disk_ops o.1.disk_manager q ≡ ok page
    pub still_found :
        (q : PageId) (page : Page)
        → find_page disk_ops wal_ops p q ≡ ok page
        → find_page disk_ops wal_ops o.1 q ≡ ok page

  log_reset-Checkpointed :
      (log : Log → Bytes) (p : Pager Disk Log) (s : IsCheckpointable p)
      (r : Result (Unit {0}) × WalManager Log)
      → r.0 ≡ ok tt
      → log r.1.file_handle ≡ committed_log p.wal_manager.database_id []
      → Checkpointed log p (log_reset disk_ops wal_ops (set_disk disk_ops wal_ops p (d4 p s)) r)
  unfolding log_reset set_disk find_page lookup
  log_reset-Checkpointed log p s (err e, wal) done empty = absurd (cc done)
  log_reset-Checkpointed log p s (ok u, wal) done empty = record {
    done = refl;
    empty = empty;
    header = header_read p s;
    in_file = page_read p s;
    still_found = page_read p s;
  }

  -- A checkpoint loses no committed page: on a pager whose committed pages fit the file, which they do in at most
  -- 2 ^ 63 - 1 bytes, with a log of at least its header, over files that work, it succeeds. The log is then empty but for its header, the file of the
  -- pages holds the committed header, and each page that could be found is read from the file and is found as before.
  pub checkpoint-Checkpointed :
      (log : Log → Bytes)
      → FileLaws wal_ops log
      → PageFileLaws wal_ops log
      → Works wal_ops log
      → (p : Pager Disk Log) → IsCheckpointable p
      → 64 ≤ length (log p.wal_manager.file_handle)
      → Checkpointed log p (checkpoint disk_ops wal_ops p)
  checkpoint-Checkpointed log log_laws log_random log_works p s size =
      let reset = reset-IsReset wal_ops log log_laws log_random log_works p.wal_manager size in
      rw (checkpoint_lem p s) (
        log_reset-Checkpointed log p s (Manager.reset wal_ops p.wal_manager) reset.done reset.empty)
