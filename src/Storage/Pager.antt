-- ===== src/Storage/Pager.antt =====
-- src/storage/Pager.cpp, include/dandb/storage/Pager.h and src/storage/PageHandle.cpp: pages under
-- transactions, over the buffer pool, the log and the file of the pages. A page handle is its pin. A
-- pin that a C++ scope ends is released where the scope ends.
pub mod Allowing
pub mod Committing
pub mod Checkpoint
pub mod Opening
pub mod Checkpointing
pub mod Requests
pub mod Undoing
pub mod Reopening
pub mod Recovery
pub mod Unresolved
pub mod Lasting
pub mod Moves
pub mod States
pub mod Keeping
pub mod Transactions
use dan_db.Prelude.{
  ℕ, ◌+◌, ◌%◌, ◌^◌, Bool, true, false, not, ◌||◌, Option, none, some, List, [], ◌∷◌, ◌++◌, ◌==◌,
  if◌then◌else◌, replicate,
}
use dan_db.Prelude.Map.{Map, lookup, insert}
use dan_db.Prelude.Sets.{contains}
use dan_db.Core.Status.{
  Result, ok, err, StatusCode, invalid_argument, not_found, transaction_error, internal_error,
  is_ok, ◌>>=◌, ◌>>◌, require,
}
use dan_db.Core.Bytes.{Bytes, page_size}
use dan_db.Platform.File.{FileOps}
use dan_db.Storage.Page.{Page, PageId, new_page as blank_page, invalid_page_id, header_page_id}
use dan_db.Storage.DatabaseHeader
use dan_db.Storage.DatabaseHeader.{DatabaseHeader}
use dan_db.Storage.DiskManager
use dan_db.Buffer.BufferPoolManager
use dan_db.Buffer.BufferPoolManager.{BufferPool, PagePin, frame_at, release}
use dan_db.Transaction.TransactionState.{
  TransactionState, active, failed, unresolved, in_transaction, is_failed, is_unresolved, clear,
  insert_id,
}
use dan_db.Wal.Manager
use dan_db.Wal.Manager.{WalManager}

pub record Pager (Disk Log : Type 0) : Type 0 where
  pub disk_manager : Disk
  pub wal_manager : WalManager Log
  pub bpm : BufferPool
  pub db_header : DatabaseHeader
  pub committed_header : DatabaseHeader
  pub recovered_pages : Map Page
  pub transaction_state : TransactionState
  pub next_transaction_id : ℕ
  pub closed : Bool

unfoldable pub set_page_count : DatabaseHeader → ℕ → DatabaseHeader
set_page_count h page_count = record h { page_count = page_count }

abbrev pub has_entry : Map Page → PageId → Bool
has_entry m id = elim (lookup id m) [ none ↦ false | some page ↦ true ]

module _ {Disk Log : Type 0} (disk_ops : FileOps Disk) (wal_ops : FileOps Log) where
  abbrev pub Outcome : Type 0
  Outcome = Result (Unit {0}) × Pager Disk Log

  -- if(!status.ok()) return status;
  unfoldable pub and_then : Outcome → (Pager Disk Log → Outcome) → Outcome
  and_then (err e, p) next = (err e, p)
  and_then (ok u, p) next = next p

  unfoldable pub set_bpm : Pager Disk Log → BufferPool → Pager Disk Log
  set_bpm p bpm = record {
    disk_manager = p.disk_manager;
    wal_manager = p.wal_manager;
    bpm = bpm;
    db_header = p.db_header;
    committed_header = p.committed_header;
    recovered_pages = p.recovered_pages;
    transaction_state = p.transaction_state;
    next_transaction_id = p.next_transaction_id;
    closed = p.closed;
  }

  unfoldable pub set_state : Pager Disk Log → TransactionState → Pager Disk Log
  set_state p t = record {
    disk_manager = p.disk_manager;
    wal_manager = p.wal_manager;
    bpm = p.bpm;
    db_header = p.db_header;
    committed_header = p.committed_header;
    recovered_pages = p.recovered_pages;
    transaction_state = t;
    next_transaction_id = p.next_transaction_id;
    closed = p.closed;
  }

  unfoldable pub set_header : Pager Disk Log → DatabaseHeader → Pager Disk Log
  set_header p h = record {
    disk_manager = p.disk_manager;
    wal_manager = p.wal_manager;
    bpm = p.bpm;
    db_header = h;
    committed_header = p.committed_header;
    recovered_pages = p.recovered_pages;
    transaction_state = p.transaction_state;
    next_transaction_id = p.next_transaction_id;
    closed = p.closed;
  }

  -- A page of the pool, with the pool that the call leaves.
  unfoldable pub with_pin :
      Pager Disk Log → Result PagePin × BufferPool → Result PagePin × Pager Disk Log
  unfolding set_bpm
  with_pin p (r, bpm) = (r, set_bpm p bpm)

  -- A page that is not in the pool comes from the log, or else from the file.
  unfoldable pub find_page : Pager Disk Log → PageId → Result Page
  find_page p id = elim (lookup id p.recovered_pages) [
    | some page ↦ ok page
    | none ↦ DiskManager.read_page disk_ops p.disk_manager id
  ]

  unfoldable pub cache_found : Pager Disk Log → Result Page → Result PagePin × Pager Disk Log
  unfolding with_pin
  cache_found p (err e) = (err e, p)
  cache_found p (ok page) = with_pin p (BufferPoolManager.cache_page p.bpm page)

  unfoldable pub get_cached :
      PageId → Pager Disk Log → Result PagePin × BufferPool → Result PagePin × Pager Disk Log
  unfolding set_bpm cache_found find_page
  get_cached id p (ok page_pin, bpm) = (ok page_pin, set_bpm p bpm)
  get_cached id p (err not_found, bpm) = cache_found (set_bpm p bpm) (find_page p id)
  get_cached id p (err e, bpm) = (err e, set_bpm p bpm)

  unfoldable pub get_page : Pager Disk Log → PageId → Result PagePin × Pager Disk Log
  unfolding get_cached
  get_page p id =
      if p.closed
      then (err invalid_argument, p)
      else if id == invalid_page_id || id == header_page_id
      then (err invalid_argument, p)
      else get_cached id p (BufferPoolManager.get_page p.bpm id)

  -- Keeps the page as it was when the transaction first changes it.
  unfoldable pub keep_original : Pager Disk Log → PageId → Page → Outcome
  unfolding set_state insert_id
  keep_original p id page =
      let t = p.transaction_state in
      (
        ok tt,
        set_state p (record t {
          original_pages = insert id page t.original_pages;
          dirty_page_ids = insert_id id t.dirty_page_ids;
        }),
      )

  unfoldable pub keep_header : Pager Disk Log → Result Bytes → Outcome
  unfolding keep_original
  keep_header p (err e) = (err e, p)
  keep_header p (ok bytes) =
      keep_original p header_page_id (record { id = header_page_id; contents = bytes })

  unfoldable pub keep_pinned : Pager Disk Log → PageId → Result PagePin × BufferPool → Outcome
  unfolding keep_original set_bpm
  keep_pinned p id (err e, bpm) = (err e, set_bpm p bpm)
  keep_pinned p id (ok page_pin, bpm) =
      keep_original (set_bpm p (release bpm page_pin).0) id (frame_at bpm page_pin.frame_id).page

  unfoldable pub mark_dirty : Pager Disk Log → PageId → Outcome
  unfolding keep_header keep_pinned
  mark_dirty p id =
      if p.closed
      then (err invalid_argument, p)
      else if id == invalid_page_id
      then (err invalid_argument, p)
      else if is_failed p.transaction_state
      then (err transaction_error, p)
      else if is_unresolved p.transaction_state
      then (err transaction_error, p)
      else if not (in_transaction p.transaction_state)
      then (err transaction_error, p)
      else if has_entry p.transaction_state.original_pages id
      then (ok tt, p)
      else if contains id p.transaction_state.new_page_ids
      then (ok tt, p)
      else if id == header_page_id
      then keep_header p (DatabaseHeader.encode_into p.db_header (replicate page_size 0))
      else keep_pinned p id (BufferPoolManager.get_page p.bpm id)

  -- The page number of a new page is taken when the header is kept.
  unfoldable pub new_marked : PageId → PagePin → Outcome → Result PagePin × Pager Disk Log
  unfolding set_bpm set_header set_state insert_id set_page_count
  new_marked id page_pin (err e, p) = (err e, set_bpm p (release p.bpm page_pin).0)
  new_marked id page_pin (ok u, p) =
      let counted =
        set_header p (set_page_count p.db_header ((p.db_header.page_count + 1) % 2 ^ 64)) in
      let t = counted.transaction_state in
      (
        ok (record page_pin { is_dirty = true }),
        set_state counted (record t {
          new_page_ids = insert_id id t.new_page_ids;
          dirty_page_ids = insert_id id t.dirty_page_ids;
        }),
      )

  unfoldable pub new_cached :
      Pager Disk Log → PageId → Result PagePin × BufferPool → Result PagePin × Pager Disk Log
  unfolding new_marked set_bpm mark_dirty
  new_cached p id (err e, bpm) = (err e, set_bpm p bpm)
  new_cached p id (ok page_pin, bpm) =
      new_marked id page_pin (mark_dirty (set_bpm p bpm) header_page_id)

  unfoldable pub new_page : Pager Disk Log → Result PagePin × Pager Disk Log
  unfolding new_cached
  new_page p =
      if p.closed
      then (err invalid_argument, p)
      else if not (in_transaction p.transaction_state)
      then (err transaction_error, p)
      else if is_failed p.transaction_state
      then (err transaction_error, p)
      else if is_unresolved p.transaction_state
      then (err transaction_error, p)
      else new_cached p p.db_header.page_count
          (BufferPoolManager.cache_page p.bpm (blank_page p.db_header.page_count))
