-- ===== src/Tests/Storage.antt =====
-- The database header, the file of the pages and the pager (src/storage) at concrete inputs: a database of
-- three pages, of which one is in the log only.
use dan_db.Prelude.{true, ap, ◌∙◌}
use dan_db.Core.Status.{Result}
use dan_db.Prelude.{
  ℕ, zero, ◌≤◌, ◌≡◌, ◌↔◌, refl, false, some, List, [], ◌∷◌, ◌++◌, arith, ◌==◌, if◌then◌else◌,
  length, replicate, length-replicate, length-append, slice-append_left, take,
}
use dan_db.Prelude.Map.{lookup, insert}
use dan_db.Core.Status.{ok, err, io_error}
use dan_db.Core.Endian.Fields.{seal}
use dan_db.Core.Bytes.{Bytes, IsBytes-replicate}
use dan_db.Platform.File.{FileOps, memory, memory-FileLaws, memory-PageFileLaws, memory-Works}
use dan_db.Storage.Page.{Page, PageId}
use dan_db.Storage.DatabaseHeader.{DatabaseHeader, encode_into, decode, root_page_id_is_valid}
use dan_db.Storage.DatabaseHeader.Layout.{fields, FitsWords, IsHeader, layout, length-layout}
use dan_db.Storage.DatabaseHeader.Layout.{encode_into-layout}
use dan_db.Storage.DatabaseHeader.Decoding.{
  decode_database_header_iff-fields, decode_database_header-encode_into, decode-layout,
}
use dan_db.Storage.DiskManager.{read_page, write_page, read_header, write_header, open_existing}
use dan_db.Storage.DiskManager.Pages.{read_page-write_page, read_header-write_header}
use dan_db.Storage.Page.{new_page as blank_page}
use dan_db.Buffer.BufferPoolManager.{
  BufferPool, PagePin, new_pin, filled_frame, new_pool, iota, take_frame, take_frame_from, place,
  release,
}
use dan_db.Transaction.TransactionState.{
  TransactionState, unresolved, active, no_transaction, in_transaction, is_failed, insert_id,
  is_unresolved,
}
use dan_db.Wal.Manager.{WalManager, reset}
use dan_db.Wal.Manager.Opening.{committed_log}
use dan_db.Wal.Manager.Resetting.{IsReset, reset-IsReset}
use dan_db.Wal.Scanner.Log.{last_images, write_images, log_bytes}
use dan_db.Wal.Scanner.Crash.{header_of}
use dan_db.Wal.Header.Layout as HeaderLayout
use dan_db.Storage.Pager.Recovery.{last_header}
use dan_db.Prelude.Keys.{keys}
use dan_db.Prelude.Sets.{pop_back, pop_back_onto, IsOnce, contains}
use dan_db.Storage.Pager.{
  Pager, new_cached, new_marked, keep_header, keep_original, set_bpm, set_state, set_header,
  set_page_count,
}
use dan_db.Storage.Pager.Opening.{open_database}
use dan_db.Storage.Pager.Undoing.{rollback-run_all, all_undone, is_undone}
use dan_db.Storage.Pager.Transactions.{
  rollback_transaction, mark_transaction_failed, rollback_checked, check_originals, check_original,
  check_restorable, check_discards, restore_originals, restore_original, restore_header,
  discard_pages, with_bpm, clear_transaction,
}
use dan_db.Storage.Pager
use dan_db.Buffer.BufferPoolManager
use dan_db.Buffer.BufferFrame
use dan_db.Buffer.LruReplacer
use dan_db.Prelude.{get_or, set}
use dan_db.Prelude.Map.{erase}
use dan_db.Storage.Pager.Checkpoint.{checkpoint}
use dan_db.Storage.Pager.Requests.{
  drops, run, answer, Request, none_lasting, begin, commit, rollback, fail, checkpoints, get,
  dirties, allocates, run_all, observations, durable, status_of,
}
use dan_db.Storage.Pager.Lasting.{run_all-uncommitted}
use dan_db.Storage.Pager.States.{run_all-Reaches}
use dan_db.Storage.Pager.Moves.{Reaches}
use dan_db.Storage.Pager.Unresolved.{run_all-unresolved}
use dan_db.Storage.Pager.Reopening.{Reopened, open_database-Reopened}
use dan_db.Storage.Pager.Checkpointing.{IsCheckpointable, Checkpointed, checkpoint-Checkpointed}
use dan_db.Tests.Log.{
  zeros, committed, interrupted, committed-IsTransaction, interrupted-IsTransaction, cut_inside,
  crashed,
}

-- Three pages, with the root of the tables in page 1.
abbrev three_pages : DatabaseHeader
three_pages = record {
  database_id = 7;
  page_count = 3;
  system_tables_root_page_id = 1;
  system_columns_root_page_id = 18446744073709551615;
  system_indexes_root_page_id = 18446744073709551615;
  system_index_columns_root_page_id = 18446744073709551615;
}

three_pages-FitsWords : FitsWords three_pages
three_pages-FitsWords = record {
  database_id = omega arith;
  page_count = omega arith;
  tables_root = omega arith;
  columns_root = omega arith;
  indexes_root = omega arith;
  index_columns_root = omega arith;
}

three_pages-IsHeader : IsHeader three_pages
unfolding root_page_id_is_valid
three_pages-IsHeader = record {
  counted = refl;
  tables = refl;
  columns = refl;
  indexes = refl;
  index_columns = refl;
}

decode_database_header_iff-fields_example : (decode zeros ≡ ok three_pages) ↔ (
    (length zeros ≡ 4096)
    × FitsWords three_pages
    × IsHeader three_pages
    × (take 128 zeros ≡ seal (fields three_pages)))
decode_database_header_iff-fields_example =
    decode_database_header_iff-fields zeros three_pages (IsBytes-replicate 4096)

decode_database_header-encode_into_example :
    (page : Bytes) × (encode_into three_pages zeros ≡ ok page) × (decode page ≡ ok three_pages)
decode_database_header-encode_into_example =
    decode_database_header-encode_into three_pages zeros three_pages-FitsWords three_pages-IsHeader
      (length-replicate 4096 zero)

-- A file of two pages.
abbrev two_page_file : Bytes
two_page_file = layout three_pages ++ zeros

length-two_page_file : length two_page_file ≡ 8192
length-two_page_file = omega (
  arith,
  length-append (layout three_pages) zeros,
  length-layout three_pages,
  length-replicate {A = ℕ} 4096 zero,
)

abbrev page_of : PageId → Page
page_of id = record { id = id; contents = zeros }

read_page-write_page_example :
    read_page memory (write_page memory two_page_file (page_of 1)).1 1
    ≡ (if 1 == 1 then ok (page_of 1) else read_page memory two_page_file 1)
read_page-write_page_example =
    read_page-write_page memory (λ d. d) memory-Works memory-FileLaws memory-PageFileLaws
      two_page_file (page_of 1) 1
      (refl, omega (arith, length-two_page_file), length-replicate 4096 zero)

read_header-write_header_example :
    (read_header memory (write_header memory two_page_file three_pages).1 ≡ ok three_pages)
    × ((id : PageId)
        → read_page memory (write_header memory two_page_file three_pages).1 id
          ≡ read_page memory two_page_file id)
read_header-write_header_example =
    read_header-write_header memory (λ d. d) memory-Works memory-FileLaws memory-PageFileLaws
      two_page_file three_pages three_pages-FitsWords three_pages-IsHeader
      (omega (arith, length-two_page_file))

abbrev log_manager : WalManager Bytes
log_manager = record {
  file_handle = committed_log 7 (committed ∷ []);
  append_offset = length (committed_log 7 (committed ∷ []));
  database_id = 7;
}

-- Page 2 is in the log only.
abbrev pager_in : TransactionState → Pager Bytes Bytes
pager_in t = record {
  disk_manager = two_page_file;
  wal_manager = log_manager;
  bpm = new_pool 4;
  db_header = three_pages;
  committed_header = three_pages;
  recovered_pages = (2, page_of 2) ∷ [];
  transaction_state = t;
  next_transaction_id = 9;
  closed = false;
}

abbrev some_requests : List Request
some_requests = begin ∷ get 2 ∷ dirties 2 ∷ allocates ∷ fail ∷ rollback ∷ begin ∷ []

run_all-uncommitted_example :
    durable memory memory (run_all memory memory some_requests (pager_in no_transaction))
    ≡ durable memory memory (pager_in no_transaction)
unfolding none_lasting
run_all-uncommitted_example =
    run_all-uncommitted memory memory some_requests (pager_in no_transaction) refl

abbrev all_requests : List Request
all_requests =
    begin
    ∷ get 2
    ∷ dirties 2
    ∷ allocates
    ∷ fail
    ∷ allocates
    ∷ rollback
    ∷ begin
    ∷ dirties 2
    ∷ commit
    ∷ checkpoints
    ∷ rollback
    ∷ []

-- A log that cannot be written, so that the commit is lost.
abbrev broken_log : FileOps Bytes
broken_log = record memory { write_at = λ d offset bytes. (err io_error, d) }

run_all-Reaches_example :
    Reaches all_requests
      (observations memory broken_log all_requests (pager_in no_transaction))
      (status_of memory broken_log (pager_in no_transaction))
      (status_of memory broken_log
        (run_all memory broken_log all_requests (pager_in no_transaction)))
run_all-Reaches_example = run_all-Reaches memory broken_log all_requests (pager_in no_transaction)

abbrev lost : Pager Bytes Bytes
lost = pager_in (record no_transaction { status = unresolved; transaction_id = 8 })

run_all-unresolved_example :
    (durable memory memory
        (run_all memory memory (commit ∷ checkpoints ∷ get 2 ∷ some_requests) lost)
      ≡ durable memory memory lost)
    × (status_of memory memory
          (run_all memory memory (commit ∷ checkpoints ∷ get 2 ∷ some_requests) lost)
        ≡ unresolved)
unfolding status_of
run_all-unresolved_example =
    run_all-unresolved memory memory (commit ∷ checkpoints ∷ get 2 ∷ some_requests) lost refl

log_size : 64 ≤ length (committed_log 7 (committed ∷ []))
unfolding log_bytes
log_size = omega (
  arith,
  length-append (HeaderLayout.layout (header_of 7)) (log_bytes (committed ∷ [])),
  HeaderLayout.length-layout (header_of 7),
)

reset-IsReset_example :
    IsReset memory
      (λ d. d)
      memory-FileLaws
      memory-PageFileLaws
      memory-Works
      log_manager
      (reset memory log_manager)
reset-IsReset_example =
    reset-IsReset memory (λ d. d) memory-FileLaws memory-PageFileLaws memory-Works log_manager
      log_size

idle-IsCheckpointable :
    IsCheckpointable memory memory
      (λ d. d)
      memory-Works
      memory-FileLaws
      memory-PageFileLaws
      (pager_in no_transaction)
unfolding is_unresolved keys IsOnce contains
idle-IsCheckpointable = record {
  resolved = refl;
  low = omega arith;
  high = omega arith;
  fits = three_pages-FitsWords;
  valid = three_pages-IsHeader;
  file = omega (arith, length-two_page_file);
  once = (refl, tt);
  entries = ((refl, refl, omega arith, length-replicate 4096 zero), tt);
}

checkpoint-Checkpointed_example :
    Checkpointed memory memory
      (λ d. d)
      memory-Works
      memory-FileLaws
      memory-PageFileLaws
      (λ d. d)
      (pager_in no_transaction)
      (checkpoint memory memory (pager_in no_transaction))
checkpoint-Checkpointed_example =
    checkpoint-Checkpointed memory memory (λ d. d) memory-Works memory-FileLaws memory-PageFileLaws
      (λ d. d) memory-FileLaws memory-PageFileLaws memory-Works (pager_in no_transaction)
      idle-IsCheckpointable log_size

-- A file of all three pages.
abbrev file : Bytes
file = layout three_pages ++ replicate 8192 0

length-file : length file ≡ 12288
length-file = omega (
  arith,
  length-append (layout three_pages) (replicate 8192 0),
  length-layout three_pages,
  length-replicate {A = ℕ} 8192 zero,
)

header_in_file : read_header memory file ≡ ok three_pages
unfolding read_header
header_in_file =
    rw
      (
        memory-Works.read_at_ok file 0 4096 (omega (arith, length-file)),
        slice-append_left (layout three_pages) (replicate 8192 0) 4096 (length-layout three_pages),
      )
      (decode-layout three_pages three_pages-FitsWords three_pages-IsHeader)

file_opens : open_existing memory file ≡ ok tt
unfolding open_existing
file_opens = rw (memory-Works.size_ok file, length-file, header_in_file) refl

header_kept : last_header three_pages (lookup 0 (last_images (committed ∷ []) [])) ≡ ok three_pages
unfolding last_header last_images write_images insert lookup
header_kept = refl

open_database-Reopened_example :
    (p : Pager Bytes Bytes) × (open_database memory memory 4 file crashed ≡ some (ok p))
    × Reopened memory memory
        (λ d. d)
        memory-FileLaws
        memory-Works
        file
        (last_images (committed ∷ []) [])
        three_pages
        p
open_database-Reopened_example =
    open_database-Reopened memory memory (λ d. d) memory-FileLaws memory-Works 4 file crashed
      three_pages three_pages (committed ∷ []) interrupted 5000 refl file_opens header_in_file refl
      (omega arith) (committed-IsTransaction, tt) interrupted-IsTransaction cut_inside header_kept

abbrev in_progress : TransactionState
in_progress = record no_transaction { status = active; transaction_id = 8 }

abbrev ended : PagePin
ended = record { frame_id = 3; is_dirty = true; owns_pin = true }

-- The page is allocated in the last frame, and its handle ends.
abbrev allocation : List Request
allocation = allocates ∷ drops ended ∷ fail ∷ []

header_encoded : encode_into three_pages (replicate 4096 0) ≡ ok (layout three_pages)
header_encoded =
    encode_into-layout three_pages (replicate 4096 0) three_pages-IsHeader
      (length-replicate 4096 zero)

header_decoded : decode (layout three_pages) ≡ ok three_pages
header_decoded = decode-layout three_pages three_pages-FitsWords three_pages-IsHeader

abbrev first_header : Page
first_header = record { id = 0; contents = layout three_pages }

abbrev handle : PagePin
handle = record { frame_id = 3; is_dirty = false; owns_pin = true }

-- The pool with the new page.
abbrev with_page : BufferPool
with_page = (BufferPoolManager.cache_page (new_pool 4) (blank_page 3)).1

abbrev cached_in : Pager Bytes Bytes
cached_in = set_bpm memory memory (pager_in in_progress) with_page

marked :
    Pager.mark_dirty memory memory cached_in 0
    ≡ keep_original memory memory cached_in 0 first_header
unfolding Pager.mark_dirty keep_header set_bpm in_transaction is_failed is_unresolved contains
    lookup
marked = rw header_encoded refl

allocated :
    Pager.new_page memory memory (pager_in in_progress)
    ≡ new_marked memory memory 3 handle (keep_original memory memory cached_in 0 first_header)
unfolding Pager.new_page new_cached in_transaction is_failed is_unresolved new_pool iota
    BufferPoolManager.cache_page take_frame take_frame_from place pop_back pop_back_onto lookup
    blank_page new_pin filled_frame
allocated = ap (new_marked memory memory 3 handle) marked

abbrev pool_at_end : BufferPool
pool_at_end = (release with_page ended).0

discardable : check_discards pool_at_end (3 ∷ []) ≡ ok tt
unfolding release check_discards lookup insert erase contains new_pool iota
    BufferPoolManager.cache_page take_frame take_frame_from place pop_back pop_back_onto
    BufferPoolManager.can_discard_page BufferPoolManager.idle_frame BufferPoolManager.discard_frame
    BufferPoolManager.discard_found BufferPoolManager.discard_page BufferPoolManager.find_frame
    BufferPoolManager.unpin_page BufferPoolManager.unpin_found BufferPoolManager.unpin_frame
    BufferPoolManager.set_frame BufferPoolManager.with_lru BufferFrame.unpin BufferFrame.is_pinned
    BufferFrame.mark_dirty BufferFrame.pin BufferFrame.new_frame BufferFrame.reset
    LruReplacer.new_replacer LruReplacer.mark_evictable LruReplacer.mark_non_evictable
    LruReplacer.victim get_or set filled_frame blank_page new_pin replicate
discardable = refl

discarded : (BufferPoolManager.discard_page pool_at_end 3).0 ≡ ok tt
unfolding release check_discards lookup insert erase contains new_pool iota
    BufferPoolManager.cache_page take_frame take_frame_from place pop_back pop_back_onto
    BufferPoolManager.can_discard_page BufferPoolManager.idle_frame BufferPoolManager.discard_frame
    BufferPoolManager.discard_found BufferPoolManager.discard_page BufferPoolManager.find_frame
    BufferPoolManager.unpin_page BufferPoolManager.unpin_found BufferPoolManager.unpin_frame
    BufferPoolManager.set_frame BufferPoolManager.with_lru BufferFrame.unpin BufferFrame.is_pinned
    BufferFrame.mark_dirty BufferFrame.pin BufferFrame.new_frame BufferFrame.reset
    LruReplacer.new_replacer LruReplacer.mark_evictable LruReplacer.mark_non_evictable
    LruReplacer.victim get_or set filled_frame blank_page new_pin replicate
discarded = refl

abbrev undo : Result (Unit {0}) × Pager Bytes Bytes → Result (Unit {0}) × Pager Bytes Bytes
undo o = rollback_transaction memory memory (run_all memory memory (drops ended ∷ fail ∷ []) o.1)

undone :
    (undo (
      answer (
        new_marked memory memory 3 handle
          (keep_original memory memory cached_in 0 first_header)))).0
    ≡ ok tt
unfolding rollback_transaction run_all run answer new_marked keep_original set_bpm set_state
    set_header set_page_count in_transaction is_failed is_unresolved insert_id contains lookup
    insert mark_transaction_failed rollback_checked check_originals check_original check_restorable
    restore_originals restore_original restore_header discard_pages with_bpm clear_transaction
    Pager.and_then
undone = rw (header_decoded, discardable, header_decoded, discarded) refl

allocation_undone :
    (rollback_transaction memory memory (run_all memory memory allocation (pager_in in_progress))).0
    ≡ ok tt
unfolding run_all run
allocation_undone = ap (λ o. (undo (answer o)).0) allocated ∙ undone

rollback-run_all_example :
    (rollback_transaction memory memory
      (run_all memory memory allocation (pager_in in_progress))).1.db_header
    ≡ three_pages
unfolding all_undone is_undone
rollback-run_all_example =
    rollback-run_all memory memory (pager_in in_progress) allocation three_pages-FitsWords
      three_pages-IsHeader (omega arith) refl refl refl allocation_undone
