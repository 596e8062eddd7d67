-- ===== src/Storage/Pager/Requests.antt =====
-- Sequences of requests to a pager (src/storage/Pager.cpp), and the states of its transaction.
use dan_db.Prelude.Map.{Map}
use dan_db.Wal.Manager
use dan_db.Wal.Manager.{WalManager}
use dan_db.Prelude.{not, ◌&&◌, Bool, true, false, List, [], ◌∷◌, Option, none, some, if◌then◌else◌}
use dan_db.Core.Status.{Result, ok, err}
use dan_db.Platform.File.{FileOps}
use dan_db.Storage.Page.{Page, PageId}
use dan_db.Storage.DatabaseHeader.{DatabaseHeader}
use dan_db.Transaction.TransactionState.{TransactionStatus, inactive, active, failed, unresolved}
use dan_db.Buffer.BufferPoolManager.{PagePin, release}
use dan_db.Storage.Pager.{set_bpm, Pager, Outcome, get_page, new_page, mark_dirty}
use dan_db.Storage.Pager.Transactions.{
  begin_transaction, commit_transaction, rollback_transaction, mark_transaction_failed,
  require_unpinned, snapshots,
}
use dan_db.Storage.Pager.Checkpoint.{checkpoint}

pub data Request : Type 0 where
  begin commit rollback fail checkpoints : Request
  get dirties : PageId → Request
  allocates : Request
  -- The end of a page handle.
  drops : PagePin → Request

-- What a request answers, without the pin that it may give.
unfoldable pub answer : {A B : Type 0} → Result A × B → Result (Unit {0}) × B
answer (ok a, b) = (ok tt, b)
answer (err e, b) = (err e, b)

-- Commits and checkpoints are the requests that write to a file.
unfoldable pub is_lasting : Request → Bool
is_lasting begin = false
is_lasting commit = true
is_lasting rollback = false
is_lasting fail = false
is_lasting checkpoints = true
is_lasting (get id) = false
is_lasting (dirties id) = false
is_lasting allocates = false
is_lasting (drops page_pin) = false

unfoldable pub none_lasting : List Request → Bool
unfolding is_lasting
none_lasting [] = true
none_lasting (r ∷ rs) = not (is_lasting r) && none_lasting rs

-- The files of a pager, and what a reader of committed pages sees.
pub record Durable (Disk Log : Type 0) : Type 0 where
  pub disk : Disk
  pub log : WalManager Log
  pub header : DatabaseHeader
  pub pages : Map Page

-- One request as it is seen from outside: whether the pager is closed, what the log tells a commit, and the answer.
pub record Seen : Type 0 where
  pub is_closed : Bool
  pub logged : Option (Result (Unit {0}))
  pub replied : Result (Unit {0})

-- The state in which a transaction can go on.
abbrev pub is_running : TransactionStatus → Bool
is_running inactive = false
is_running active = true
is_running failed = false
is_running unresolved = false

module _ {Disk Log : Type 0} (disk_ops : FileOps Disk) (wal_ops : FileOps Log) where
  unfoldable pub run : Request → Pager Disk Log → Outcome disk_ops wal_ops
  unfolding answer
  run begin p = begin_transaction disk_ops wal_ops p
  run commit p = commit_transaction disk_ops wal_ops p
  run rollback p = rollback_transaction disk_ops wal_ops p
  run fail p = mark_transaction_failed disk_ops wal_ops p
  run checkpoints p = checkpoint disk_ops wal_ops p
  run (get id) p = answer (get_page disk_ops wal_ops p id)
  run (dirties id) p = mark_dirty disk_ops wal_ops p id
  run allocates p = answer (new_page disk_ops wal_ops p)
  run (drops page_pin) p = (ok tt, set_bpm disk_ops wal_ops p (release p.bpm page_pin).0)

  unfoldable pub run_all : List Request → Pager Disk Log → Pager Disk Log
  unfolding run
  run_all [] p = p
  run_all (r ∷ rs) p = run_all rs (run r p).1

  -- The pages that a commit has copied go to the log.
  unfoldable pub log_written : Result (List Page) × Pager Disk Log → Option (Result (Unit {0}))
  log_written (err e, q) = none
  log_written (ok pages, q) =
      some
        (Manager.commit_transaction wal_ops q.wal_manager q.transaction_state.transaction_id
          pages).0

  unfoldable pub log_checked : Pager Disk Log → Result (Unit {0}) → Option (Result (Unit {0}))
  unfolding log_written
  log_checked p (err e) = none
  log_checked p (ok u) =
      log_written (snapshots disk_ops wal_ops p p.transaction_state.dirty_page_ids)

  -- What a commit of this pager is told by the log, if it writes to the log at all: it does so only when the pager is
  -- open, the transaction is active, no page that it changed is pinned, and each of these pages can be copied.
  unfoldable pub log_answer : Pager Disk Log → Option (Result (Unit {0}))
  unfolding log_checked
  log_answer p =
      if p.closed
      then none
      else if not (is_running p.transaction_state.status)
      then none
      else log_checked p (require_unpinned p.bpm p.transaction_state.dirty_page_ids)

  -- What is seen of each request, one after another.
  unfoldable pub observations : List Request → Pager Disk Log → List Seen
  unfolding run log_answer
  observations [] p = []
  observations (r ∷ rs) p =
      record { is_closed = p.closed; logged = log_answer p; replied = (run r p).0 }
      ∷ observations rs (run r p).1

  unfoldable pub durable : Pager Disk Log → Durable Disk Log
  durable p = record {
    disk = p.disk_manager;
    log = p.wal_manager;
    header = p.committed_header;
    pages = p.recovered_pages;
  }

  unfoldable pub status_of : Pager Disk Log → TransactionStatus
  status_of p = p.transaction_state.status
