-- ===== src/Storage/Pager/States.antt =====
-- The states of a transaction under all requests to a pager (src/storage/Pager.cpp).
use dan_db.Storage.Pager.Committing.{commit-Leads}
use dan_db.Prelude.{List, [], ◌∷◌, ◌≡◌, refl, subst, ◌∙◌, if-both}
use dan_db.Core.Status.{Result, ok, err}
use dan_db.Platform.File.{FileOps}
use dan_db.Transaction.TransactionState.{is_unresolved}
use dan_db.Storage.Page.{Page}
use dan_db.Storage.Pager.{set_bpm, Pager, Outcome, get_page, new_page, mark_dirty}
use dan_db.Storage.DiskManager
use dan_db.Wal.Manager
use dan_db.Prelude.Map.{Map}
use dan_db.Wal.Manager.{WalManager}
use dan_db.Storage.Pager.Checkpoint.{
  checkpoint, on_disk, set_disk, write_recovered, log_reset, reset_log, sync_and_reset,
  write_header_on, write_pages_on,
}
use dan_db.Storage.Pager.Keeping.{get_page-kept, new_page-kept, mark_dirty-kept, and_then-kept}
use dan_db.Storage.Pager.Allowing.{
  keeping, marks_dirty, adds_new_page, get_page-open, checkpoint-resolved,
}
use dan_db.Storage.Pager.Requests.{
  Request, begin, commit, rollback, fail, checkpoints, get, dirties, allocates, drops, answer, run,
  observations, log_answer, run_all, status_of, Seen,
}
use dan_db.Storage.Pager.Moves.{
  Reaches, ends, steps, status, status-IsKept, Leads, begin-Leads, fail-Leads, rollback-Leads,
  drops_pin, reads_page, read_refused, mark_refused, page_refused, checkpoint_refused, empties_log,
}

module _ {Disk Log : Type 0} (disk_ops : FileOps Disk) (wal_ops : FileOps Log) where
  on_disk-status :
      (p : Pager Disk Log) (r : Result (Unit {0}) × Disk)
      → status disk_ops wal_ops (on_disk disk_ops wal_ops p r).1 ≡ status disk_ops wal_ops p
  unfolding on_disk set_disk status_of
  on_disk-status p (r, d) = refl

  write_recovered-status :
      (p : Pager Disk Log) (pages : Map Page)
      → status disk_ops wal_ops (write_recovered disk_ops wal_ops p pages).1
        ≡ status disk_ops wal_ops p
  unfolding write_recovered
  write_recovered-status p [] = refl
  write_recovered-status p ((id, page) ∷ pages) =
      let written = DiskManager.write_page disk_ops p.disk_manager page in
      and_then-kept disk_ops wal_ops (status disk_ops wal_ops)
        (status-IsKept disk_ops wal_ops).over_bpm (on_disk disk_ops wal_ops p written) _
        (λ q. write_recovered-status q pages)
      ∙ on_disk-status p written

  log_reset-status :
      (p : Pager Disk Log) (r : Result (Unit {0}) × WalManager Log)
      → status disk_ops wal_ops (log_reset disk_ops wal_ops p r).1 ≡ status disk_ops wal_ops p
  unfolding log_reset status_of
  log_reset-status p (err e, wal) = refl
  log_reset-status p (ok u, wal) = refl

  sync_and_reset-status :
      (p : Pager Disk Log)
      → status disk_ops wal_ops (sync_and_reset disk_ops wal_ops p).1 ≡ status disk_ops wal_ops p
  unfolding sync_and_reset reset_log
  sync_and_reset-status p =
      and_then-kept disk_ops wal_ops (status disk_ops wal_ops)
        (status-IsKept disk_ops wal_ops).over_bpm
        (on_disk disk_ops wal_ops p (disk_ops.sync p.disk_manager)) (reset_log disk_ops wal_ops)
        (λ q. log_reset-status q (Manager.reset wal_ops q.wal_manager))
      ∙ on_disk-status p (disk_ops.sync p.disk_manager)

  write_header_on-status :
      (p : Pager Disk Log)
      → status disk_ops wal_ops (write_header_on disk_ops wal_ops p).1 ≡ status disk_ops wal_ops p
  unfolding write_header_on
  write_header_on-status p =
      let written = DiskManager.write_header disk_ops p.disk_manager p.committed_header in
      and_then-kept disk_ops wal_ops (status disk_ops wal_ops)
        (status-IsKept disk_ops wal_ops).over_bpm (on_disk disk_ops wal_ops p written)
        (sync_and_reset disk_ops wal_ops) sync_and_reset-status
      ∙ on_disk-status p written

  write_pages_on-status :
      (p : Pager Disk Log)
      → status disk_ops wal_ops (write_pages_on disk_ops wal_ops p).1 ≡ status disk_ops wal_ops p
  unfolding write_pages_on
  write_pages_on-status p =
      and_then-kept disk_ops wal_ops (status disk_ops wal_ops)
        (status-IsKept disk_ops wal_ops).over_bpm
        (write_recovered disk_ops wal_ops p p.recovered_pages) (write_header_on disk_ops wal_ops)
        write_header_on-status
      ∙ write_recovered-status p p.recovered_pages

  checkpoint-status :
      (p : Pager Disk Log)
      → status disk_ops wal_ops (checkpoint disk_ops wal_ops p).1 ≡ status disk_ops wal_ops p
  unfolding checkpoint
  checkpoint-status p =
      let resized =
        DiskManager.resize_to_page_count disk_ops p.disk_manager p.committed_header.page_count in
      if-both
        (λ (x : Outcome disk_ops wal_ops). status disk_ops wal_ops x.1 ≡ status disk_ops wal_ops p)
        (is_unresolved p.transaction_state) refl
        (and_then-kept disk_ops wal_ops (status disk_ops wal_ops)
            (status-IsKept disk_ops wal_ops).over_bpm (on_disk disk_ops wal_ops p resized)
            (write_pages_on disk_ops wal_ops) write_pages_on-status
          ∙ on_disk-status p resized)

  answer-plain : (o : Outcome disk_ops wal_ops) → answer o ≡ o
  unfolding answer
  answer-plain (ok u, p) = refl
  answer-plain (err e, p) = refl

  run-Leads :
      (r : Request) (p : Pager Disk Log)
      → Leads disk_ops wal_ops p.closed
          (log_answer disk_ops wal_ops p)
          r
          (status disk_ops wal_ops p)
          (run disk_ops wal_ops r p)
  unfolding run status_of set_bpm
  run-Leads begin p = begin-Leads disk_ops wal_ops _ p
  run-Leads commit p = commit-Leads disk_ops wal_ops p
  run-Leads rollback p = rollback-Leads disk_ops wal_ops _ p
  run-Leads fail p = fail-Leads disk_ops wal_ops _ p
  run-Leads checkpoints p =
      let s = p.transaction_state.status in
      let log = log_answer disk_ops wal_ops p in
      subst (Leads disk_ops wal_ops p.closed log checkpoints s)
        (answer-plain (checkpoint disk_ops wal_ops p))
        (keeping disk_ops wal_ops p.closed log checkpoints s (checkpoint disk_ops wal_ops p)
          (checkpoint-status p) (λ e. checkpoint_refused e s)
          (λ h. empties_log s (checkpoint-resolved disk_ops wal_ops p h)))
  run-Leads (get id) p =
      let s = p.transaction_state.status in
      keeping disk_ops wal_ops p.closed _ (get id) s (get_page disk_ops wal_ops p id)
        (get_page-kept disk_ops wal_ops (status disk_ops wal_ops)
          (status-IsKept disk_ops wal_ops).over_bpm p id)
        (λ e. read_refused id e s) (λ h. reads_page id s (get_page-open disk_ops wal_ops p id h))
  run-Leads (dirties id) p =
      let s = p.transaction_state.status in
      let log = log_answer disk_ops wal_ops p in
      subst (Leads disk_ops wal_ops p.closed log (dirties id) s)
        (answer-plain (mark_dirty disk_ops wal_ops p id))
        (keeping disk_ops wal_ops p.closed log (dirties id) s (mark_dirty disk_ops wal_ops p id)
          (mark_dirty-kept disk_ops wal_ops (status disk_ops wal_ops)
            (status-IsKept disk_ops wal_ops) p id)
          (λ e. mark_refused id e s) (marks_dirty disk_ops wal_ops log p id))
  run-Leads allocates p =
      let s = p.transaction_state.status in
      keeping disk_ops wal_ops p.closed _ allocates s (new_page disk_ops wal_ops p)
        (new_page-kept disk_ops wal_ops (status disk_ops wal_ops) (status-IsKept disk_ops wal_ops)
          p)
        (λ e. page_refused e s) (adds_new_page disk_ops wal_ops _ p)
  run-Leads (drops page_pin) p = drops_pin page_pin p.transaction_state.status

  -- Over any sequence of requests, each request answers and moves the state of the transaction as the state machine
  -- says. A begin succeeds, and makes the state active, exactly when the pager is open and no transaction is there.
  -- A commit moves only an active transaction: it is done only if the log was written, and the transaction is left
  -- unresolved when the log gives an error, which is then the answer; an error after the log was written leaves it
  -- active, and a commit that does not reach the log gives an error and leaves the state. Marking it failed succeeds
  -- exactly on an open pager whose transaction is active or failed. A rollback that succeeds ends an active or a
  -- failed transaction. Pages are marked dirty and added only in an active transaction, so that a failed one only
  -- ends by a rollback; a checkpoint succeeds only if the state is not unresolved. All other errors, and reads,
  -- leave the state, and nothing leaves the unresolved state.
  pub run_all-Reaches :
      (rs : List Request) (p : Pager Disk Log)
      → Reaches rs
          (observations disk_ops wal_ops rs p)
          (status_of disk_ops wal_ops p)
          (status_of disk_ops wal_ops (run_all disk_ops wal_ops rs p))
  unfolding run_all observations
  run_all-Reaches [] p = ends (status disk_ops wal_ops p)
  run_all-Reaches (r ∷ rs) p =
      let o = run disk_ops wal_ops r p in
      let seen : Seen = record {
        is_closed = p.closed;
        logged = log_answer disk_ops wal_ops p;
        replied = o.0;
      } in
      let later = run_all disk_ops wal_ops rs o.1 in
      steps r rs seen (observations disk_ops wal_ops rs o.1) (status disk_ops wal_ops p)
        (status disk_ops wal_ops o.1) (status disk_ops wal_ops later) (run-Leads r p)
        (run_all-Reaches rs o.1)
