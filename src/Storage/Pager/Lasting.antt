-- ===== src/Storage/Pager/Lasting.antt =====
-- Requests to a pager (src/storage/Pager.cpp) and its files.
use dan_db.Prelude.{
  Bool, true, false, not, List, [], ◌∷◌, ◌≡◌, refl, ap, ◌∙◌, arith, if-both, if◌then◌else◌,
}
use dan_db.Core.Status.{Result, ok, err, StatusCode}
use dan_db.Platform.File.{FileOps}
use dan_db.Transaction.TransactionState.{in_transaction, is_unresolved}
use dan_db.Buffer.BufferPoolManager.{release}
use dan_db.Storage.Pager.{Pager, Outcome, get_page, new_page, set_state, set_bpm, set_header}
use dan_db.Storage.Pager.Transactions.{
  begin_transaction, rollback_transaction, rollback_checked, mark_transaction_failed,
  clear_transaction, restore_originals, discard_pages,
}
use dan_db.Storage.Pager.Keeping.{
  IsKept, get_page-kept, new_page-kept, mark_dirty-kept, and_then-kept, restore_originals-kept,
  discard_pages-kept,
}
use dan_db.Storage.Pager.Requests.{
  Request, begin, commit, rollback, fail, checkpoints, get, dirties, allocates, drops, answer, run,
  run_all, is_lasting, none_lasting, Durable, durable,
}

pub answer-same : {A B : Type 0} (x : Result A × B) → (answer x).1 ≡ x.1
unfolding answer
answer-same (ok a, b) = refl
answer-same (err e, b) = refl

module _ {Disk Log : Type 0} (disk_ops : FileOps Disk) (wal_ops : FileOps Log) where
  abbrev files : Pager Disk Log → Durable Disk Log
  files = durable disk_ops wal_ops

  pub durable-IsKept : IsKept disk_ops wal_ops files
  unfolding durable set_bpm set_header set_state
  durable-IsKept = record {
    over_bpm = λ p bpm. refl;
    over_header = λ p h. refl;
    over_sets = λ p dirty new originals. refl;
  }

  clear_transaction-durable :
      (p : Pager Disk Log) → files (clear_transaction disk_ops wal_ops p).1 ≡ files p
  unfolding clear_transaction durable set_state
  clear_transaction-durable p = refl

  rollback_checked-durable :
      (p : Pager Disk Log) (r : Result (Unit {0}))
      → files (rollback_checked disk_ops wal_ops p r).1 ≡ files p
  unfolding rollback_checked
  rollback_checked-durable p (err e) = refl
  rollback_checked-durable p (ok u) =
      let ids = p.transaction_state.new_page_ids in
      let originals = p.transaction_state.original_pages in
      and_then-kept disk_ops wal_ops files durable-IsKept.over_bpm
        (restore_originals disk_ops wal_ops p originals) _
        (λ q.
          and_then-kept disk_ops wal_ops files durable-IsKept.over_bpm
            (discard_pages disk_ops wal_ops q ids) _ clear_transaction-durable
          ∙ discard_pages-kept disk_ops wal_ops files durable-IsKept.over_bpm q ids)
      ∙ restore_originals-kept disk_ops wal_ops files durable-IsKept p originals

  unless :
      (p : Pager Disk Log) (test : Bool) (e : StatusCode) (x : Outcome disk_ops wal_ops)
      → files x.1 ≡ files p
      → files (if test then (err e, p) else x).1 ≡ files p
  unless p test e x h =
      if-both (λ (y : Outcome disk_ops wal_ops). files y.1 ≡ files p) test {x = (err e, p)} {y = x}
        refl h

  run-durable :
      (r : Request) (p : Pager Disk Log)
      → is_lasting r ≡ false
      → files (run disk_ops wal_ops r p).1 ≡ files p
  unfolding run is_lasting durable set_state begin_transaction rollback_transaction
      mark_transaction_failed
  run-durable begin p h =
      unless p p.closed _ _ (unless p (in_transaction p.transaction_state) _ _ (λ i. files p))
  run-durable commit p h = absurd (cc h)
  run-durable rollback p h =
      let t = p.transaction_state in
      unless p p.closed _ _ (
        unless p (not (in_transaction t)) _ _
          (unless p (is_unresolved t) _ _ (rollback_checked-durable p _)))
  run-durable fail p h =
      let t = p.transaction_state in
      unless p p.closed _ _
        (unless p (not (in_transaction t)) _ _ (unless p (is_unresolved t) _ _ (λ i. files p)))
  run-durable checkpoints p h = absurd (cc h)
  run-durable (get id) p h =
      ap files (answer-same (get_page disk_ops wal_ops p id))
      ∙ get_page-kept disk_ops wal_ops files durable-IsKept.over_bpm p id
  run-durable (dirties id) p h = mark_dirty-kept disk_ops wal_ops files durable-IsKept p id
  run-durable allocates p h =
      ap files (answer-same (new_page disk_ops wal_ops p))
      ∙ new_page-kept disk_ops wal_ops files durable-IsKept p
  run-durable (drops page_pin) p h = durable-IsKept.over_bpm p (release p.bpm page_pin).0

  -- Whatever is asked of a pager, short of a commit or a checkpoint, the two files, the committed header and the
  -- pages that the log holds stay as they were: pages that a transaction has changed reach neither.
  pub run_all-uncommitted :
      (rs : List Request) (p : Pager Disk Log)
      → none_lasting rs ≡ true
      → durable disk_ops wal_ops (run_all disk_ops wal_ops rs p) ≡ durable disk_ops wal_ops p
  unfolding run_all none_lasting
  run_all-uncommitted [] p h = refl
  run_all-uncommitted (r ∷ rs) p h =
      run_all-uncommitted rs (run disk_ops wal_ops r p).1 (ground (arith, h))
      ∙ run-durable r p (ground (arith, h))
