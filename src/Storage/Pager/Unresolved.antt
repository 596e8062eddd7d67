-- ===== src/Storage/Pager/Unresolved.antt =====
-- A pager (src/storage/Pager.cpp) after a write of the log has failed.
use dan_db.Prelude.{Bool, true, false, not, ◌==◌, List, [], ◌∷◌, ◌≡◌, refl, ap, ◌∙◌, if◌then◌else◌}
use dan_db.Core.Status.{Result, err, StatusCode}
use dan_db.Platform.File.{FileOps}
use dan_db.Transaction.TransactionState.{unresolved, in_transaction, is_failed, is_unresolved}
use dan_db.Storage.Page.{invalid_page_id}
use dan_db.Buffer.BufferPoolManager.{release}
use dan_db.Storage.Pager.{Pager, Outcome, get_page, new_page, mark_dirty}
use dan_db.Storage.Pager.Transactions.{
  begin_transaction, commit_transaction, rollback_transaction, mark_transaction_failed,
}
use dan_db.Storage.Pager.Checkpoint.{checkpoint}
use dan_db.Storage.Pager.Keeping.{get_page-kept}
use dan_db.Storage.Pager.Requests.{
  Request, begin, commit, rollback, fail, checkpoints, get, dirties, allocates, drops, answer, run,
  run_all, durable, status_of,
}
use dan_db.Storage.Pager.Lasting.{answer-same, durable-IsKept}
use dan_db.Storage.Pager.Moves.{status-IsKept}

-- A request that does not only read a page or end a page handle.
unfoldable pub is_changing : Request → Bool
is_changing begin = true
is_changing commit = true
is_changing rollback = true
is_changing fail = true
is_changing checkpoints = true
is_changing (get id) = false
is_changing (dirties id) = true
is_changing allocates = true
is_changing (drops page_pin) = false

module _ {Disk Log : Type 0} (disk_ops : FileOps Disk) (wal_ops : FileOps Log) where
  -- A call that gives an error and changes nothing.
  abbrev pub Refuses : {A : Type 0} → Pager Disk Log → Result A × Pager Disk Log → Type 0
  Refuses {A = A} p o = (e : StatusCode) × (o ≡ (err e, p))

  guard :
      {A : Type 0} (p : Pager Disk Log) (test : Bool) (e : StatusCode)
      (x : Result A × Pager Disk Log)
      → Refuses p x
      → Refuses p (if test then (err e, p) else x)
  guard p true e x h = (e, refl)
  guard p false e x h = h

  refuse :
      {A : Type 0} (p : Pager Disk Log) (test : Bool) (e : StatusCode)
      (x : Result A × Pager Disk Log)
      → test ≡ true
      → Refuses p (if test then (err e, p) else x)
  refuse p true e x h = (e, refl)
  refuse p false e x h = absurd (cc h)

  inside_lem :
      (p : Pager Disk Log)
      → status_of disk_ops wal_ops p ≡ unresolved
      → in_transaction p.transaction_state ≡ true
  unfolding in_transaction status_of
  inside_lem p h = rw h refl

  unknown_lem :
      (p : Pager Disk Log)
      → status_of disk_ops wal_ops p ≡ unresolved
      → is_unresolved p.transaction_state ≡ true
  unfolding is_unresolved status_of
  unknown_lem p h = rw h refl

  new_page-Refuses :
      (p : Pager Disk Log)
      → status_of disk_ops wal_ops p ≡ unresolved
      → Refuses p (new_page disk_ops wal_ops p)
  unfolding new_page
  new_page-Refuses p h = guard p p.closed _ _ (
      guard p (not (in_transaction p.transaction_state)) _ _ (
        guard p (is_failed p.transaction_state) _ _
          (refuse p (is_unresolved p.transaction_state) _ _ (unknown_lem p h))))

  -- Every request but reading a page and ending a handle is refused on a pager whose transaction is unresolved.
  pub run-Refuses :
      (r : Request) (p : Pager Disk Log)
      → status_of disk_ops wal_ops p ≡ unresolved
      → is_changing r ≡ true
      → Refuses p (run disk_ops wal_ops r p)
  unfolding run is_changing begin_transaction commit_transaction rollback_transaction
      mark_transaction_failed checkpoint mark_dirty new_page answer
  run-Refuses begin p h c =
      guard p p.closed _ _ (refuse p (in_transaction p.transaction_state) _ _ (inside_lem p h))
  run-Refuses commit p h c =
      let t = p.transaction_state in
      guard p p.closed _ _ (
        guard p (not (in_transaction t)) _ _
          (guard p (is_failed t) _ _ (refuse p (is_unresolved t) _ _ (unknown_lem p h))))
  run-Refuses rollback p h c =
      let t = p.transaction_state in
      guard p p.closed _ _
        (guard p (not (in_transaction t)) _ _ (refuse p (is_unresolved t) _ _ (unknown_lem p h)))
  run-Refuses fail p h c =
      let t = p.transaction_state in
      guard p p.closed _ _
        (guard p (not (in_transaction t)) _ _ (refuse p (is_unresolved t) _ _ (unknown_lem p h)))
  run-Refuses checkpoints p h c = refuse p (is_unresolved p.transaction_state) _ _ (unknown_lem p h)
  run-Refuses (get id) p h c = absurd (cc c)
  run-Refuses (dirties id) p h c =
      let t = p.transaction_state in
      guard p p.closed _ _ (
        guard p (id == invalid_page_id) _ _
          (guard p (is_failed t) _ _ (refuse p (is_unresolved t) _ _ (unknown_lem p h))))
  run-Refuses allocates p h c = let (e, refused) = new_page-Refuses p h in (e, ap answer refused)
  run-Refuses (drops page_pin) p h c = absurd (cc c)

  -- The files and the state of the transaction.
  abbrev Stays : Pager Disk Log → Pager Disk Log → Type 0
  Stays p q =
      (durable disk_ops wal_ops q ≡ durable disk_ops wal_ops p)
      × (status_of disk_ops wal_ops q ≡ status_of disk_ops wal_ops p)

  refused-Stays : (p : Pager Disk Log) (o : Outcome disk_ops wal_ops) → Refuses p o → Stays p o.1
  refused-Stays p o (e, refused) = rw refused (refl, refl)

  run-Stays :
      (r : Request) (p : Pager Disk Log)
      → status_of disk_ops wal_ops p ≡ unresolved
      → Stays p (run disk_ops wal_ops r p).1
  unfolding run is_changing
  run-Stays begin p h = refused-Stays p _ (run-Refuses begin p h refl)
  run-Stays commit p h = refused-Stays p _ (run-Refuses commit p h refl)
  run-Stays rollback p h = refused-Stays p _ (run-Refuses rollback p h refl)
  run-Stays fail p h = refused-Stays p _ (run-Refuses fail p h refl)
  run-Stays checkpoints p h = refused-Stays p _ (run-Refuses checkpoints p h refl)
  run-Stays (dirties id) p h = refused-Stays p _ (run-Refuses (dirties id) p h refl)
  run-Stays allocates p h = refused-Stays p _ (run-Refuses allocates p h refl)
  run-Stays (get id) p h =
      let got = answer-same (get_page disk_ops wal_ops p id) in
      (
        ap (durable disk_ops wal_ops) got
            ∙ get_page-kept disk_ops wal_ops (durable disk_ops wal_ops)
                (durable-IsKept disk_ops wal_ops).over_bpm p id,
        ap (status_of disk_ops wal_ops) got
            ∙ get_page-kept disk_ops wal_ops (status_of disk_ops wal_ops)
                (status-IsKept disk_ops wal_ops).over_bpm p id,
      )
  run-Stays (drops page_pin) p h = (
    (durable-IsKept disk_ops wal_ops).over_bpm p (release p.bpm page_pin).0,
    (status-IsKept disk_ops wal_ops).over_bpm p (release p.bpm page_pin).0,
  )

  -- Once a write of the log has left the outcome of a transaction unresolved, no sequence of requests, not even
  -- a commit or a checkpoint, changes the files, the committed header or the pages that the log holds, and
  -- the transaction stays unresolved.
  pub run_all-unresolved :
      (rs : List Request) (p : Pager Disk Log)
      → status_of disk_ops wal_ops p ≡ unresolved
      → (durable disk_ops wal_ops (run_all disk_ops wal_ops rs p) ≡ durable disk_ops wal_ops p)
        × (status_of disk_ops wal_ops (run_all disk_ops wal_ops rs p) ≡ unresolved)
  unfolding run_all
  run_all-unresolved [] p h = (refl, h)
  run_all-unresolved (r ∷ rs) p h =
      let (files, state) = run-Stays r p h in
      let (files', state') = run_all-unresolved rs (run disk_ops wal_ops r p).1 (state ∙ h) in
      (files' ∙ files, state')
