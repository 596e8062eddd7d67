-- ===== src/Storage/Pager/Committing.antt =====
-- The states of a transaction under a commit (src/storage/Pager.cpp), and what the log tells the commit.
use dan_db.Prelude.{
  Bool, true, false, Option, none, some, if◌then◌else◌, not, ◌==◌, List, [], ◌∷◌, ◌≡◌, refl, sym,
  subst, ◌∙◌, if-both,
}
use dan_db.Core.Status.{Result, ok, err, StatusCode}
use dan_db.Platform.File.{FileOps}
use dan_db.Transaction.TransactionState.{
  TransactionStatus, inactive, active, failed, unresolved, in_transaction, is_failed, is_unresolved,
  is_active, status_failed, status_unresolved,
}
use dan_db.Storage.Page.{Page, header_page_id}
use dan_db.Storage.Pager.{Pager, Outcome, and_then}
use dan_db.Storage.Pager.Transactions.{
  commit_transaction, commit_checked, log_pages, after_log, publish_page, publish_pages, snapshots,
  require_unpinned, clear_transaction,
}
use dan_db.Wal.Manager.{WalManager}
use dan_db.Storage.Pager.Keeping.{and_then-kept, snapshots-kept}
use dan_db.Storage.Pager.Requests.{
  commit, log_answer, log_checked, log_written, is_running, status_of,
}
use dan_db.Storage.Pager.Moves.{
  Moves, commits, loses, unpublished, unlogged, active_status, status, status-IsKept, Leads, unless,
  clear_transaction-inactive,
}

module _ {Disk Log : Type 0} (disk_ops : FileOps Disk) (wal_ops : FileOps Log) where
  publish_pages-status :
      (p : Pager Disk Log) (pages : List Page)
      → status disk_ops wal_ops (publish_pages disk_ops wal_ops p pages).1
        ≡ status disk_ops wal_ops p
  unfolding publish_pages publish_page status_of
  publish_pages-status p [] = refl
  publish_pages-status p (page ∷ pages) =
      and_then-kept disk_ops wal_ops (status disk_ops wal_ops)
        (status-IsKept disk_ops wal_ops).over_bpm (publish_page disk_ops wal_ops p page) _
        (λ q. publish_pages-status q pages)
      ∙ if-both
          (λ (x : Outcome disk_ops wal_ops).
            status disk_ops wal_ops x.1 ≡ status disk_ops wal_ops p)
          (page.id == header_page_id) refl refl

  -- A commit leads on from the active state, with what the log tells it.
  abbrev Commits : Bool → Option (Result (Unit {0})) → Outcome disk_ops wal_ops → Type 0
  Commits closed log x = Leads disk_ops wal_ops closed log commit active x

  cleared-Commits :
      (closed : Bool) (o : Outcome disk_ops wal_ops)
      → status disk_ops wal_ops o.1 ≡ active
      → Commits closed
          (some (ok tt))
          (and_then disk_ops wal_ops o (clear_transaction disk_ops wal_ops))
  unfolding and_then clear_transaction
  cleared-Commits closed (err e, p) h =
      subst (λ t. Moves closed (some (ok tt)) commit (err e) active t) (sym h) (unpublished e refl)
  cleared-Commits closed (ok u, p) h =
      subst (λ t. Moves closed (some (ok tt)) commit (ok tt) active t)
        (sym (clear_transaction-inactive disk_ops wal_ops p)) (commits refl)

  after_log-Commits :
      (closed : Bool) (pages : List Page) (p : Pager Disk Log)
      (r : Result (Unit {0}) × WalManager Log)
      → status disk_ops wal_ops p ≡ active
      → Commits closed (some r.0) (after_log disk_ops wal_ops pages p r)
  unfolding after_log status_of
  after_log-Commits closed pages p (err e, wal) a = loses e refl
  after_log-Commits closed pages p (ok u, wal) a =
      cleared-Commits closed (publish_pages disk_ops wal_ops _ pages)
        (publish_pages-status _ pages ∙ a)

  -- A commit that does not reach the log stays where it is.
  not_logged :
      (closed : Bool) (e : StatusCode) (p : Pager Disk Log)
      → status disk_ops wal_ops p ≡ active
      → Commits closed none (err e, p)
  not_logged closed e p a =
      subst (λ t. Moves closed none commit (err e) active t) (sym a) (unlogged e active refl)

  log_pages-Commits :
      (closed : Bool) (r : Result (List Page) × Pager Disk Log)
      → status disk_ops wal_ops r.1 ≡ active
      → Commits closed (log_written disk_ops wal_ops r) (log_pages disk_ops wal_ops r)
  unfolding log_pages log_written
  log_pages-Commits closed (err e, p) a = not_logged closed e p a
  log_pages-Commits closed (ok pages, p) a = after_log-Commits closed pages p _ a

  commit_checked-Commits :
      (closed : Bool) (p : Pager Disk Log) (r : Result (Unit {0}))
      → status disk_ops wal_ops p ≡ active
      → Commits closed (log_checked disk_ops wal_ops p r) (commit_checked disk_ops wal_ops p r)
  unfolding commit_checked log_checked
  commit_checked-Commits closed p (err e) a = not_logged closed e p a
  commit_checked-Commits closed p (ok u) a =
      let ids = p.transaction_state.dirty_page_ids in
      log_pages-Commits closed (snapshots disk_ops wal_ops p ids) (
        snapshots-kept disk_ops wal_ops (status disk_ops wal_ops)
          (status-IsKept disk_ops wal_ops).over_bpm p ids
        ∙ a)

  -- The log is reached only by a transaction that runs.
  is_running-lem :
      (s : TransactionStatus)
      → is_running s ≡ (
          if not (is_active s)
          then false
          else if status_failed s
          then false
          else if status_unresolved s
          then false
          else true)
  is_running-lem inactive = refl
  is_running-lem active = refl
  is_running-lem failed = refl
  is_running-lem unresolved = refl

  stopped :
      (p : Pager Disk Log)
      → is_running p.transaction_state.status ≡ false
      → log_answer disk_ops wal_ops p ≡ none
  unfolding log_answer
  stopped p h = rw h (if-both (λ o. o ≡ none) p.closed refl refl)

  running :
      (p : Pager Disk Log)
      → p.closed ≡ false
      → p.transaction_state.status ≡ active
      → log_answer disk_ops wal_ops p
        ≡ log_checked disk_ops wal_ops p (require_unpinned p.bpm p.transaction_state.dirty_page_ids)
  unfolding log_answer
  running p c a = rw (c, a) refl

  shut : (p : Pager Disk Log) → p.closed ≡ true → log_answer disk_ops wal_ops p ≡ none
  unfolding log_answer
  shut p h = rw h refl

  pub commit-Leads :
      (p : Pager Disk Log)
      → Leads disk_ops wal_ops p.closed
          (log_answer disk_ops wal_ops p)
          commit
          (status disk_ops wal_ops p)
          (commit_transaction disk_ops wal_ops p)
  unfolding commit_transaction status_of in_transaction is_unresolved is_failed
  commit-Leads p =
      let t = p.transaction_state in
      let log = log_answer disk_ops wal_ops p in
      let checked = require_unpinned p.bpm t.dirty_page_ids in
      let guard = unless disk_ops wal_ops p.closed log commit p in
      guard p.closed _ _ (λ c. unlogged _ t.status (shut p c))
        (λ open'.
          guard (not (in_transaction t)) _ _
            (λ outside. unlogged _ t.status (stopped p (is_running-lem t.status ∙ rw outside refl)))
            (λ inside.
              guard (is_failed t) _ _
                (λ bad.
                  unlogged _ t.status (stopped p (is_running-lem t.status ∙ rw (inside, bad) refl)))
                (λ sound.
                  guard (is_unresolved t) _ _
                    (λ unknown.
                      unlogged _ t.status
                        (stopped p (is_running-lem t.status ∙ rw (inside, sound, unknown) refl)))
                    (λ known.
                      let a : t.status ≡ active = active_status t.status inside sound known in
                      subst
                        (λ l.
                          Leads disk_ops wal_ops p.closed l commit t.status
                            (commit_checked disk_ops wal_ops p checked))
                        (sym (running p open' a))
                        (subst
                          (λ s.
                            Leads disk_ops wal_ops p.closed (log_checked disk_ops wal_ops p checked)
                              commit s (commit_checked disk_ops wal_ops p checked))
                          (sym a) (commit_checked-Commits p.closed p checked a))))))
