-- ===== src/Storage/Pager/Moves.antt =====
-- The states of a transaction, and how its requests move them (src/storage/Pager.cpp).
use dan_db.Prelude.{
  Option, none, some, ◌||◌, Bool, true, false, not, List, [], ◌∷◌, ◌≡◌, refl, sym, subst, ◌∙◌,
  if◌then◌else◌,
}
use dan_db.Core.Status.{Result, ok, err, StatusCode}
use dan_db.Platform.File.{FileOps}
use dan_db.Transaction.TransactionState.{
  TransactionStatus, inactive, active, failed, unresolved, in_transaction, is_unresolved, clear,
  is_active, status_failed, status_unresolved,
}
use dan_db.Storage.Pager.{Pager, Outcome, set_state, set_bpm, set_header, and_then}
use dan_db.Storage.Pager.Transactions.{
  begin_transaction, rollback_transaction, rollback_checked, mark_transaction_failed,
  clear_transaction, restore_originals, discard_pages,
}
use dan_db.Storage.Pager.Keeping.{IsKept, restore_originals-kept, discard_pages-kept}
use dan_db.Storage.Page.{PageId}
use dan_db.Buffer.BufferPoolManager.{PagePin}
use dan_db.Storage.Pager.Requests.{
  Request, begin, commit, rollback, fail, checkpoints, get, dirties, allocates, drops, Seen,
  status_of,
}

-- The state machine: a request, its answer, and the state before and after. It is told whether the pager is closed, and
-- what the log answers to a commit, if the commit reaches the log.
pub data Moves (closed : Bool) (log : Option (Result (Unit {0})))
    : Request → Result (Unit {0}) → TransactionStatus → TransactionStatus → Type 0 where
  begins : closed ≡ false → Moves closed log begin (ok tt) inactive active
  begin_refused :
      (e : StatusCode) (s : TransactionStatus)
      → (closed || is_active s) ≡ true
      → Moves closed log begin (err e) s s
  fails : closed ≡ false → Moves closed log fail (ok tt) active failed
  fails_again : closed ≡ false → Moves closed log fail (ok tt) failed failed
  fail_refused :
      (e : StatusCode) (s : TransactionStatus)
      → (closed || (not (is_active s) || status_unresolved s)) ≡ true
      → Moves closed log fail (err e) s s
  -- A commit that reaches the log is lost when the log fails, and else it is done, or stays active where a page
  -- could not be marked clean. One that does not reach the log leaves the state.
  commits : log ≡ some (ok tt) → Moves closed log commit (ok tt) active inactive
  unpublished :
      (e : StatusCode) → log ≡ some (ok tt) → Moves closed log commit (err e) active active
  loses : (e : StatusCode) → log ≡ some (err e) → Moves closed log commit (err e) active unresolved
  unlogged :
      (e : StatusCode) (s : TransactionStatus) → log ≡ none → Moves closed log commit (err e) s s
  undoes : closed ≡ false → Moves closed log rollback (ok tt) active inactive
  undoes_failed : closed ≡ false → Moves closed log rollback (ok tt) failed inactive
  undo_refused : (e : StatusCode) (s : TransactionStatus) → Moves closed log rollback (err e) s s
  -- Pages are changed and added only while the transaction is active.
  marks : (id : PageId) → closed ≡ false → Moves closed log (dirties id) (ok tt) active active
  mark_refused :
      (id : PageId) (e : StatusCode) (s : TransactionStatus)
      → Moves closed log (dirties id) (err e) s s
  adds_page : closed ≡ false → Moves closed log allocates (ok tt) active active
  page_refused : (e : StatusCode) (s : TransactionStatus) → Moves closed log allocates (err e) s s
  reads_page :
      (id : PageId) (s : TransactionStatus) → closed ≡ false → Moves closed log (get id) (ok tt) s s
  read_refused :
      (id : PageId) (e : StatusCode) (s : TransactionStatus) → Moves closed log (get id) (err e) s s
  drops_pin :
      (page_pin : PagePin) (s : TransactionStatus) → Moves closed log (drops page_pin) (ok tt) s s
  empties_log :
      (s : TransactionStatus)
      → status_unresolved s ≡ false
      → Moves closed log checkpoints (ok tt) s s
  checkpoint_refused :
      (e : StatusCode) (s : TransactionStatus) → Moves closed log checkpoints (err e) s s

pub data Reaches : List Request → List Seen → TransactionStatus → TransactionStatus → Type 0 where
  ends : (s : TransactionStatus) → Reaches [] [] s s
  steps :
      (r : Request) (rs : List Request) (v : Seen) (vs : List Seen) (s t u : TransactionStatus)
      → Moves v.is_closed v.logged r v.replied s t
      → Reaches rs vs t u
      → Reaches (r ∷ rs) (v ∷ vs) s u

pub inactive_status : (s : TransactionStatus) → is_active s ≡ false → s ≡ inactive
inactive_status inactive h = refl
inactive_status active h = absurd (cc h)
inactive_status failed h = absurd (cc h)
inactive_status unresolved h = absurd (cc h)

pub active_status :
    (s : TransactionStatus)
    → not (is_active s) ≡ false
    → status_failed s ≡ false
    → status_unresolved s ≡ false
    → s ≡ active
active_status inactive h f u = absurd (cc h)
active_status active h f u = refl
active_status failed h f u = absurd (cc f)
active_status unresolved h f u = absurd (cc u)

module _ {Disk Log : Type 0} (disk_ops : FileOps Disk) (wal_ops : FileOps Log) where
  abbrev pub status : Pager Disk Log → TransactionStatus
  status = status_of disk_ops wal_ops

  pub status-IsKept : IsKept disk_ops wal_ops status
  unfolding status_of set_bpm set_header set_state
  status-IsKept = record {
    over_bpm = λ p bpm. refl;
    over_header = λ p h. refl;
    over_sets = λ p dirty new originals. refl;
  }

  -- What a request makes of the state that it finds.
  abbrev pub Leads :
      Bool
      → Option (Result (Unit {0}))
      → Request
      → TransactionStatus
      → Outcome disk_ops wal_ops
      → Type 0
  Leads closed log r s x = Moves closed log r x.0 s (status x.1)

  pub unless :
      (closed : Bool) (log : Option (Result (Unit {0}))) (r : Request) (p : Pager Disk Log)
      (test : Bool) (e : StatusCode) (x : Outcome disk_ops wal_ops)
      → (test ≡ true → Moves closed log r (err e) (status p) (status p))
      → (test ≡ false → Leads closed log r (status p) x)
      → Leads closed log r (status p) (if test then (err e, p) else x)
  unless closed log r p true e x refused h = refused refl
  unless closed log r p false e x refused h = h refl

  pub clear_transaction-inactive :
      (p : Pager Disk Log) → status (clear_transaction disk_ops wal_ops p).1 ≡ inactive
  unfolding clear_transaction status_of set_state clear
  clear_transaction-inactive p = refl

  module _ (log : Option (Result (Unit {0}))) where
    pub begin-Leads :
        (p : Pager Disk Log)
        → Leads p.closed log begin (status p) (begin_transaction disk_ops wal_ops p)
    unfolding begin_transaction status_of in_transaction
    begin-Leads p =
        let s = p.transaction_state.status in
        unless p.closed log begin p p.closed _ _ (λ shut. begin_refused _ s (rw shut refl))
          (λ open'.
            unless p.closed log begin p (in_transaction p.transaction_state) _ _
              (λ inside. begin_refused _ s (rw (open', inside) refl))
              (λ out. rw (inactive_status s out) (begins open')))

    failing :
        (closed : Bool) (s : TransactionStatus)
        → closed ≡ false
        → not (is_active s) ≡ false
        → status_unresolved s ≡ false
        → Moves closed log fail (ok tt) s failed
    failing closed inactive c h k = absurd (cc h)
    failing closed active c h k = fails c
    failing closed failed c h k = fails_again c
    failing closed unresolved c h k = absurd (cc k)

    pub fail-Leads :
        (p : Pager Disk Log)
        → Leads p.closed log fail (status p) (mark_transaction_failed disk_ops wal_ops p)
    unfolding mark_transaction_failed status_of in_transaction is_unresolved set_state
    fail-Leads p =
        let t = p.transaction_state in
        unless p.closed log fail p p.closed _ _ (λ shut. fail_refused _ t.status (rw shut refl))
          (λ open'.
            unless p.closed log fail p (not (in_transaction t)) _ _
              (λ outside. fail_refused _ t.status (rw (open', outside) refl))
              (λ inside.
                unless p.closed log fail p (is_unresolved t) _ _
                  (λ unknown. fail_refused _ t.status (rw (open', inside, unknown) refl))
                  (λ known. failing p.closed t.status open' inside known)))

    undoing :
        (closed : Bool) (s : TransactionStatus)
        → closed ≡ false
        → not (is_active s) ≡ false
        → status_unresolved s ≡ false
        → Moves closed log rollback (ok tt) s inactive
    undoing closed inactive c h k = absurd (cc h)
    undoing closed active c h k = undoes c
    undoing closed failed c h k = undoes_failed c
    undoing closed unresolved c h k = absurd (cc k)

    -- A rollback that gives an error leaves the state.
    undo-refused :
        (closed : Bool) (s : TransactionStatus) (e : StatusCode) (p : Pager Disk Log)
        → status p ≡ s
        → Leads closed log rollback s (err e, p)
    undo-refused closed s e p h =
        subst (λ t. Moves closed log rollback (err e) s t) (sym h) (undo_refused e s)

    rollback_cleared :
        (closed : Bool) (o : Outcome disk_ops wal_ops)
        (f : Pager Disk Log → Outcome disk_ops wal_ops) (s : TransactionStatus)
        → status o.1 ≡ s
        → ((q : Pager Disk Log) → status q ≡ s → Leads closed log rollback s (f q))
        → Leads closed log rollback s (and_then disk_ops wal_ops o f)
    unfolding and_then
    rollback_cleared closed (err e, p) f s kept h = undo-refused closed s e p kept
    rollback_cleared closed (ok u, p) f s kept h = h p kept

    rollback_checked-Leads :
        (closed : Bool) (p : Pager Disk Log) (r : Result (Unit {0}))
        → closed ≡ false
        → not (is_active (status p)) ≡ false
        → status_unresolved (status p) ≡ false
        → Leads closed log rollback (status p) (rollback_checked disk_ops wal_ops p r)
    unfolding rollback_checked
    rollback_checked-Leads closed p (err e) c a k = undo_refused e (status p)
    rollback_checked-Leads closed p (ok u) c a k =
        let ids = p.transaction_state.new_page_ids in
        let originals = p.transaction_state.original_pages in
        rollback_cleared closed (restore_originals disk_ops wal_ops p originals) _ (status p)
          (restore_originals-kept disk_ops wal_ops status status-IsKept p originals)
          (λ q e.
            rollback_cleared closed (discard_pages disk_ops wal_ops q ids) _ (status p)
              (discard_pages-kept disk_ops wal_ops status status-IsKept.over_bpm q ids ∙ e)
              (λ q' e'.
                subst (λ t. Moves closed log rollback (ok tt) (status p) t)
                  (sym (clear_transaction-inactive q')) (undoing closed (status p) c a k)))

    pub rollback-Leads :
        (p : Pager Disk Log)
        → Leads p.closed log rollback (status p) (rollback_transaction disk_ops wal_ops p)
    unfolding rollback_transaction status_of in_transaction is_unresolved
    rollback-Leads p =
        let t = p.transaction_state in
        unless p.closed log rollback p p.closed _ _ (λ shut. undo_refused _ t.status)
          (λ open'.
            unless p.closed log rollback p (not (in_transaction t)) _ _
              (λ outside. undo_refused _ t.status)
              (λ inside.
                unless p.closed log rollback p (is_unresolved t) _ _
                  (λ unknown. undo_refused _ t.status)
                  (λ known. rollback_checked-Leads p.closed p _ open' inside known)))
