-- ===== src/Storage/Pager/Allowing.antt =====
-- When the requests of src/storage/Pager.cpp may succeed.
use dan_db.Prelude.{Bool, true, false, not, ◌≡◌, refl, ◌==◌, if◌then◌else◌, Option, sym, subst}
use dan_db.Core.Status.{Result, ok, err, StatusCode}
use dan_db.Platform.File.{FileOps}
use dan_db.Transaction.TransactionState.{
  TransactionStatus, active, in_transaction, is_failed, is_unresolved, status_unresolved,
}
use dan_db.Storage.Page.{PageId, invalid_page_id}
use dan_db.Storage.Pager.{Pager, get_page, new_page, mark_dirty}
use dan_db.Storage.Pager.Checkpoint.{checkpoint}
use dan_db.Storage.Pager.Requests.{Request, dirties, allocates, answer}
use dan_db.Storage.Pager.Moves.{Moves, marks, adds_page, Leads, status, active_status}

-- Success, for a result of any kind.
abbrev pub is_ok : {A : Type 0} → Result A → Bool
is_ok (ok a) = true
is_ok (err e) = false

module _ {Disk Log : Type 0} (disk_ops : FileOps Disk) (wal_ops : FileOps Log) where
  -- What success shows behind a guard.
  guarded :
      {A G : Type 0} (test : Bool) (e : StatusCode) (p : Pager Disk Log)
      (x : Result A × Pager Disk Log)
      → (test ≡ false → is_ok x.0 ≡ true → G)
      → is_ok (if test then (err e, p) else x).0 ≡ true
      → G
  guarded true e p x h k = absurd (cc k)
  guarded false e p x h k = h refl k

  -- Pages are changed in a transaction that is active.
  abbrev IsRunning : Pager Disk Log → Type 0
  IsRunning p = (p.closed ≡ false) × (p.transaction_state.status ≡ active)

  mark_dirty-IsRunning :
      (p : Pager Disk Log) (id : PageId)
      → is_ok (mark_dirty disk_ops wal_ops p id).0 ≡ true
      → IsRunning p
  unfolding mark_dirty in_transaction is_failed is_unresolved
  mark_dirty-IsRunning p id =
      let t = p.transaction_state in
      guarded p.closed _ p _ (λ open'. guarded (id == invalid_page_id) _ p _ (λ valid.
        guarded (is_failed t) _ p _ (λ sound. guarded (is_unresolved t) _ p _ (λ known.
          guarded (not (in_transaction t)) _ p _
            (λ inside k. (open', active_status t.status inside sound known))))))

  new_page-IsRunning :
      (p : Pager Disk Log) → is_ok (new_page disk_ops wal_ops p).0 ≡ true → IsRunning p
  unfolding new_page in_transaction is_failed is_unresolved
  new_page-IsRunning p =
      let t = p.transaction_state in
      guarded p.closed _ p _ (λ open'. guarded (not (in_transaction t)) _ p _ (λ inside.
        guarded (is_failed t) _ p _ (λ sound.
          guarded (is_unresolved t) _ p _
            (λ known k. (open', active_status t.status inside sound known)))))

  pub get_page-open :
      (p : Pager Disk Log) (id : PageId)
      → is_ok (get_page disk_ops wal_ops p id).0 ≡ true
      → p.closed ≡ false
  unfolding get_page
  get_page-open p id = guarded p.closed _ p _ (λ open' k. open')

  pub checkpoint-resolved :
      (p : Pager Disk Log)
      → is_ok (checkpoint disk_ops wal_ops p).0 ≡ true
      → status_unresolved p.transaction_state.status ≡ false
  unfolding checkpoint is_unresolved
  checkpoint-resolved p = guarded (is_unresolved p.transaction_state) _ p _ (λ known k. known)

  module _ (closed : Bool) (log : Option (Result (Unit {0}))) where
    -- A request that keeps the state, where success and errors are both allowed.
    pub keeping :
        {A : Type 0} (r : Request) (s : TransactionStatus) (x : Result A × Pager Disk Log)
        → status disk_ops wal_ops x.1 ≡ s
        → ((e : StatusCode) → Moves closed log r (err e) s s)
        → (is_ok x.0 ≡ true → Moves closed log r (ok tt) s s)
        → Leads disk_ops wal_ops closed log r s (answer x)
    unfolding answer
    keeping r s (ok a, p) same refused done =
        subst (λ t. Moves closed log r (ok tt) s t) (sym same) (done refl)
    keeping r s (err e, p) same refused done =
        subst (λ t. Moves closed log r (err e) s t) (sym same) (refused e)

  pub marks_dirty :
      (log : Option (Result (Unit {0}))) (p : Pager Disk Log) (id : PageId)
      → is_ok (mark_dirty disk_ops wal_ops p id).0 ≡ true
      → Moves p.closed log
          (dirties id)
          (ok tt)
          p.transaction_state.status
          p.transaction_state.status
  marks_dirty log p id h =
      let (open', running) = mark_dirty-IsRunning p id h in
      subst (λ s. Moves p.closed log (dirties id) (ok tt) s s) (sym running) (marks id open')

  pub adds_new_page :
      (log : Option (Result (Unit {0}))) (p : Pager Disk Log)
      → is_ok (new_page disk_ops wal_ops p).0 ≡ true
      → Moves p.closed log allocates (ok tt) p.transaction_state.status p.transaction_state.status
  adds_new_page log p h =
      let (open', running) = new_page-IsRunning p h in
      subst (λ s. Moves p.closed log allocates (ok tt) s s) (sym running) (adds_page open')
