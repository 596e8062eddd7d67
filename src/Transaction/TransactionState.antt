-- ===== src/Transaction/TransactionState.antt =====
-- src/transaction/TransactionState.cpp and its header. An unordered set is the list of its members, in
-- the order in which the code would visit them.
use dan_db.Prelude.{ℕ, Bool, true, false, List, [], ◌∷◌, ◌++◌, if◌then◌else◌}
use dan_db.Prelude.Map.{Map}
use dan_db.Prelude.Sets.{contains}
use dan_db.Storage.Page.{Page, PageId}

pub data TransactionStatus : Type 0 where
  inactive active failed unresolved : TransactionStatus

pub record TransactionState : Type 0 where
  pub status : TransactionStatus
  pub transaction_id : ℕ
  pub dirty_page_ids : List PageId
  pub new_page_ids : List PageId
  pub original_pages : Map Page

abbrev pub no_transaction : TransactionState
no_transaction = record {
  status = inactive;
  transaction_id = 0;
  dirty_page_ids = [];
  new_page_ids = [];
  original_pages = [];
}

abbrev pub is_active : TransactionStatus → Bool
is_active inactive = false
is_active active = true
is_active failed = true
is_active unresolved = true

unfoldable pub in_transaction : TransactionState → Bool
in_transaction t = is_active t.status

abbrev pub status_failed : TransactionStatus → Bool
status_failed inactive = false
status_failed active = false
status_failed failed = true
status_failed unresolved = false

unfoldable pub is_failed : TransactionState → Bool
is_failed t = status_failed t.status

abbrev pub status_unresolved : TransactionStatus → Bool
status_unresolved inactive = false
status_unresolved active = false
status_unresolved failed = false
status_unresolved unresolved = true

unfoldable pub is_unresolved : TransactionState → Bool
is_unresolved t = status_unresolved t.status

unfoldable pub clear : TransactionState → TransactionState
clear t = no_transaction

-- s.insert(id)
unfoldable pub insert_id : PageId → List PageId → List PageId
insert_id id ids = if contains id ids then ids else ids ++ (id ∷ [])
