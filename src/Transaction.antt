-- ===== src/Transaction.antt =====
-- src/transaction.
pub mod TransactionState
