-- ===== src/Lib.antt =====
-- DanDB: the pager with its transactions, the write-ahead log, the buffer pool, and what they stand on.
--
-- DanDB keeps a database in a file of pages of 4096 bytes. A transaction changes pages in the buffer
-- pool (src/buffer). To commit, the pager appends the changed pages to a write-ahead log (src/wal), as
-- one page frame each and a commit record, and forces the log to the disk. After a crash the log is
-- scanned, the frames of committed transactions are found, and what the crash left behind them is cut
-- off. Every record and every header carries a checksum (src/core/Checksum.cpp), and its numbers are
-- little-endian words (src/core/Endian.cpp).
--
-- The files and what they model:
-- - Prelude: tests, lists, bit operations, maps and lists of distinct numbers that the rest shares.
-- - Core/Status (include/dandb/core/Status.h, Result.h), Core/Bytes (src/core/Bytes.cpp), Core/Endian
--   (src/core/Endian.cpp: write_u32_le is `write_le 4`, and so on) and Core/Checksum
--   (src/core/Checksum.cpp). A byte is a number below 256 and a buffer is the list of its bytes.
-- - Storage/Page: src/storage/Page.cpp and include/dandb/storage/PageId.h.
-- - Platform/File: what the log uses of src/platform/FileHandle.cpp, as a parameter. The functions call
--   the operating system, so their documented behaviour is the record FileLaws of hypotheses; the file
--   in memory, `memory`, fulfils it. Any operation may fail.
-- - Wal/Header, Wal/PageFrame, Wal/CommitRecord: src/wal/WalHeader.cpp, WalPageFrame.cpp and
--   WalCommitRecord.cpp. Layout says where each field stands, without reference to the code.
-- - Wal/Scanner: WalScanner::scan of src/wal/WalScanner.cpp. The variables of its loop are the record
--   Scan, and a round returns the next state, or leaves the loop, or fails. Wal/Scanner/Log says which
--   bytes a list of transactions is in a log.
-- - Wal/Manager: src/wal/WalManager.cpp (open_or_create, append_page_frame, append_commit,
--   commit_transaction, sync, reset), by explicit passing of the manager and its file.
-- - Buffer/LruReplacer, Buffer/BufferFrame, Buffer/BufferPoolManager: src/buffer/LRUReplacer.cpp,
--   include/dandb/buffer/BufferFrame.h, src/buffer/BufferPoolManager.cpp and the release of a pin in
--   src/buffer/PagePin.cpp. A page pin holds the number of the frame that it points into.
-- - Record/LogicalType, Record/Value, Record/KeyCodec: src/record/LogicalType.cpp, Value.cpp and
--   KeyCodec.cpp. An exception of a read of another payload is `none`.
-- - Storage/DatabaseHeader: src/storage/DatabaseHeader.cpp, with its Layout as for the records of the log.
-- - Storage/DiskManager: src/storage/DiskManager.cpp, over a second file of the platform. Pages reads the
--   file as an array of pages; Works in Platform/File is a file whose operations do not fail inside it,
--   nor when it grows up to max_file_size (2 ^ 63 - 1, where FileHandle::resize stops).
-- - Transaction/TransactionState: src/transaction/TransactionState.cpp. A set is a list.
-- - Storage/Pager: src/storage/Pager.cpp. Pager has get_page, new_page and mark_dirty; Transactions has
--   begin, commit, rollback and mark_transaction_failed; Checkpoint has checkpoint and close; Opening
--   has open, as open_database. A page handle is its pin; the state of an unfinished call is returned
--   with its error. Requests has the calls of a client as data, the end of a page handle among them, and
--   what is seen of each call (Seen): Moves is the state machine that is meant, told by the answer of
--   the log to a commit; Allowing, Committing and States relate the code to it. A loop over an
--   unordered set or map takes its members in the order of the list.
-- - Tests: concrete runs, and the theorems at concrete inputs.
--
-- Fuel: the loop of a scan gets as many rounds as the file has bytes, and one more. Every round but the
-- last moves the offset forward, and the loop ends at the end of the file.
--
-- Not modelled: the text of error messages, a file's path and its opening, closing and locking, and the
-- fault injector; the creation of a database; trees, rows, SQL, the catalog and the execution of
-- statements; the terminal. An unordered map is an association list, since no result here depends on
-- the order of its iteration. A 64-bit offset into a file is a number without wrap-around: the code
-- adds at most the size of a record to an offset inside a file.
pub mod Prelude
pub mod Core
pub mod Platform
pub mod Storage
pub mod Wal
pub mod Buffer
pub mod Record
pub mod Transaction
pub mod Tests
