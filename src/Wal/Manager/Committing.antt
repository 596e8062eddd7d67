-- ===== src/Wal/Manager/Committing.antt =====
-- Committing to the log (src/wal/WalManager.cpp) on a file whose writes succeed.
use dan_db.Prelude.{ℕ, ◌≡◌, refl, true, List, [], ◌∷◌, length, replicate, length-replicate, All}
use dan_db.Core.Status.{Result, ok, err}
use dan_db.Core.Bytes.{Bytes}
use dan_db.Platform.File.{FileOps, FileLaws}
use dan_db.Storage.Page.{Page, is_valid}
use dan_db.Wal.PageFrame.Layout as FrameLayout
use dan_db.Wal.CommitRecord.Layout as CommitLayout
use dan_db.Wal.Scanner.Log.{Transaction, frame_of, commit_of, transaction_bytes}
use dan_db.Wal.Manager.{
  WalManager, Outcome, and_then, append_written, append_encoded, append_page_frame, append_commit,
  sync, append_page_frames, commit_transaction,
}
use dan_db.Wal.Manager.Appending.{IsOpen, Appended, commit_transaction-Promise}

-- No write and no sync fails.
pub record Writes {Disk : Type 0} (ops : FileOps Disk) : Type 0 where
  pub write_ok : (d : Disk) (offset : ℕ) (bytes : Bytes) → (ops.write_at d offset bytes).0 ≡ ok tt
  pub sync_ok : (d : Disk) → (ops.sync d).0 ≡ ok tt

-- A page that the log takes.
abbrev pub IsLoggable : Page → Type 0
IsLoggable p = (is_valid p.id ≡ true) × (length p.contents ≡ 4096)

module _ {Disk : Type 0} (ops : FileOps Disk) (works : Writes ops) where
  and_then-ok :
      (o : Outcome ops) (f : WalManager Disk → Outcome ops)
      → o.0 ≡ ok tt
      → ((m : WalManager Disk) → (f m).0 ≡ ok tt)
      → (and_then ops o f).0 ≡ ok tt
  unfolding and_then
  and_then-ok (ok u, m) f h k = k m
  and_then-ok (err e, m) f h k = absurd (cc h)

  append_written-ok :
      (m : WalManager Disk) (n : ℕ) (w : Result (Unit {0}) × Disk)
      → w.0 ≡ ok tt
      → (append_written ops m n w).0 ≡ ok tt
  unfolding append_written
  append_written-ok m n (ok u, d) h = refl
  append_written-ok m n (err e, d) h = absurd (cc h)

  append_page_frame-ok :
      (m : WalManager Disk) (t : ℕ) (p : Page)
      → IsLoggable p
      → (append_page_frame ops m t p).0 ≡ ok tt
  unfolding append_page_frame append_encoded
  append_page_frame-ok m t p h =
      rw
        (
          h.0,
          FrameLayout.encode_into-layout (frame_of t p) (replicate 4136 0) h.1
              (length-replicate 4136 0),
        )
        (append_written-ok m 4136
          (ops.write_at m.file_handle m.append_offset (FrameLayout.layout (frame_of t p)))
          (works.write_ok m.file_handle m.append_offset (FrameLayout.layout (frame_of t p))))

  append_page_frames-ok :
      (m : WalManager Disk) (t : ℕ) (ps : List Page)
      → All IsLoggable ps
      → (append_page_frames ops m t ps).0 ≡ ok tt
  unfolding append_page_frames
  append_page_frames-ok m t [] h = refl
  append_page_frames-ok m t (p ∷ ps) h =
      and_then-ok (append_page_frame ops m t p) (λ m'. append_page_frames ops m' t ps)
        (append_page_frame-ok m t p h.0) (λ m'. append_page_frames-ok m' t ps h.1)

  append_commit-ok : (m : WalManager Disk) (t n : ℕ) → (append_commit ops m t n).0 ≡ ok tt
  unfolding append_commit append_encoded
  append_commit-ok m t n =
      rw (CommitLayout.encode_into-layout (commit_of t n) (replicate 32 0) (length-replicate 32 0))
        (append_written-ok m 32
          (ops.write_at m.file_handle m.append_offset (CommitLayout.layout (commit_of t n)))
          (works.write_ok m.file_handle m.append_offset (CommitLayout.layout (commit_of t n))))

  commit_transaction-ok :
      (m : WalManager Disk) (t : ℕ) (ps : List Page)
      → All IsLoggable ps
      → (commit_transaction ops m t ps).0 ≡ ok tt
  unfolding commit_transaction sync
  commit_transaction-ok m t ps h =
      and_then-ok (append_page_frames ops m t ps)
        (λ m'. and_then ops (append_commit ops m' t (length ps)) (sync ops))
        (append_page_frames-ok m t ps h)
        (λ m'.
          and_then-ok (append_commit ops m' t (length ps)) (sync ops)
            (append_commit-ok m' t (length ps)) (λ m''. works.sync_ok m''.file_handle))

loggable_sizes : (ps : List Page) → All IsLoggable ps → All (λ p. length p.contents ≡ 4096) ps
loggable_sizes [] h = tt
loggable_sizes (p ∷ ps) h = (h.0.1, loggable_sizes ps h.1)

-- Committing pages of 4096 bytes and valid ids to an open log, over a file that behaves as documented
-- and whose writes and syncs succeed: it succeeds, and the file is what it was and the bytes of the transaction, with the log open behind
-- them.
pub commit_transaction-commits :
    {Disk : Type 0} (ops : FileOps Disk) (content : Disk → Bytes) (m : WalManager Disk)
    (t : Transaction) (laws : FileLaws ops content)
    → Writes ops
    → IsOpen ops content laws m
    → All IsLoggable t.pages
    → ((commit_transaction ops m t.transaction_id t.pages).0 ≡ ok tt)
      × Appended ops content laws
          (transaction_bytes t)
          m
          (commit_transaction ops m t.transaction_id t.pages).1
commit_transaction-commits ops content m t laws works o h =
    let done = commit_transaction-ok ops works m t.transaction_id t.pages h in
    (
      done,
      (commit_transaction-Promise ops content m t laws o (loggable_sizes t.pages h)).on_success
          done,
    )
