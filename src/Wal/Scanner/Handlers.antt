-- ===== src/Wal/Scanner/Handlers.antt =====
-- The branches of one round of src/wal/WalScanner.cpp, each with the condition that selects it.
use dan_db.Prelude.{ℕ, ◌+◌, ◌≡◌, ◌≢◌, ◌⊎◌, inl, inr, Bool-cases, true, false, arith, length}
use dan_db.Core.Status.{Result, ok, err, corruption, Result-cases}
use dan_db.Core.Bytes.{Bytes}
use dan_db.Core.Endian.{read_u32_le}
use dan_db.Wal.PageFrame
use dan_db.Wal.PageFrame.{WalPageFrame}
use dan_db.Wal.CommitRecord
use dan_db.Wal.CommitRecord.{WalCommitRecord}
use dan_db.Wal.Scanner.{
  Scan, next, push_frame, on_page_frame, commit_frames, skip_commit, on_intact_commit,
  page_frame_round, commit_round, on_commit, record_round, other_round, round,
}

pub next-injective : {s t : Scan} → ok (next s) ≡ ok (next t) → s ≡ t
next-injective h = cc

module _ (s : Scan) (frame : WalPageFrame) where
  pub on_page_frame-idle :
      s.has_pending_transaction ≡ false
      → on_page_frame s (ok frame) ≡ ok (next (push_frame s frame.transaction_id frame.page_id))
  unfolding on_page_frame
  on_page_frame-idle e = rw e

  pub on_page_frame-same :
      s.has_pending_transaction ≡ true
      → s.pending_transaction_id ≡ frame.transaction_id
      → on_page_frame s (ok frame) ≡ ok (next (push_frame s s.pending_transaction_id frame.page_id))
  unfolding on_page_frame
  on_page_frame-same e same = ground arith

  pub on_page_frame-mixed :
      s.has_pending_transaction ≡ true
      → s.pending_transaction_id ≢ frame.transaction_id
      → on_page_frame s (ok frame) ≡ err corruption
  unfolding on_page_frame
  on_page_frame-mixed e ne = ground arith

module _ (s : Scan) (commit : WalCommitRecord) where
  pub on_intact_commit-empty :
      s.has_pending_transaction ≡ false
      → commit.frame_count ≡ 0
      → on_intact_commit s commit ≡ ok (next (skip_commit s))
  unfolding on_intact_commit
  on_intact_commit-empty e z = ground arith

  pub on_intact_commit-matching :
      s.has_pending_transaction ≡ true
      → commit.transaction_id ≡ s.pending_transaction_id
      → commit.frame_count ≡ length s.pending_frames
      → on_intact_commit s commit ≡ ok (next (commit_frames s))
  unfolding on_intact_commit
  on_intact_commit-matching e t n = ground arith

  -- A commit that is accepted is empty, or closes the pending transaction.
  pub on_intact_commit-next :
      (t : Scan)
      → on_intact_commit s commit ≡ ok (next t)
      → (skip_commit s ≡ t)
        ⊎ ((commit.transaction_id ≡ s.pending_transaction_id)
            × (commit.frame_count ≡ length s.pending_frames)
            × (commit_frames s ≡ t))
  unfolding on_intact_commit
  on_intact_commit-next t h = ground arith

module _ (read_at : ℕ → ℕ → Result Bytes) (file_size : ℕ) (s t : Scan) where
  -- A round over a frame that goes on has skipped it behind damage, or has read it.
  pub page_frame_round-next :
      page_frame_round read_at file_size s ≡ ok (next t)
      → (record s { offset = s.offset + 4136 } ≡ t)
        ⊎ ((bytes : Bytes) × (read_at s.offset 4136 ≡ ok bytes)
            × (on_page_frame s (PageFrame.decode bytes) ≡ ok (next t)))
  unfolding page_frame_round
  page_frame_round-next h = elim (Bool-cases s.is_damaged_tail) [
    | inl d ↦ inl (ground arith)
    | inr d ↦ elim (Result-cases (read_at s.offset 4136)) [
      | inl (bytes, e) ↦ inr (bytes, e, ground (arith, e))
      | inr (x, e) ↦ absurd (ground (arith, e))
    ]
  ]

  pub commit_round-next :
      commit_round read_at file_size s ≡ ok (next t)
      → (bytes : Bytes) × (read_at s.offset 32 ≡ ok bytes)
        × (on_commit s.is_damaged_tail s (CommitRecord.decode bytes) ≡ ok (next t))
  unfolding commit_round
  commit_round-next h = elim (Result-cases (read_at s.offset 32)) [
    | inl (bytes, e) ↦ (bytes, e, ground (arith, e))
    | inr (x, e) ↦ absurd (ground (arith, e))
  ]

  -- A round that goes on is one over a frame or one over a commit record.
  pub round-next :
      round read_at file_size s ≡ ok (next t)
      → (page_frame_round read_at file_size s ≡ ok (next t))
        ⊎ (commit_round read_at file_size s ≡ ok (next t))
  unfolding round record_round other_round
  round-next h = elim (Result-cases (read_at s.offset 4)) [
    | inl (bytes, e) ↦ elim (Result-cases (read_u32_le bytes 0)) [
      | inl (kind, e') ↦ ground (arith, e, e')
      | inr (x, e') ↦ absurd (ground (arith, e, e'))
    ]
    | inr (x, e) ↦ absurd (ground (arith, e))
  ]
