-- ===== src/Wal/Manager/Opening.antt =====
-- Opening a log (src/wal/WalManager.cpp) after a crash.
use dan_db.Prelude.{
  ℕ, ◌+◌, ◌^◌, ◌≤◌, ◌<◌, ◌≡◌, refl, sym, ap, ◌∙◌, ◌==◌, some, List, ◌++◌, append_assoc, append-nil,
  arith, length, take, slice, length-append, length-take_le, take-append_left, slice-append_left,
  All, Bool-cases, inl, inr, ==→eq,
}
use dan_db.Core.Status.{Result, ok, err}
use dan_db.Core.Bytes.{Bytes}
use dan_db.Platform.File.{FileOps, FileLaws}
use dan_db.Wal.Header.Layout as HeaderLayout
use dan_db.Wal.Header.Decoding as HeaderDecoding
use dan_db.Wal.Scanner.{scan}
use dan_db.Wal.Scanner.Log.{Transaction, IsTransaction, transaction_bytes, log_bytes}
use dan_db.Wal.Scanner.Crash.{header_of, crashed_log, committed_part, scan_crashed}
use dan_db.Wal.Manager.{
  WalManager, opened, resized, cut_tail, after_scan, after_header, after_read, after_size,
  open_or_create,
}

-- A file whose reads inside it, cuts of its end and syncs do not fail from the state `d` on.
pub record IsHealthy {Disk : Type 0} (ops : FileOps Disk) (content : Disk → Bytes) (d : Disk)
    : Type 0 where
  pub size_ok : ops.size d ≡ ok (length (content d))
  pub read_at_ok :
      (offset n : ℕ)
      → offset + n ≤ length (content d)
      → ops.read_at d offset n ≡ ok (slice offset n (content d))
  pub cut_ok : (n : ℕ) → n ≤ length (content d) → (ops.resize d n).0 ≡ ok tt
  pub sync_ok : (d' : Disk) → (ops.sync d').0 ≡ ok tt

-- The log of the transactions, with nothing behind them.
abbrev pub committed_log : ℕ → List Transaction → Bytes
committed_log id ts = HeaderLayout.layout (header_of id) ++ log_bytes ts

module _ {Disk : Type 0} (ops : FileOps Disk) (content : Disk → Bytes)
    (laws : FileLaws ops content) where
  -- The manager that an opening returns holds a file of the bytes, and appends at its end.
  pub record OpensWith (bytes : Bytes) (id : ℕ) (o : Result (WalManager Disk) × Disk) : Type 0 where
    pub manager : WalManager Disk
    pub returned : o.0 ≡ ok manager
    pub holds : content manager.file_handle ≡ bytes
    pub at_end : manager.append_offset ≡ length bytes
    pub same_database : manager.database_id ≡ id

  opened-OpensWith :
      (bytes : Bytes) (offset id : ℕ) (w : Result (Unit {0}) × Disk)
      → w.0 ≡ ok tt
      → content w.1 ≡ bytes
      → offset ≡ length bytes
      → OpensWith bytes id (opened ops offset id w)
  unfolding opened
  opened-OpensWith bytes offset id (err e, d) h c l = absurd (cc h)
  opened-OpensWith bytes offset id (ok u, d) h c l = record {
    manager = record { file_handle = d; append_offset = offset; database_id = id };
    returned = refl;
    holds = c;
    at_end = l;
    same_database = refl;
  }

  resized-OpensWith :
      (bytes : Bytes) (offset id : ℕ) (w : Result (Unit {0}) × Disk)
      → w.0 ≡ ok tt
      → content w.1 ≡ bytes
      → offset ≡ length bytes
      → ((d : Disk) → (ops.sync d).0 ≡ ok tt)
      → OpensWith bytes id (resized ops offset id w)
  unfolding resized
  resized-OpensWith bytes offset id (err e, d) h c l s = absurd (cc h)
  resized-OpensWith bytes offset id (ok u, d) h c l s =
      opened-OpensWith bytes offset id (ops.sync d) (s d) (laws.sync_lem d ∙ c) l

  module _ (d : Disk) (id : ℕ) (ts : List Transaction) (t : Transaction) (j : ℕ)
      (e : content d ≡ crashed_log id ts t j) (works : IsHealthy ops content d) (h : id < 2 ^ 64)
      (v : All IsTransaction ts) (w : IsTransaction t) (hj : j < length (transaction_bytes t)) where
    abbrev tail : Bytes
    tail = take j (transaction_bytes t)

    split : content d ≡ committed_log id ts ++ tail
    split = e ∙ sym (append_assoc (HeaderLayout.layout (header_of id)) (log_bytes ts) tail)

    committed_size : length (committed_log id ts) ≡ 64 + length (log_bytes ts)
    committed_size = omega (
      arith,
      length-append (HeaderLayout.layout (header_of id)) (log_bytes ts),
      HeaderLayout.length-layout (header_of id),
    )

    total_size : length (content d) ≡ length (committed_log id ts) + j
    total_size =
        ap length split
        ∙ omega (
          arith,
          length-append (committed_log id ts) tail,
          length-take_le j (transaction_bytes t),
        )

    nothing_cut : 64 + length (log_bytes ts) ≡ length (content d) → content d ≡ committed_log id ts
    unfolding take
    nothing_cut n =
        let none_left : j ≡ 0 = omega (arith, n, total_size, committed_size) in
        split
        ∙ ap (λ (k : ℕ). committed_log id ts ++ take k (transaction_bytes t)) none_left
        ∙ append-nil (committed_log id ts)

    cut_back : content (ops.resize d (64 + length (log_bytes ts))).1 ≡ committed_log id ts
    cut_back =
        let n : ℕ = 64 + length (log_bytes ts) in
        laws.resize_lem d (ops.resize d n).1 n (omega (arith, total_size, committed_size))
          (λ i. (works.cut_ok n (omega (arith, total_size, committed_size)) i, (ops.resize d n).1))
        ∙ ap (take n) split
        ∙ take-append_left (committed_log id ts) tail n committed_size

    cut_tail-OpensWith :
        OpensWith
          (committed_log id ts)
          id
          (cut_tail ops d id (committed_part ts (length (content d))))
    unfolding cut_tail
    cut_tail-OpensWith = elim (Bool-cases (64 + length (log_bytes ts) == length (content d))) [
      | inl whole ↦
          rw (whole, cut_tail)
            (opened-OpensWith (committed_log id ts) (64 + length (log_bytes ts)) id (ok tt, d) refl
              (nothing_cut (==→eq _ _ whole)) (sym committed_size))
      | inr cut ↦
          rw (cut, cut_tail)
            (resized-OpensWith (committed_log id ts) (64 + length (log_bytes ts)) id
              (ops.resize d (64 + length (log_bytes ts)))
              (works.cut_ok _ (omega (arith, total_size, committed_size))) cut_back
              (sym committed_size) works.sync_ok)
    ]

    header_read : ops.read_at d 0 64 ≡ ok (HeaderLayout.layout (header_of id))
    header_read =
        let header = HeaderLayout.layout (header_of id) in
        works.read_at_ok 0 64 (omega (arith, total_size, committed_size))
        ∙ ap ok (
            ap (slice 0 64) e
            ∙ slice-append_left header (log_bytes ts ++ tail) 64
                (HeaderLayout.length-layout (header_of id)))

    scanned :
        scan (ops.read_at d) (length (content d)) id
        ≡ some (ok (committed_part ts (length (content d))))
    scanned = scan_crashed (content d) (ops.read_at d) works.read_at_ok id ts t j e h v w hj

    opening :
        open_or_create ops d id ≡ some (cut_tail ops d id (committed_part ts (length (content d))))
    unfolding open_or_create after_size after_read after_header after_scan
    opening = ground (
      arith,
      works.size_ok,
      total_size,
      committed_size,
      header_read,
      scanned,
      HeaderDecoding.decode-layout (header_of id) h,
    )

  -- Opening a log whose last transaction a crash cut off at any byte, over a file that behaves as
  -- documented and whose operations do not fail: it ends with an open log of the expected database,
  -- whose file has been cut back to the header and the committed transactions and which appends
  -- at the end of it. (The transactions are in range, and the last one is not complete.)
  pub open_or_create-recovers :
      (d : Disk) (id : ℕ) (ts : List Transaction) (t : Transaction) (j : ℕ)
      → content d ≡ crashed_log id ts t j
      → IsHealthy ops content d
      → id < 2 ^ 64
      → All IsTransaction ts
      → IsTransaction t
      → j < length (transaction_bytes t)
      → (o : Result (WalManager Disk) × Disk) × (open_or_create ops d id ≡ some o)
        × OpensWith (committed_log id ts) id o
  open_or_create-recovers d id ts t j e works h v w hj = (
    cut_tail ops d id (committed_part ts (length (content d))),
    opening d id ts t j e works h v w hj,
    cut_tail-OpensWith d id ts t j e works h v w hj,
  )
