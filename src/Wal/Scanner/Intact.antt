-- ===== src/Wal/Scanner/Intact.antt =====
-- The rounds of a scan (src/wal/WalScanner.cpp) over an intact log that a crash may have cut short.
use native.Mathlib.Decide.{dec_lt}
use dan_db.Prelude.{
  ℕ, suc, ◌+◌, ◌-◌, ◌^◌, ◌≤◌, ◌<◌, ◌≡◌, refl, sym, ap, ◌∙◌, false, ◌⊎◌, inl, inr, Option, some, [],
  ◌++◌, append_assoc, append-nil, arith, length, take, slice, length-append, slice-append_right,
  slice-append_left, take-append_long, length-take_le,
}
use dan_db.Core.Status.{Result, ok}
use dan_db.Core.Bytes.{Bytes}
use dan_db.Core.Endian.{read_u32_le}
use dan_db.Core.Endian.Laws.{le_bytes, length-le_bytes}
use dan_db.Core.Endian.Fields.{read_le-split}
use dan_db.Wal.PageFrame.{WalPageFrame}
use dan_db.Wal.PageFrame.Layout as FrameLayout
use dan_db.Wal.PageFrame.Decoding as FrameDecoding
use dan_db.Wal.CommitRecord.{WalCommitRecord}
use dan_db.Wal.CommitRecord.Layout as CommitLayout
use dan_db.Wal.CommitRecord.Decoding as CommitDecoding
use dan_db.Wal.Scanner.{
  Scan, next, done, on_page_frame, on_commit, on_intact_commit, page_frame_round, commit_round,
  record_round, round, scan_loop,
}
use dan_db.Wal.Scanner.Rounds.{round-Advances, scan_loop-next, scan_loop-done, scan_loop_enough}

-- Reads inside the file succeed.
module _ (content : Bytes) (read_at : ℕ → ℕ → Result Bytes)
    (reads : (offset n : ℕ)
      → offset + n ≤ length content
      → read_at offset n ≡ ok (slice offset n content)) where
  abbrev file_size : ℕ
  file_size = length content

  -- The loop from a state on, with fuel for a whole file.
  abbrev pub run : Scan → Option (Result Scan)
  run s = scan_loop read_at file_size (suc file_size) s

  run-next : (s t : Scan) → round read_at file_size s ≡ ok (next t) → run s ≡ run t
  run-next s t e =
      let further = round-Advances read_at file_size s t e in
      let (q, a, b) =
        scan_loop_enough read_at file_size file_size (suc file_size) t (omega arith)
          (omega arith) in
      scan_loop-next read_at file_size file_size s t e ∙ a ∙ sym b

  run-done : (s : Scan) → round read_at file_size s ≡ ok (done s) → run s ≡ some (ok s)
  run-done s e = scan_loop-done read_at file_size file_size s s e

  read_behind :
      (front here back : Bytes) (offset n : ℕ)
      → content ≡ front ++ (here ++ back)
      → length front ≡ offset
      → length here ≡ n
      → read_at offset n ≡ ok here
  read_behind front here back offset n e hf hn =
      reads offset n
        (omega (arith, ap length e, length-append front (here ++ back), length-append here back))
      ∙ ap ok (
          ap (slice offset n) e
          ∙ slice-append_right front (here ++ back) 0 offset n (omega arith)
          ∙ slice-append_left here back n hn)

  read_kind : (k : ℕ) → k < 256 ^ 4 → read_u32_le (le_bytes 4 k) 0 ≡ ok k
  read_kind k h = read_le-split 4 (omega arith) 0 k [] [] (sym (append-nil (le_bytes 4 k))) refl h

  -- A round begins with the record type that stands at its offset.
  round-kind :
      (s : Scan) (k : ℕ) (front back : Bytes)
      → content ≡ front ++ (le_bytes 4 k ++ back)
      → length front ≡ s.offset
      → k < 256 ^ 4
      → round read_at file_size s ≡ record_round read_at file_size s k
  unfolding round
  round-kind s k front back e hf hk = ground (
    arith,
    ap length e,
    length-append front (le_bytes 4 k ++ back),
    length-append (le_bytes 4 k) back,
    length-le_bytes 4 k,
    read_behind front (le_bytes 4 k) back s.offset 4 e hf (length-le_bytes 4 k),
    read_kind k hk,
  )

  frame_record_round :
      (s : Scan) → record_round read_at file_size s 1 ≡ page_frame_round read_at file_size s
  unfolding record_round
  frame_record_round s = refl

  commit_record_round :
      (s : Scan) → record_round read_at file_size s 2 ≡ commit_round read_at file_size s
  unfolding record_round
  commit_record_round s = refl

  ends_before_type :
      (s : Scan) → length content < s.offset + 4 → round read_at file_size s ≡ ok (done s)
  unfolding round
  ends_before_type s h = ground arith

  torn_record_round :
      (s : Scan) (k size : ℕ)
      → ((k ≡ 1) × (size ≡ 4136)) ⊎ ((k ≡ 2) × (size ≡ 32))
      → length content < s.offset + size
      → record_round read_at file_size s k ≡ ok (done s)
  unfolding record_round page_frame_round commit_round
  torn_record_round s k size (inl (e, f)) h = rw e (ground arith)
  torn_record_round s k size (inr (e, f)) h = rw e (ground arith)

  page_frame_round-intact :
      (s : Scan) (f : WalPageFrame) (front back : Bytes)
      → content ≡ front ++ (FrameLayout.layout f ++ back)
      → length front ≡ s.offset
      → s.is_damaged_tail ≡ false
      → FrameLayout.FitsWords f
      → page_frame_round read_at file_size s ≡ on_page_frame s (ok f)
  unfolding page_frame_round
  page_frame_round-intact s f front back e hf ht w =
      let size = FrameLayout.length-layout f w.image_size in
      ground (
        arith,
        ap length e,
        length-append front (FrameLayout.layout f ++ back),
        length-append (FrameLayout.layout f) back,
        size,
        read_behind front (FrameLayout.layout f) back s.offset 4136 e hf size,
        FrameDecoding.decode-layout f w,
      )

  commit_round-intact :
      (s : Scan) (c : WalCommitRecord) (front back : Bytes)
      → content ≡ front ++ (CommitLayout.layout c ++ back)
      → length front ≡ s.offset
      → s.is_damaged_tail ≡ false
      → CommitLayout.FitsWords c
      → commit_round read_at file_size s ≡ on_intact_commit s c
  unfolding commit_round on_commit
  commit_round-intact s c front back e hf ht w =
      let size = CommitLayout.length-layout c in
      ground (
        arith,
        ap length e,
        length-append front (CommitLayout.layout c ++ back),
        length-append (CommitLayout.layout c) back,
        size,
        read_behind front (CommitLayout.layout c) back s.offset 32 e hf size,
        CommitDecoding.decode-layout c w,
      )

  -- An intact frame hands over to the frame's handler, and an intact commit to the commit's.
  pub frame_step :
      (s t : Scan) (f : WalPageFrame) (front back : Bytes)
      → content ≡ front ++ (FrameLayout.layout f ++ back)
      → length front ≡ s.offset
      → s.is_damaged_tail ≡ false
      → FrameLayout.FitsWords f
      → on_page_frame s (ok f) ≡ ok (next t)
      → run s ≡ run t
  frame_step s t f front back e hf ht w h =
      let rest = FrameLayout.after_type f ++ back in
      let split : content ≡ front ++ (le_bytes 4 1 ++ rest) =
        e
        ∙ ap (λ x. front ++ (x ++ back)) (FrameLayout.layout-after_type f)
        ∙ ap (λ x. front ++ x) (append_assoc (le_bytes 4 1) (FrameLayout.after_type f) back) in
      run-next s t (
        round-kind s 1 front rest split hf (omega arith)
        ∙ frame_record_round s
        ∙ page_frame_round-intact s f front back e hf ht w
        ∙ h)

  pub commit_step :
      (s t : Scan) (c : WalCommitRecord) (front back : Bytes)
      → content ≡ front ++ (CommitLayout.layout c ++ back)
      → length front ≡ s.offset
      → s.is_damaged_tail ≡ false
      → CommitLayout.FitsWords c
      → on_intact_commit s c ≡ ok (next t)
      → run s ≡ run t
  commit_step s t c front back e hf ht w h =
      let rest = CommitLayout.after_type c ++ back in
      let split : content ≡ front ++ (le_bytes 4 2 ++ rest) =
        e
        ∙ ap (λ x. front ++ (x ++ back)) (CommitLayout.layout-after_type c)
        ∙ ap (λ x. front ++ x) (append_assoc (le_bytes 4 2) (CommitLayout.after_type c) back) in
      run-next s t (
        round-kind s 2 front rest split hf (omega arith)
        ∙ commit_record_round s
        ∙ commit_round-intact s c front back e hf ht w
        ∙ h)

  -- The scan stops at a record of which the file holds only a beginning.
  pub torn_stop :
      (s : Scan) (k j size : ℕ) (whole rest front : Bytes)
      → ((k ≡ 1) × (size ≡ 4136)) ⊎ ((k ≡ 2) × (size ≡ 32))
      → whole ≡ le_bytes 4 k ++ rest
      → length whole ≡ size
      → j < size
      → content ≡ front ++ take j whole
      → length front ≡ s.offset
      → run s ≡ some (ok s)
  torn_stop s k j size whole rest front kinds hw hl hj e hf = run-done s (elim (dec_lt j 4) [
    | yes short ↦ ends_before_type s (omega (arith, left, kinds))
    | no enough ↦
        let split : content ≡ front ++ (le_bytes 4 k ++ take (j - 4) rest) =
          e
          ∙ ap (λ x. front ++ take j x) hw
          ∙ ap (λ x. front ++ x)
              (take-append_long j (j - 4) (le_bytes 4 k) rest
                (omega (arith, length-le_bytes 4 k))) in
        round-kind s k front (take (j - 4) rest) split hf (omega (arith, kinds))
        ∙ torn_record_round s k size kinds (omega (arith, left))
  ])
    where
      left : length content ≡ s.offset + j
      left = ap length e ∙ omega (arith, length-append front (take j whole), length-take_le j whole)
