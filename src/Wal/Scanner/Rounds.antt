-- ===== src/Wal/Scanner/Rounds.antt =====
-- How far the rounds of the scan (src/wal/WalScanner.cpp) go, and how its loop ends.
use dan_db.Prelude.{
  ℕ, zero, suc, ◌+◌, ◌-◌, ◌≤◌, ◌<◌, ◌≡◌, sym, ap, subst, Bool, true, false, ◌⊎◌, ◌∙◌, some, arith,
  inl, inr,
}
use dan_db.Core.Status.{Result, ok, err, StatusCode, Result-cases, ◌>>=◌}
use dan_db.Core.Bytes.{Bytes}
use dan_db.Core.Endian.{read_u32_le}
use dan_db.Wal.PageFrame
use dan_db.Wal.PageFrame.{WalPageFrame}
use dan_db.Wal.CommitRecord
use dan_db.Wal.CommitRecord.{WalCommitRecord}
use dan_db.Wal.Scanner.{
  Scan, next, done, start, damage, push_frame, on_page_frame, commit_frames, skip_commit,
  on_intact_commit, on_commit, page_frame_round, commit_round, other_round, record_round, round,
  scan_loop, check_header, scan_records, scan, finish, WalScanResult,
}

on_page_frame-offset :
    (s t : Scan) (r : Result WalPageFrame)
    → on_page_frame s r ≡ ok (next t)
    → t.offset ≡ s.offset + 4136
unfolding on_page_frame damage push_frame
on_page_frame-offset s t (err e) h = ground arith
on_page_frame-offset s t (ok f) h = ground arith

on_commit-offset :
    (b : Bool) (s t : Scan) (r : Result WalCommitRecord)
    → on_commit b s r ≡ ok (next t)
    → t.offset ≡ s.offset + 32
unfolding on_commit on_intact_commit damage commit_frames skip_commit
on_commit-offset true s t (ok c) h = cc
on_commit-offset true s t (err e) h = ground arith
on_commit-offset false s t (err e) h = ground arith
on_commit-offset false s t (ok c) h = ground arith

on_page_frame-not_done :
    (s t : Scan) (r : Result WalPageFrame) → on_page_frame s r ≡ ok (done t) → ⊥
unfolding on_page_frame
on_page_frame-not_done s t (err e) h = cc
on_page_frame-not_done s t (ok f) h = ground arith

on_commit-not_done :
    (b : Bool) (s t : Scan) (r : Result WalCommitRecord) → on_commit b s r ≡ ok (done t) → ⊥
unfolding on_commit on_intact_commit
on_commit-not_done true s t (ok c) h = cc
on_commit-not_done true s t (err e) h = cc
on_commit-not_done false s t (err e) h = cc
on_commit-not_done false s t (ok c) h = ground arith

module _ (read_at : ℕ → ℕ → Result Bytes) (file_size : ℕ) where
  abbrev Advances : Scan → Scan → Type 0
  Advances s t = (s.offset + 32 ≤ t.offset) × (t.offset ≤ file_size)

  page_frame_round-Advances :
      (s t : Scan)
      → s.offset < file_size
      → page_frame_round read_at file_size s ≡ ok (next t)
      → Advances s t
  unfolding page_frame_round
  page_frame_round-Advances s t lt h = elim (Result-cases (read_at s.offset 4136)) [
    | inl (bytes, e) ↦ ground (arith, e, on_page_frame-offset s t (PageFrame.decode bytes))
    | inr (x, e) ↦ ground (arith, e)
  ]

  commit_round-Advances :
      (s t : Scan)
      → s.offset < file_size
      → commit_round read_at file_size s ≡ ok (next t)
      → Advances s t
  unfolding commit_round
  commit_round-Advances s t lt h = elim (Result-cases (read_at s.offset 32)) [
    | inl (bytes, e) ↦
        ground (arith, e, on_commit-offset s.is_damaged_tail s t (CommitRecord.decode bytes))
    | inr (x, e) ↦ ground (arith, e)
  ]

  record_round-Advances :
      (s t : Scan) (kind : ℕ)
      → s.offset < file_size
      → record_round read_at file_size s kind ≡ ok (next t)
      → Advances s t
  unfolding record_round other_round
  record_round-Advances s t kind lt h =
      ground (arith, page_frame_round-Advances s t, commit_round-Advances s t)

  -- The record type that a round finds.
  record_kind : Scan → Result ℕ
  record_kind s = read_at s.offset 4 >>= λ bytes. read_u32_le bytes 0

  pub round-Advances : (s t : Scan) → round read_at file_size s ≡ ok (next t) → Advances s t
  unfolding round
  round-Advances s t h = elim (Result-cases (read_at s.offset 4)) [
    | inl (bytes, e) ↦ elim (Result-cases (read_u32_le bytes 0)) [
      | inl (kind, e') ↦ ground (arith, e, e', record_round-Advances s t kind)
      | inr (x, e') ↦ ground (arith, e, e')
    ]
    | inr (x, e) ↦ ground (arith, e)
  ]

  pub scan_loop-err :
      (fuel : ℕ) (s : Scan) (x : StatusCode)
      → round read_at file_size s ≡ err x
      → scan_loop read_at file_size (suc fuel) s ≡ some (err x)
  unfolding scan_loop
  scan_loop-err fuel s x e = rw (e, scan_loop)

  pub scan_loop-done :
      (fuel : ℕ) (s t : Scan)
      → round read_at file_size s ≡ ok (done t)
      → scan_loop read_at file_size (suc fuel) s ≡ some (ok t)
  unfolding scan_loop
  scan_loop-done fuel s t e = rw (e, scan_loop)

  pub scan_loop-next :
      (fuel : ℕ) (s t : Scan)
      → round read_at file_size s ≡ ok (next t)
      → scan_loop read_at file_size (suc fuel) s ≡ scan_loop read_at file_size fuel t
  unfolding scan_loop
  scan_loop-next fuel s t e = rw (e, scan_loop)

  pub Round-cases :
      (s : Scan)
      → ((x : StatusCode) × (round read_at file_size s ≡ err x))
        ⊎ (((t : Scan) × (round read_at file_size s ≡ ok (done t)))
            ⊎ ((t : Scan) × (round read_at file_size s ≡ ok (next t))))
  Round-cases s = elim (Result-cases (round read_at file_size s)) [
    | inl (done t, e) ↦ inr (inl (t, e))
    | inl (next t, e) ↦ inr (inr (t, e))
    | inr (x, e) ↦ inl (x, e)
  ]

  -- Any two amounts of fuel above the bytes that are left give the same result, and they give one.
  pub scan_loop_enough :
      (fuel more : ℕ) (s : Scan)
      → file_size - s.offset < fuel
      → file_size - s.offset < more
      → (r : Result Scan) × (scan_loop read_at file_size fuel s ≡ some r)
        × (scan_loop read_at file_size more s ≡ some r)
  scan_loop_enough zero more s h k = elim h [ ]
  scan_loop_enough (suc fuel) zero s h k = elim k [ ]
  scan_loop_enough (suc fuel) (suc more) s h k = elim (Round-cases s) [
    | inl (x, e) ↦ (err x, scan_loop-err fuel s x e, scan_loop-err more s x e)
    | inr (inl (t, e)) ↦ (ok t, scan_loop-done fuel s t e, scan_loop-done more s t e)
    | inr (inr (t, e)) ↦
        let further = round-Advances s t e in
        let (r, p, q) = scan_loop_enough fuel more t (omega arith) (omega arith) in
        (r, scan_loop-next fuel s t e ∙ p, scan_loop-next more s t e ∙ q)
  ]

  module _ (id : ℕ) where
    pub scan-err :
        (x : StatusCode)
        → check_header read_at file_size id ≡ err x
        → scan read_at file_size id ≡ some (err x)
    unfolding scan
    scan-err x e = rw (e, scan)

    pub scan-ok :
        (q : Result Scan)
        → check_header read_at file_size id ≡ ok tt
        → scan_loop read_at file_size (suc file_size) start ≡ some q
        → scan read_at file_size id ≡ some (q >>= λ s. ok (finish file_size s))
    unfolding scan scan_records
    scan-ok q e l = rw (e, scan) (rw (l, scan_records))

    scan_result : (r : Result WalScanResult) × (scan read_at file_size id ≡ some r)
    scan_result = elim (Result-cases (check_header read_at file_size id)) [
      | inr (x, e) ↦ (err x, scan-err x e)
      | inl (u, e) ↦
          let (q, l, _) =
            scan_loop_enough (suc file_size) (suc file_size) start (omega arith) (omega arith) in
          (q >>= λ s. ok (finish file_size s), scan-ok q e l)
    ]

    -- The last steps of a scan that succeeds.
    pub scan-finish :
        (r : WalScanResult)
        → scan read_at file_size id ≡ some (ok r)
        → (check_header read_at file_size id ≡ ok tt)
          × (t : Scan) × (scan_loop read_at file_size (suc file_size) start ≡ some (ok t))
          × (r ≡ finish file_size t)
    scan-finish r h = elim (Result-cases (check_header read_at file_size id)) [
      | inr (x, e) ↦ absurd (cc (scan-err x e))
      | inl (u, e) ↦
          let (q, l, _) =
            scan_loop_enough (suc file_size) (suc file_size) start (omega arith) (omega arith) in
          elim (Result-cases q) [
            | inl (t, k) ↦ (e, t, l ∙ ap some k, cc (sym h ∙ scan-ok (ok t) e (l ∙ ap some k)))
            | inr (x, k) ↦ absurd (cc (sym h ∙ scan-ok (err x) e (l ∙ ap some k)))
          ]
    ]

  no_result : (s t : Scan) → scan_loop read_at file_size zero s ≡ some (ok t) → ⊥
  unfolding scan_loop
  no_result s t h = cc

  done_same :
      (fuel : ℕ) (s t u : Scan)
      → round read_at file_size s ≡ ok (done u)
      → scan_loop read_at file_size (suc fuel) s ≡ some (ok t)
      → u ≡ t
  done_same fuel s t u e h = cc (scan_loop-done fuel s u e)

  page_frame_round-done : (s t : Scan) → page_frame_round read_at file_size s ≡ ok (done t) → t ≡ s
  unfolding page_frame_round
  page_frame_round-done s t h = elim (Result-cases (read_at s.offset 4136)) [
    | inl (bytes, e) ↦ ground (arith, e, on_page_frame-not_done s t (PageFrame.decode bytes))
    | inr (x, e) ↦ ground (arith, e)
  ]

  commit_round-done : (s t : Scan) → commit_round read_at file_size s ≡ ok (done t) → t ≡ s
  unfolding commit_round
  commit_round-done s t h = elim (Result-cases (read_at s.offset 32)) [
    | inl (bytes, e) ↦
        ground (arith, e, on_commit-not_done s.is_damaged_tail s t (CommitRecord.decode bytes))
    | inr (x, e) ↦ ground (arith, e)
  ]

  record_round-done :
      (s t : Scan) (kind : ℕ) → record_round read_at file_size s kind ≡ ok (done t) → t ≡ s
  unfolding record_round other_round
  record_round-done s t kind h = ground (arith, page_frame_round-done s t, commit_round-done s t)

  -- The loop is left in the state in which its last round began.
  round-done : (s t : Scan) → round read_at file_size s ≡ ok (done t) → t ≡ s
  unfolding round
  round-done s t h = elim (Result-cases (read_at s.offset 4)) [
    | inl (bytes, e) ↦ elim (Result-cases (read_u32_le bytes 0)) [
      | inl (kind, e') ↦ ground (arith, e, e', record_round-done s t kind)
      | inr (x, e') ↦ ground (arith, e, e')
    ]
    | inr (x, e) ↦ ground (arith, e)
  ]

  -- The rule for an invariant of the rounds.
  module _ {κ} (P : Scan → Type κ)
      (keep : (s t : Scan) → P s → round read_at file_size s ≡ ok (next t) → P t) where
    pub scan_loop_inv :
        (fuel : ℕ) (s t : Scan) → P s → scan_loop read_at file_size fuel s ≡ some (ok t) → P t
    scan_loop_inv zero s t p h = absurd (no_result s t h)
    scan_loop_inv (suc fuel) s t p h = elim (Round-cases s) [
      | inl (x, e) ↦ absurd (cc (scan_loop-err fuel s x e))
      | inr (inl (u, e)) ↦ subst P (sym (round-done s u e) ∙ done_same fuel s t u e h) p
      | inr (inr (u, e)) ↦
          scan_loop_inv fuel u t (keep s u p e) (sym (scan_loop-next fuel s u e) ∙ h)
    ]

-- A scan ends with a result, a value or an error, on every file and for every behaviour of its
-- reads: the loop never runs out of fuel.
pub scan_total :
    (read_at : ℕ → ℕ → Result Bytes) (file_size expected_database_id : ℕ)
    → (r : Result WalScanResult) × (scan read_at file_size expected_database_id ≡ some r)
scan_total = scan_result
