-- ===== src/Wal/Scanner/Soundness.antt =====
-- What a scan (src/wal/WalScanner.cpp) reports of any file, intact or not.
use native.Mathlib.Decide.{ℕ_discrete}
use native.Mathlib.Nat.{le_refl}
use dan_db.Prelude.{
  ℕ, suc, ◌+◌, ◌≤◌, ◌<◌, ◌≡◌, refl, sym, ap, subst, ◌∙◌, Bool, true, false, ◌↔◌, inl, inr, some,
  List, [], ◌∷◌, ◌++◌, arith, length, slice, All, Bool-cases,
}
use dan_db.Prelude.Map.{Map, lookup, insert, lookup-insert}
use dan_db.Core.Status.{Result, ok, err}
use dan_db.Core.Bytes.{Bytes}
use dan_db.Wal.PageFrame
use dan_db.Wal.PageFrame.{WalPageFrame}
use dan_db.Wal.CommitRecord
use dan_db.Wal.CommitRecord.{WalCommitRecord}
use dan_db.Wal.Scanner.{
  PendingFrame, WalScanResult, Scan, next, start, damage, push_frame, on_page_frame, publish,
  commit_frames, skip_commit, on_commit, round, scan_loop, check_header, finish, scan,
}
use dan_db.Wal.Scanner.Handlers.{
  next-injective, on_page_frame-idle, on_page_frame-same, on_page_frame-mixed,
  on_intact_commit-next, page_frame_round-next, commit_round-next, round-next,
}
use dan_db.Wal.Scanner.Rounds.{round-Advances, scan_loop_inv, scan-finish}

module _ (content : Bytes) where
  -- An intact frame of the page and of the transaction, ending at `limit` or before.
  pub record FrameAt (limit transaction_id page_id offset : ℕ) : Type 0 where
    pub frame : WalPageFrame
    pub intact : PageFrame.decode (slice offset 4136 content) ≡ ok frame
    pub of_page : frame.page_id ≡ page_id
    pub of_transaction : frame.transaction_id ≡ transaction_id
    pub ends : offset + 4136 ≤ limit

  -- Such a frame, with an intact commit record of its transaction between it and `limit`.
  pub record CommittedAt (limit page_id offset : ℕ) : Type 0 where
    pub commit : WalCommitRecord
    pub commit_offset : ℕ
    pub intact : CommitRecord.decode (slice commit_offset 32 content) ≡ ok commit
    pub ends : commit_offset + 32 ≤ limit
    pub page_frame : FrameAt commit_offset commit.transaction_id page_id offset

  pub record IsSound (s : Scan) : Type 0 where
    pub low : 64 ≤ s.valid_wal_end_offset
    pub ordered : s.valid_wal_end_offset ≤ s.offset
    pub idle : s.has_pending_transaction ≡ false → s.pending_frames ≡ []
    pub pending :
        All (λ f. FrameAt s.offset s.pending_transaction_id f.page_id f.offset) s.pending_frames
    pub latest :
        (page_id offset : ℕ)
        → lookup page_id s.latest ≡ some offset
        → CommittedAt s.valid_wal_end_offset page_id offset

  FrameAt-mono :
      (limit limit' t p o : ℕ) → limit ≤ limit' → FrameAt limit t p o → FrameAt limit' t p o
  FrameAt-mono limit limit' t p o h f = record {
    frame = f.frame;
    intact = f.intact;
    of_page = f.of_page;
    of_transaction = f.of_transaction;
    ends = omega (arith, f.ends);
  }

  CommittedAt-mono :
      (limit limit' p o : ℕ) → limit ≤ limit' → CommittedAt limit p o → CommittedAt limit' p o
  CommittedAt-mono limit limit' p o h c = record {
    commit = c.commit;
    commit_offset = c.commit_offset;
    intact = c.intact;
    ends = omega (arith, c.ends);
    page_frame = c.page_frame;
  }

  abbrev Pending : ℕ → ℕ → List PendingFrame → Type 0
  Pending limit t fs = All (λ f. FrameAt limit t f.page_id f.offset) fs

  Pending-mono :
      (limit limit' t : ℕ) (fs : List PendingFrame)
      → limit ≤ limit'
      → Pending limit t fs
      → Pending limit' t fs
  Pending-mono limit limit' t [] h a = tt
  Pending-mono limit limit' t (f ∷ fs) h a =
      (FrameAt-mono limit limit' t f.page_id f.offset h a.0, Pending-mono limit limit' t fs h a.1)

  Pending-snoc :
      (limit t : ℕ) (fs : List PendingFrame) (f : PendingFrame)
      → Pending limit t fs
      → FrameAt limit t f.page_id f.offset
      → Pending limit t (fs ++ (f ∷ []))
  Pending-snoc limit t [] f a p = (p, tt)
  Pending-snoc limit t (g ∷ fs) f a p = (a.0, Pending-snoc limit t fs f a.1 p)

  damage-IsSound : (s : Scan) (size : ℕ) → IsSound s → IsSound (damage s size)
  unfolding damage
  damage-IsSound s size v = record {
    low = v.low;
    ordered = omega (arith, v.ordered);
    idle = λ _. refl;
    pending = tt;
    latest = v.latest;
  }

  push_frame-IsSound :
      (s : Scan) (frame : WalPageFrame) (t : ℕ)
      → IsSound s
      → PageFrame.decode (slice s.offset 4136 content) ≡ ok frame
      → frame.transaction_id ≡ t
      → All (λ f. FrameAt s.offset t f.page_id f.offset) s.pending_frames
      → IsSound (push_frame s t frame.page_id)
  unfolding push_frame
  push_frame-IsSound s frame t v e same a = record {
    low = v.low;
    ordered = omega (arith, v.ordered);
    idle = λ h. absurd (cc h);
    pending =
        Pending-snoc _ t s.pending_frames _
          (Pending-mono s.offset _ t s.pending_frames (omega arith) a)
          (record {
            frame = frame;
            intact = e;
            of_page = refl;
            of_transaction = same;
            ends = omega arith;
          });
    latest = v.latest;
  }

  on_page_frame-IsSound :
      (s t : Scan) (r : Result WalPageFrame)
      → PageFrame.decode (slice s.offset 4136 content) ≡ r
      → IsSound s
      → on_page_frame s r ≡ ok (next t)
      → IsSound t
  unfolding on_page_frame
  on_page_frame-IsSound s t (err x) e v h =
      subst IsSound (next-injective h) (damage-IsSound s 4136 v)
  on_page_frame-IsSound s t (ok f) e v h = elim (Bool-cases s.has_pending_transaction) [
    | inl busy ↦ elim (ℕ_discrete s.pending_transaction_id f.transaction_id) [
      | yes same ↦
          subst IsSound (next-injective (sym (on_page_frame-same s f busy same) ∙ h))
            (push_frame-IsSound s f s.pending_transaction_id v e (sym same) v.pending)
      | no mixed ↦ absurd (cc (on_page_frame-mixed s f busy mixed))
    ]
    | inr idle ↦
        subst IsSound (next-injective (sym (on_page_frame-idle s f idle) ∙ h))
          (push_frame-IsSound s f f.transaction_id v e refl (rw (v.idle idle) tt))
  ]

  -- A property of the pairs of page and offset that were there and that are added holds of all.
  publish-closed :
      (Q : ℕ → ℕ → Type 0) (frames : List PendingFrame) (m : Map ℕ)
      → All (λ f. Q f.page_id f.offset) frames
      → ((p o : ℕ) → lookup p m ≡ some o → Q p o)
      → (p o : ℕ) → lookup p (publish frames m) ≡ some o
      → Q p o
  unfolding publish
  publish-closed Q [] m a h p o e = h p o e
  publish-closed Q (f ∷ frames) m a h p o e =
      publish-closed Q frames (insert f.page_id f.offset m) a.1 added p o e
    where
      added : (q r : ℕ) → lookup q (insert f.page_id f.offset m) ≡ some r → Q q r
      added q r l = elim (ℕ_discrete f.page_id q) [
        | yes same ↦
            let here : some f.offset ≡ some r =
              ground (arith, l, lookup-insert f.page_id q f.offset m) in
            let o_eq : f.offset ≡ r = ground (arith, here) in
            subst (λ (x : ℕ). Q x r) same (subst (λ (y : ℕ). Q f.page_id y) o_eq a.0)
        | no other ↦ h q r (ground (arith, l, lookup-insert f.page_id q f.offset m))
      ]

  commit_frames-IsSound :
      (s : Scan) (commit : WalCommitRecord)
      → IsSound s
      → CommitRecord.decode (slice s.offset 32 content) ≡ ok commit
      → commit.transaction_id ≡ s.pending_transaction_id
      → IsSound (commit_frames s)
  unfolding commit_frames
  commit_frames-IsSound s commit v e same = record {
    low = omega (arith, v.low, v.ordered);
    ordered = omega arith;
    idle = λ _. refl;
    pending = tt;
    latest =
        publish-closed (CommittedAt (s.offset + 32)) s.pending_frames s.latest
          (all_committed s.pending_frames v.pending)
          (λ p o l.
            CommittedAt-mono s.valid_wal_end_offset (s.offset + 32) p o (omega (arith, v.ordered))
              (v.latest p o l));
  }
    where
      all_committed :
          (fs : List PendingFrame)
          → Pending s.offset s.pending_transaction_id fs
          → All (λ f. CommittedAt (s.offset + 32) f.page_id f.offset) fs
      all_committed [] a = tt
      all_committed (f ∷ fs) a = (
        record {
          commit = commit;
          commit_offset = s.offset;
          intact = e;
          ends = le_refl _;
          page_frame = subst (λ (x : ℕ). FrameAt s.offset x f.page_id f.offset) (sym same) a.0;
        },
        all_committed fs a.1,
      )

  skip_commit-IsSound : (s : Scan) → IsSound s → IsSound (skip_commit s)
  unfolding skip_commit
  skip_commit-IsSound s v = record {
    low = omega (arith, v.low, v.ordered);
    ordered = omega arith;
    idle = v.idle;
    pending =
        Pending-mono s.offset _ s.pending_transaction_id s.pending_frames (omega arith) v.pending;
    latest = λ p o l.
        CommittedAt-mono s.valid_wal_end_offset (s.offset + 32) p o (omega (arith, v.ordered))
          (v.latest p o l);
  }

  skip_bytes-IsSound : (s : Scan) (n : ℕ) → IsSound s → IsSound (record s { offset = s.offset + n })
  skip_bytes-IsSound s n v = record {
    low = v.low;
    ordered = omega (arith, v.ordered);
    idle = v.idle;
    pending =
        Pending-mono s.offset _ s.pending_transaction_id s.pending_frames (omega arith) v.pending;
    latest = v.latest;
  }

  on_commit-IsSound :
      (b : Bool) (s t : Scan) (r : Result WalCommitRecord)
      → CommitRecord.decode (slice s.offset 32 content) ≡ r
      → IsSound s
      → on_commit b s r ≡ ok (next t)
      → IsSound t
  unfolding on_commit
  on_commit-IsSound true s t (ok c) e v h = absurd (cc h)
  on_commit-IsSound true s t (err x) e v h =
      subst IsSound (next-injective h) (skip_bytes-IsSound s 32 v)
  on_commit-IsSound false s t (err x) e v h =
      subst IsSound (next-injective h) (damage-IsSound s 32 v)
  on_commit-IsSound false s t (ok c) e v h = elim (on_intact_commit-next s c t h) [
    | inl skipped ↦ subst IsSound skipped (skip_commit-IsSound s v)
    | inr (same, _, closed) ↦ subst IsSound closed (commit_frames-IsSound s c v e same)
  ]

  -- What a read returns is what stands in the file.
  module _ (read_at : ℕ → ℕ → Result Bytes)
      (reads : (offset n : ℕ) (bytes : Bytes)
        → read_at offset n ≡ ok bytes
        → bytes ≡ slice offset n content) where
    abbrev file_size : ℕ
    file_size = length content

    round-IsSound : (s t : Scan) → IsSound s → round read_at file_size s ≡ ok (next t) → IsSound t
    round-IsSound s t v h = elim (round-next read_at file_size s t h) [
      | inl frame ↦ elim (page_frame_round-next read_at file_size s t frame) [
        | inl skipped ↦ subst IsSound skipped (skip_bytes-IsSound s 4136 v)
        | inr (bytes, e, g) ↦
            on_page_frame-IsSound s t (PageFrame.decode bytes)
              (ap PageFrame.decode (sym (reads s.offset 4136 bytes e))) v g
      ]
      | inr commit ↦
          let (bytes, e, g) = commit_round-next read_at file_size s t commit in
          on_commit-IsSound s.is_damaged_tail s t (CommitRecord.decode bytes)
            (ap CommitRecord.decode (sym (reads s.offset 32 bytes e))) v g
    ]

    start-IsSound : IsSound start
    unfolding lookup
    start-IsSound = record {
      low = le_refl _;
      ordered = le_refl _;
      idle = λ _. refl;
      pending = tt;
      latest = λ p o l. absurd (cc l);
    }

    abbrev InFile : Scan → Type 0
    InFile s = IsSound s × (s.offset ≤ file_size)

    check_header-size :
        (id : ℕ) {u : Unit {0}} → check_header read_at file_size id ≡ ok u → 64 ≤ file_size
    unfolding check_header
    check_header-size id h = ground arith

    loop-InFile :
        (fuel : ℕ) (t : Scan)
        → 64 ≤ file_size
        → scan_loop read_at file_size fuel start ≡ some (ok t)
        → InFile t
    loop-InFile fuel t big h =
        scan_loop_inv read_at file_size InFile
          (λ s u v r. (round-IsSound s u v.0 r, (round-Advances read_at file_size s u r).1)) fuel
          start t (start-IsSound, big) h

-- Whatever the file holds, over reads that return the bytes of the file when they succeed, a scan that
-- succeeds reports as valid a part of the file that takes in the
-- header, and each offset that it reports for a page is that of an intact frame of this page, inside
-- that part, with an intact commit record of the same transaction between the frame and its end;
-- and bytes are ignored exactly when the valid part ends before the file.
pub scan_sound :
    (content : Bytes) (read_at : ℕ → ℕ → Result Bytes) (id : ℕ) (r : WalScanResult)
    → ((offset n : ℕ) (bytes : Bytes)
        → read_at offset n ≡ ok bytes
        → bytes ≡ slice offset n content)
    → scan read_at (length content) id ≡ some (ok r)
    → (64 ≤ r.valid_wal_end_offset)
      × (r.valid_wal_end_offset ≤ length content)
      × ((page_id offset : ℕ)
          → lookup page_id r.latest_committed_frame_offsets ≡ some offset
          → CommittedAt content r.valid_wal_end_offset page_id offset)
      × ((r.ignored_trailing_bytes ≡ true) ↔ (r.valid_wal_end_offset < length content))
unfolding finish
scan_sound content read_at id r reads h =
    let (e, t, l, f) = scan-finish read_at (length content) id r h in
    let (v, inside) =
      loop-InFile content read_at reads (suc (length content)) t
        (check_header-size content read_at reads id e) l in
    rw f (
      v.low,
      omega (arith, v.ordered),
      v.latest,
      ((λ i. ground (arith, v.ordered, inside)), (λ i. ground (arith, v.ordered, inside))),
    )
