-- ===== src/Wal/Scanner/Collect.antt =====
-- The states of a scan (src/wal/WalScanner.cpp) between transactions and inside one.
use dan_db.Prelude.{
  ℕ, suc, ◌+◌, ◌*◌, ◌^◌, ◌<◌, ◌≡◌, refl, sym, ap, ◌∙◌, true, false, ◌⊎◌, inl, inr, List, [], ◌∷◌,
  ◌++◌, arith, length, length-append,
}
use dan_db.Prelude.Map.{Map, insert}
use dan_db.Core.Status.{ok}
use dan_db.Storage.Page.{Page}
use dan_db.Wal.PageFrame.Layout as FrameLayout
use dan_db.Wal.Scanner.{
  PendingFrame, Scan, next, push_frame, on_page_frame, publish, commit_frames, skip_commit,
  on_intact_commit,
}
use dan_db.Wal.Scanner.Handlers.{
  on_page_frame-idle, on_page_frame-same, on_intact_commit-empty, on_intact_commit-matching,
}
use dan_db.Wal.Scanner.Log.{frame_of, commit_of, IsPage, record_offsets}

-- The state between transactions: all records before `offset` are valid and published.
unfoldable pub settled : Map ℕ → ℕ → Scan
settled m offset = record {
  pending_frames = [];
  pending_transaction_id = 0;
  has_pending_transaction = false;
  latest = m;
  valid_wal_end_offset = offset;
  is_damaged_tail = false;
  offset = offset;
}

-- The state after the frames of the pages.
unfoldable pub collect : ℕ → List Page → Scan → Scan
collect t [] s = s
collect t (p ∷ ps) s = collect t ps (push_frame s t p.id)

-- A state that takes frames of the transaction.
unfoldable pub Accepts : Scan → ℕ → Type 0
Accepts s t =
    (s.is_damaged_tail ≡ false)
    × ((s.has_pending_transaction ≡ false)
        ⊎ ((s.has_pending_transaction ≡ true) × (s.pending_transaction_id ≡ t)))

pub push_frame-offset : (s : Scan) (t id : ℕ) → (push_frame s t id).offset ≡ s.offset + 4136
unfolding push_frame
push_frame-offset s t id = refl

pub push_frame-latest : (s : Scan) (t id : ℕ) → (push_frame s t id).latest ≡ s.latest
unfolding push_frame
push_frame-latest s t id = refl

pub push_frame-valid :
    (s : Scan) (t id : ℕ) → (push_frame s t id).valid_wal_end_offset ≡ s.valid_wal_end_offset
unfolding push_frame
push_frame-valid s t id = refl

pub push_frame-Accepts : (s : Scan) (t id : ℕ) → Accepts s t → Accepts (push_frame s t id) t
unfolding push_frame Accepts
push_frame-Accepts s t id h = (h.0, inr (refl, refl))

pub on_page_frame-Accepts :
    (s : Scan) (t : ℕ) (p : Page)
    → Accepts s t
    → on_page_frame s (ok (frame_of t p)) ≡ ok (next (push_frame s t p.id))
unfolding Accepts
on_page_frame-Accepts s t p (d, inl idle) = on_page_frame-idle s (frame_of t p) idle
on_page_frame-Accepts s t p (d, inr (busy, same)) =
    on_page_frame-same s (frame_of t p) busy same
    ∙ ap (λ (x : ℕ). ok (next (push_frame s x p.id))) same

pub frame_of-FitsWords :
    (t : ℕ) (p : Page) → t < 2 ^ 64 → IsPage p → FrameLayout.FitsWords (frame_of t p)
frame_of-FitsWords t p h v = record {
  transaction_id = h;
  page_id = v.id;
  image_size = v.size;
  image_bytes = v.bytes;
}

-- What collecting frames leaves alone, and what it adds.
record Collected (t : ℕ) (ps : List Page) (s u : Scan) : Type 0 where
  latest : u.latest ≡ s.latest
  valid : u.valid_wal_end_offset ≡ s.valid_wal_end_offset
  undamaged : u.is_damaged_tail ≡ s.is_damaged_tail
  offset : u.offset ≡ s.offset + 4136 * length ps
  count : length u.pending_frames ≡ length s.pending_frames + length ps
  published :
      (m : Map ℕ)
      → publish u.pending_frames m ≡ record_offsets s.offset ps (publish s.pending_frames m)

publish-snoc :
    (fs : List PendingFrame) (f : PendingFrame) (m : Map ℕ)
    → publish (fs ++ (f ∷ [])) m ≡ insert f.page_id f.offset (publish fs m)
unfolding publish
publish-snoc [] f m = refl
publish-snoc (g ∷ fs) f m = publish-snoc fs f (insert g.page_id g.offset m)

collect-Collected : (t : ℕ) (ps : List Page) (s : Scan) → Collected t ps s (collect t ps s)
unfolding collect record_offsets push_frame
collect-Collected t [] s = record {
  latest = refl;
  valid = refl;
  undamaged = refl;
  offset = omega arith;
  count = omega arith;
  published = λ m. refl;
}
collect-Collected t (p ∷ ps) s =
    let new : PendingFrame = record { offset = s.offset; page_id = p.id } in
    let rest = collect-Collected t ps (push_frame s t p.id) in
    record {
      latest = rest.latest;
      valid = rest.valid;
      undamaged = rest.undamaged;
      offset = omega (arith, rest.offset);
      count = omega (arith, rest.count, length-append s.pending_frames (new ∷ []));
      published = λ m.
          rest.published m
          ∙ ap (record_offsets (s.offset + 4136) ps) (publish-snoc s.pending_frames new m);
    }

push_frame-busy :
    (s : Scan) (t id : ℕ)
    → ((push_frame s t id).has_pending_transaction ≡ true)
      × ((push_frame s t id).pending_transaction_id ≡ t)
unfolding push_frame
push_frame-busy s t id = (refl, refl)

collect-busy :
    (t : ℕ) (ps : List Page) (s : Scan)
    → (s.has_pending_transaction ≡ true) × (s.pending_transaction_id ≡ t)
    → ((collect t ps s).has_pending_transaction ≡ true)
      × ((collect t ps s).pending_transaction_id ≡ t)
unfolding collect
collect-busy t [] s h = h
collect-busy t (p ∷ ps) s h = collect-busy t ps (push_frame s t p.id) (push_frame-busy s t p.id)

skip_settled : (m : Map ℕ) (offset : ℕ) → skip_commit (settled m offset) ≡ settled m (offset + 32)
unfolding skip_commit settled
skip_settled m offset = refl

-- Collecting from a settled state.
module _ (m : Map ℕ) (offset : ℕ) where
  pub settled_offset : {n : ℕ} → n ≡ offset → n ≡ (settled m offset).offset
  unfolding settled
  settled_offset e = e

  module _ (t : ℕ) (ps : List Page) where
    abbrev collected : Scan
    collected = collect t ps (settled m offset)

    pub collect_offset : collected.offset ≡ offset + 4136 * length ps
    unfolding settled
    collect_offset = (collect-Collected t ps (settled m offset)).offset

    pub collect_undamaged : collected.is_damaged_tail ≡ false
    unfolding settled
    collect_undamaged = (collect-Collected t ps (settled m offset)).undamaged

    collect_count : length collected.pending_frames ≡ length ps
    unfolding settled
    collect_count = omega (arith, (collect-Collected t ps (settled m offset)).count)

    collect_published :
        publish collected.pending_frames collected.latest ≡ record_offsets offset ps m
    unfolding settled publish
    collect_published =
        let c = collect-Collected t ps (settled m offset) in
        ap (publish collected.pending_frames) c.latest ∙ c.published m

  commit_settled :
      (u : Scan) (m' : Map ℕ) (end : ℕ)
      → publish u.pending_frames u.latest ≡ m'
      → u.offset + 32 ≡ end
      → u.is_damaged_tail ≡ false
      → commit_frames u ≡ settled m' end
  unfolding commit_frames settled
  commit_settled u m' end p o d = λ i. record {
    pending_frames = [];
    pending_transaction_id = 0;
    has_pending_transaction = false;
    latest = p i;
    valid_wal_end_offset = o i;
    is_damaged_tail = d i;
    offset = o i;
  }

  -- The commit record of the collected frames settles the state again.
  pub commit_collected :
      (t : ℕ) (ps : List Page)
      → on_intact_commit (collect t ps (settled m offset)) (commit_of t (length ps))
        ≡ ok (next (settled (record_offsets offset ps m) (offset + (4136 * length ps + 32))))
  unfolding collect record_offsets
  commit_collected t [] =
      on_intact_commit-empty (settled m offset) (commit_of t 0) (unfold settled in refl) refl
      ∙ ap (λ x. ok (next x)) (skip_settled m offset ∙ ap (settled m) (omega arith))
  commit_collected t (p ∷ ps) =
      let u = collect t (p ∷ ps) (settled m offset) in
      let (busy, same) =
        collect-busy t ps (push_frame (settled m offset) t p.id)
          (push_frame-busy (settled m offset) t p.id) in
      on_intact_commit-matching u (commit_of t (suc (length ps))) busy (sym same)
        (sym (collect_count t (p ∷ ps)))
      ∙ ap (λ x. ok (next x))
          (commit_settled u _ _ (collect_published t (p ∷ ps))
            (omega (arith, collect_offset t (p ∷ ps))) (collect_undamaged t (p ∷ ps)))

pub settled-Accepts : (m : Map ℕ) (offset t : ℕ) → Accepts (settled m offset) t
unfolding settled Accepts
settled-Accepts m offset t = (refl, inl refl)
