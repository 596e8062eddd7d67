-- ===== src/Buffer/BufferPoolManager/Discarding.antt =====
-- discard_page of src/buffer/BufferPoolManager.cpp and the validity of the pool.
use dan_db.Prelude.{
  ℕ, ◌<◌, ◌≡◌, refl, sym, ap, ◌∙◌, subst, true, false, some, [], ◌∷◌, ◌++◌, arith, ◌==◌,
  if◌then◌else◌, inl, inr, Bool-cases, ==→eq, ==_refl, length, set,
}
use dan_db.Prelude.Map.{Map, lookup, erase, lookup-erase}
use dan_db.Prelude.Sets.{contains, IsOnce-snoc, contains-snoc}
use dan_db.Core.Status.{Result, Result-cases, ◌>>◌}
use dan_db.Storage.Page.{PageId, is_valid, invalid_page_id, new_page}
use dan_db.Buffer.BufferFrame.{BufferFrame, new_frame}
use dan_db.Buffer.BufferFrame
use dan_db.Buffer.LruReplacer.{LruReplacer, mark_non_evictable}
use dan_db.Buffer.LruReplacer.Consistency.{
  IsConsistent, mark_non_evictable-IsConsistent, contains-mark_non_evictable,
  mark_non_evictable_err,
}
use dan_db.Buffer.BufferPoolManager.{
  BufferPool, frame_at, find_frame, discard_page, discard_found, discard_frame, can_discard_page,
}
use dan_db.Buffer.BufferPoolManager.Validity.{IsValid, IsIdle, find_frame-ok, same_page}
use dan_db.Buffer.BufferPoolManager.Frames.{get_or-set, length-set}
use dan_db.Buffer.BufferPoolManager.Pins.{>>-eq-ok}

-- A map without a key: what is found is not that key's.
pub erased :
    {V : Type 0} (k j : ℕ) (v : V) (m : Map V)
    → lookup j (erase k m) ≡ some v
    → ((k == j) ≡ false) × (lookup j m ≡ some v)
erased k j v m h = elim (Bool-cases (k == j)) [
  | inl here ↦ absurd (ground (arith, here, h, lookup-erase k j m))
  | inr other ↦ (other, ground (arith, other, h, lookup-erase k j m))
]

-- A cached page's frame has a valid id, so it is not free.
pub mapped_not_free :
    (p : BufferPool) (id : PageId) (f : ℕ)
    → IsValid p
    → lookup id p.page_frames ≡ some f
    → contains f p.free_frame_ids ≡ false
mapped_not_free p id f v h = elim (Bool-cases (contains f p.free_frame_ids)) [
  | inr e ↦ e
  | inl e ↦
      let (b, named, valid) = v.mapped id f h in
      let bad : id ≡ invalid_page_id = sym named ∙ (v.free f e).1 in
      absurd (ground (arith, bad, valid))
]

module _ (p : BufferPool) (id : PageId) (f : ℕ) (r : LruReplacer) (v : IsValid p)
    (h : lookup id p.page_frames ≡ some f) (order : IsConsistent r)
    (without : (g : ℕ) → contains g r.lru ≡ (if f == g then false else contains g p.lru.lru)) where
  abbrev frame : BufferFrame
  frame = BufferFrame.reset (frame_at p f)

  abbrev after : BufferPool
  after = record {
    free_frame_ids = p.free_frame_ids ++ (f ∷ []);
    frames = set p.frames f frame;
    page_frames = erase id p.page_frames;
    lru = r;
  }

  at_same : frame_at after f ≡ frame
  at_same = get_or-set p.frames f f frame new_frame (v.mapped id f h).0 ∙ rw (==_refl f) refl

  at_other : (g : ℕ) → (f == g) ≡ false → frame_at after g ≡ frame_at p g
  at_other g e = get_or-set p.frames f g frame new_frame (v.mapped id f h).0 ∙ rw e refl

  -- The other pages are in other frames.
  elsewhere :
      (id' : PageId) (g : ℕ)
      → (id == id') ≡ false
      → lookup id' p.page_frames ≡ some g
      → (f == g) ≡ false
  elsewhere id' g other m = elim (Bool-cases (f == g)) [
    | inr e ↦ e
    | inl here ↦
        let same = same_page p id id' f v h (m ∙ ap some (sym (==→eq f g here))) in
        absurd (ground (arith, same, other))
  ]

  discarded_mapped :
      (id' : PageId) (g : ℕ)
      → lookup id' after.page_frames ≡ some g
      → (g < length after.frames) × ((frame_at after g).page.id ≡ id') × (is_valid id' ≡ true)
  discarded_mapped id' g m =
      let (other, m') = erased id id' g p.page_frames m in
      let (bound, named, valid) = v.mapped id' g m' in
      (
        omega (arith, bound, length-set p.frames f frame),
        ap (λ (x : BufferFrame). x.page.id) (at_other g (elsewhere id' g other m')) ∙ named,
        valid,
      )

  discarded_evictable :
      (g : ℕ)
      → contains g r.lru ≡ true
      → IsIdle (frame_at after g) × (lookup (frame_at after g).page.id after.page_frames ≡ some g)
  discarded_evictable g m =
      let other : (f == g) ≡ false = ground (arith, m, without g) in
      let before : contains g p.lru.lru ≡ true = ground (arith, m, without g) in
      let (idle, here) = v.evictable g before in
      let apart : (id == (frame_at p g).page.id) ≡ false =
        elim (Bool-cases (id == (frame_at p g).page.id)) [
          | inr e ↦ e
          | inl e ↦
              let same : some f ≡ some g =
                sym h ∙ ap (λ (k : ℕ). lookup k p.page_frames) (==→eq _ _ e) ∙ here in
              absurd (ground (arith, other, same))
        ] in
      rw (at_other g other)
        (idle, lookup-erase id (frame_at p g).page.id p.page_frames ∙ rw apart here)

  discarded_free :
      (g : ℕ)
      → contains g after.free_frame_ids ≡ true
      → (g < length after.frames) × ((frame_at after g).page.id ≡ invalid_page_id)
  unfolding BufferFrame.reset new_page
  discarded_free g m = elim (Bool-cases (f == g)) [
    | inl here ↦
        let e = ==→eq f g here in
        (
          omega (arith, e, (v.mapped id f h).0, length-set p.frames f frame),
          ap (λ (k : ℕ). (frame_at after k).page.id) (sym e)
              ∙ ap (λ (x : BufferFrame). x.page.id) at_same,
        )
    | inr other ↦
        let (bound, named) =
          v.free g (ground (arith, other, m, contains-snoc g f p.free_frame_ids)) in
        (
          omega (arith, bound, length-set p.frames f frame),
          ap (λ (x : BufferFrame). x.page.id) (at_other g other) ∙ named,
        )
  ]

  pub discarded-IsValid : IsValid after
  discarded-IsValid = record {
    mapped = discarded_mapped;
    evictable = discarded_evictable;
    free = discarded_free;
    free_once = IsOnce-snoc p.free_frame_ids f v.free_once (mapped_not_free p id f v h);
    order = order;
  }

discard_frame-IsValid :
    (p : BufferPool) (id : PageId) (f : ℕ)
    → IsValid p
    → lookup id p.page_frames ≡ some f
    → IsValid (discard_frame p id f (mark_non_evictable p.lru f)).1
unfolding discard_frame
discard_frame-IsValid p id f v h = elim (Result-cases (mark_non_evictable p.lru f).0) [
  | inr (e, m) ↦
      subst (λ (w : Result (Unit {0}) × LruReplacer). IsValid (discard_frame p id f w).1)
        (λ i. (sym m i, sym (mark_non_evictable_err p.lru f e m) i)) v
  | inl (u, m) ↦
      subst (λ (w : Result (Unit {0}) × LruReplacer). IsValid (discard_frame p id f w).1)
        (λ i. (sym m i, (mark_non_evictable p.lru f).1))
        (discarded-IsValid p id f (mark_non_evictable p.lru f).1 v h
          (mark_non_evictable-IsConsistent p.lru f v.order)
          (λ g. contains-mark_non_evictable p.lru f g v.order m))
]

pub discard_page-IsValid :
    (p : BufferPool) (id : PageId) → IsValid p → IsValid (discard_page p id).1
unfolding discard_page discard_found
discard_page-IsValid p id v = elim (Result-cases (can_discard_page p id >> find_frame p id)) [
  | inr (e, h) ↦ rw h v
  | inl (f, h) ↦
      rw h (
        discard_frame-IsValid p id f v
          (find_frame-ok p id f (>>-eq-ok (can_discard_page p id) h)).1)
]
