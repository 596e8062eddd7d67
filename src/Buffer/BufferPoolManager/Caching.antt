-- ===== src/Buffer/BufferPoolManager/Caching.antt =====
-- The pool of src/buffer/BufferPoolManager.cpp after cache_page has put a page into a frame.
use dan_db.Prelude.{
  ℕ, ◌<◌, ◌≡◌, refl, sym, ap, ◌∙◌, true, false, ◌||◌, none, some, arith, ◌==◌, ◌⊎◌, inl, inr,
  Bool-cases, ==→eq, ==_refl, length, set,
}
use dan_db.Prelude.Map.{Map, lookup, insert, erase, lookup-insert, lookup-erase}
use dan_db.Prelude.Sets.{contains}
use dan_db.Storage.Page.{Page, PageId, is_valid, invalid_page_id}
use dan_db.Buffer.BufferFrame.{BufferFrame, new_frame, is_pinned}
use dan_db.Buffer.BufferFrame
use dan_db.Buffer.BufferPoolManager.{BufferPool, frame_at, filled_frame}
use dan_db.Buffer.BufferPoolManager.Validity.{IsValid, IsIdle}
use dan_db.Buffer.BufferPoolManager.Frames.{get_or-set, length-set}
use dan_db.Buffer.BufferPoolManager.Taking.{IsReady}

-- What is found in the map of cached pages after the new page took the frame.
pub moved :
    {V : Type 0} (k old j : ℕ) (v w : V) (m : Map V)
    → lookup j (insert k v (erase old m)) ≡ some w
    → (((k == j) ≡ true) × (v ≡ w))
      ⊎ (((k == j) ≡ false) × ((old == j) ≡ false) × (lookup j m ≡ some w))
moved k old j v w m h = elim (Bool-cases (k == j)) [
  | inl here ↦ inl (here, ground (arith, here, h, lookup-insert k j v (erase old m)))
  | inr other ↦ elim (Bool-cases (old == j)) [
    | inl gone ↦
        absurd
          (ground (arith, other, gone, h, lookup-insert k j v (erase old m), lookup-erase old j m))
    | inr kept ↦ inr (
      other,
      kept,
      ground (arith, other, kept, h, lookup-insert k j v (erase old m), lookup-erase old j m),
    )
  ]
]

module _ (q : BufferPool) (page : Page) (f : ℕ) (ready : IsReady q f)
    (valid : is_valid page.id ≡ true) (fresh : lookup page.id q.page_frames ≡ none) where
  abbrev old : PageId
  old = (frame_at q f).page.id

  abbrev frame : BufferFrame
  frame = filled_frame (frame_at q f) page

  abbrev pub placed : BufferPool
  placed = record q {
    frames = set q.frames f frame;
    page_frames = insert page.id f (erase old q.page_frames);
  }

  at_same : frame_at placed f ≡ frame
  at_same = get_or-set q.frames f f frame new_frame ready.bound ∙ rw (==_refl f) refl

  at_other : (g : ℕ) → (f == g) ≡ false → frame_at placed g ≡ frame_at q g
  at_other g e = get_or-set q.frames f g frame new_frame ready.bound ∙ rw e refl

  -- A page that is not the evicted one is in another frame.
  elsewhere :
      (id : PageId) (g : ℕ)
      → (old == id) ≡ false
      → lookup id q.page_frames ≡ some g
      → (f == g) ≡ false
  elsewhere id g kept m = elim (Bool-cases (f == g)) [
    | inr e ↦ e
    | inl here ↦
        let same : old ≡ id =
          ap (λ (k : ℕ). (frame_at q k).page.id) (==→eq f g here) ∙ (ready.valid.mapped id g m).1 in
        absurd (ground (arith, same, kept))
  ]

  placed_mapped :
      (id : PageId) (g : ℕ)
      → lookup id placed.page_frames ≡ some g
      → (g < length placed.frames) × ((frame_at placed g).page.id ≡ id) × (is_valid id ≡ true)
  unfolding filled_frame BufferFrame.pin
  placed_mapped id g m = elim (moved page.id old id f g q.page_frames m) [
    | inl (here, same) ↦
        let e = ==→eq page.id id here in
        (
          omega (arith, same, ready.bound, length-set q.frames f frame),
          ap (λ (k : ℕ). (frame_at placed k).page.id) (sym same)
              ∙ ap (λ (x : BufferFrame). x.page.id) at_same
              ∙ e,
          ap is_valid (sym e) ∙ valid,
        )
    | inr (other, kept, m') ↦
        let (bound, named, good) = ready.valid.mapped id g m' in
        (
          omega (arith, bound, length-set q.frames f frame),
          ap (λ (x : BufferFrame). x.page.id) (at_other g (elsewhere id g kept m')) ∙ named,
          good,
        )
  ]

  -- The evicted page's id is not that of a frame in the order.
  evicted_apart :
      (g : ℕ)
      → (f == g) ≡ false
      → lookup (frame_at q g).page.id q.page_frames ≡ some g
      → (old == (frame_at q g).page.id) ≡ false
  evicted_apart g other here = elim (Bool-cases (old == (frame_at q g).page.id)) [
    | inr e ↦ e
    | inl e ↦
        let same = ==→eq old (frame_at q g).page.id e in
        elim ready.spare [
          | inl bad ↦
              absurd
                (ground (arith, same, bad, (ready.valid.mapped (frame_at q g).page.id g here).2))
          | inr (idle, mine) ↦
              let both : some f ≡ some g =
                sym mine ∙ ap (λ (k : ℕ). lookup k q.page_frames) same ∙ here in
              absurd (ground (arith, other, both))
        ]
  ]

  -- A page that stays is found where it was.
  stays :
      (id : PageId) (g : ℕ)
      → lookup id q.page_frames ≡ some g
      → (old == id) ≡ false
      → lookup id placed.page_frames ≡ some g
  stays id g m kept =
      let new : (page.id == id) ≡ false = elim (Bool-cases (page.id == id)) [
        | inr e ↦ e
        | inl e ↦
            absurd (ground (arith, fresh, m, ap (λ (k : ℕ). lookup k q.page_frames) (==→eq _ _ e)))
      ] in
      lookup-insert page.id id f (erase old q.page_frames)
      ∙ rw new (lookup-erase old id q.page_frames ∙ rw kept m)

  placed_evictable :
      (g : ℕ)
      → contains g q.lru.lru ≡ true
      → IsIdle (frame_at placed g)
        × (lookup (frame_at placed g).page.id placed.page_frames ≡ some g)
  placed_evictable g m =
      let other : (f == g) ≡ false = elim (Bool-cases (f == g)) [
        | inr e ↦ e
        | inl e ↦ absurd (
            ground
              (arith, m, ready.not_evictable, ap (λ (k : ℕ). contains k q.lru.lru) (==→eq f g e)))
      ] in
      let (idle, here) = ready.valid.evictable g m in
      rw (at_other g other) (idle, stays (frame_at q g).page.id g here (evicted_apart g other here))

  placed_free :
      (g : ℕ)
      → contains g q.free_frame_ids ≡ true
      → (g < length placed.frames) × ((frame_at placed g).page.id ≡ invalid_page_id)
  placed_free g m =
      let other : (f == g) ≡ false = elim (Bool-cases (f == g)) [
        | inr e ↦ e
        | inl e ↦ absurd (
            ground
              (arith, m, ready.not_free, ap (λ (k : ℕ). contains k q.free_frame_ids) (==→eq f g e)))
      ] in
      let (bound, named) = ready.valid.free g m in
      (
        omega (arith, bound, length-set q.frames f frame),
        ap (λ (x : BufferFrame). x.page.id) (at_other g other) ∙ named,
      )

  pub placed-IsValid : IsValid placed
  placed-IsValid = record {
    mapped = placed_mapped;
    evictable = placed_evictable;
    free = placed_free;
    free_once = ready.valid.free_once;
    order = ready.valid.order;
  }

  -- The page in a frame that is pinned or dirty was not evicted.
  pub placed_keeps :
      (id : PageId) (g : ℕ)
      → lookup id q.page_frames ≡ some g
      → (is_pinned (frame_at q g) || (frame_at q g).is_dirty) ≡ true
      → (lookup id placed.page_frames ≡ some g) × (frame_at placed g ≡ frame_at q g)
  placed_keeps id g m used =
      let kept : (old == id) ≡ false = elim (Bool-cases (old == id)) [
        | inr e ↦ e
        | inl e ↦
            let same = ==→eq old id e in
            elim ready.spare [
              | inl bad ↦ absurd (ground (arith, same, bad, (ready.valid.mapped id g m).2))
              | inr (idle, mine) ↦
                  let both : some g ≡ some f =
                    sym m ∙ ap (λ (k : ℕ). lookup k q.page_frames) (sym same) ∙ mine in
                  absurd (ground (arith, idle, used, both))
            ]
      ] in
      (stays id g m kept, at_other g (elsewhere id g kept m))

  pub placed_found : (lookup page.id placed.page_frames ≡ some f) × (frame_at placed f ≡ frame)
  placed_found = (
    lookup-insert page.id page.id f (erase old q.page_frames) ∙ rw (==_refl page.id) refl,
    at_same,
  )
