-- ===== src/Buffer/BufferPoolManager/Pins.antt =====
-- The operations of src/buffer/BufferPoolManager.cpp on a page that is cached, and the validity of the
-- pool.
use dan_db.Prelude.{
  ℕ, ◌-◌, ◌≡◌, refl, sym, ap, ◌∙◌, subst, Bool, true, false, not, ◌&&◌, some, arith, ltb, inl, inr,
  Bool-cases, ==_refl,
}
use dan_db.Prelude.Map.{lookup}
use dan_db.Prelude.Sets.{contains}
use dan_db.Core.Status.{Result, ok, err, Result-cases, ◌>>◌}
use dan_db.Storage.Page.{Page, PageId}
use dan_db.Buffer.BufferFrame.{BufferFrame, new_frame, is_pinned}
use dan_db.Buffer.BufferFrame
use dan_db.Buffer.LruReplacer.{LruReplacer, mark_evictable, mark_non_evictable}
use dan_db.Buffer.LruReplacer.Consistency.{
  mark_evictable-IsConsistent, contains-mark_evictable, mark_non_evictable-IsConsistent,
  contains-mark_non_evictable, mark_non_evictable_err,
}
use dan_db.Buffer.BufferPoolManager.{
  BufferPool, frame_at, set_frame, find_frame, pin_frame, pin_found, pin_page, with_lru,
  unpin_frame, unpin_found, unpin_page, clear_found, clear_dirty, get_found, get_page, pinned_at,
  restore_page, restore_found, restore_cleared, can_restore_page,
}
use dan_db.Buffer.BufferPoolManager.Validity.{IsValid, IsIdle, touched-IsValid, find_frame-ok}

-- Out of the order: the frame may be pinned.
pin_frame-IsValid :
    (p : BufferPool) (id : PageId) (f : ℕ)
    → IsValid p
    → lookup id p.page_frames ≡ some f
    → IsValid (pin_frame p f (mark_non_evictable p.lru f)).1
unfolding pin_frame set_frame BufferFrame.pin
pin_frame-IsValid p id f v h = elim (Result-cases (mark_non_evictable p.lru f).0) [
  | inr (e, m) ↦
      let kept = mark_non_evictable_err p.lru f e m in
      subst (λ (w : Result (Unit {0}) × LruReplacer). IsValid (pin_frame p f w).1)
        (λ i. (sym m i, sym kept i)) v
  | inl (u, m) ↦
      subst (λ (w : Result (Unit {0}) × LruReplacer). IsValid (pin_frame p f w).1)
        (λ i. (sym m i, (mark_non_evictable p.lru f).1))
        (touched-IsValid p id f (BufferFrame.pin (frame_at p f)) (mark_non_evictable p.lru f).1 v h
          (v.mapped id f h).1 (mark_non_evictable-IsConsistent p.lru f v.order)
          (λ g o. contains-mark_non_evictable p.lru f g v.order m ∙ rw o refl)
          (λ marked.
            absurd
              (ground (arith, marked, contains-mark_non_evictable p.lru f f v.order m, ==_refl f))))
]

-- Into the order, when the frame is idle.
marked-IsValid :
    (p : BufferPool) (id : PageId) (f : ℕ) (frame : BufferFrame)
    → IsValid p
    → lookup id p.page_frames ≡ some f
    → frame.page.id ≡ id
    → IsIdle frame
    → IsValid (with_lru (set_frame p f frame) (mark_evictable p.lru f)).1
unfolding with_lru set_frame
marked-IsValid p id f frame v h named idle =
    touched-IsValid p id f frame (mark_evictable p.lru f).1 v h named
      (mark_evictable-IsConsistent p.lru f v.order) (λ g o. contains-mark_evictable p.lru f g o)
      (λ m. idle)

-- The order as it is, when the frame is idle or not in it.
kept-IsValid :
    (p : BufferPool) (id : PageId) (f : ℕ) (frame : BufferFrame)
    → IsValid p
    → lookup id p.page_frames ≡ some f
    → frame.page.id ≡ id
    → (contains f p.lru.lru ≡ true → IsIdle frame)
    → IsValid (set_frame p f frame)
unfolding set_frame
kept-IsValid p id f frame v h named idle =
    touched-IsValid p id f frame p.lru v h named v.order (λ g o. refl) idle

pub pin_page-IsValid : (p : BufferPool) (id : PageId) → IsValid p → IsValid (pin_page p id).1
unfolding pin_page pin_found
pin_page-IsValid p id v = elim (Result-cases (find_frame p id)) [
  | inr (e, h) ↦ rw h v
  | inl (f, h) ↦ rw h (pin_frame-IsValid p id f v (find_frame-ok p id f h).1)
]

same_pool : (f : ℕ) (o : Result (Unit {0}) × BufferPool) → o.1 ≡ (pinned_at f o).1
unfolding pinned_at
same_pool f (ok u, q) = refl
same_pool f (err e, q) = refl

pub get_page-IsValid : (p : BufferPool) (id : PageId) → IsValid p → IsValid (get_page p id).1
unfolding get_page get_found
get_page-IsValid p id v = elim (Result-cases (find_frame p id)) [
  | inr (e, h) ↦ rw h v
  | inl (f, h) ↦ rw h (subst IsValid (same_pool f (pin_page p id)) (pin_page-IsValid p id v))
]

clear_found-IsValid :
    (p : BufferPool) (id : PageId) (f : ℕ)
    → IsValid p
    → lookup id p.page_frames ≡ some f
    → IsValid (clear_found p (ok f)).1
unfolding clear_found set_frame BufferFrame.clear_dirty is_pinned
clear_found-IsValid p id f v h =
    let frame = BufferFrame.clear_dirty (frame_at p f) in
    elim (Bool-cases (is_pinned frame)) [
      | inl pinned ↦ rw pinned (
          kept-IsValid p id f frame v h (v.mapped id f h).1
            (λ m. absurd (ground (arith, pinned, (v.evictable f m).0))))
      | inr free ↦ rw free (marked-IsValid p id f frame v h (v.mapped id f h).1 (free, refl))
    ]

pub clear_dirty-IsValid : (p : BufferPool) (id : PageId) → IsValid p → IsValid (clear_dirty p id).1
unfolding clear_dirty clear_found
clear_dirty-IsValid p id v = elim (Result-cases (find_frame p id)) [
  | inr (e, h) ↦ rw h v
  | inl (f, h) ↦ rw h (clear_found-IsValid p id f v (find_frame-ok p id f h).1)
]

unpinned-IsValid :
    (p : BufferPool) (id : PageId) (f : ℕ) (dirty : Bool)
    → IsValid p
    → lookup id p.page_frames ≡ some f
    → IsValid (unpin_frame p f dirty (BufferFrame.unpin (frame_at p f))).1
unfolding unpin_frame set_frame BufferFrame.unpin BufferFrame.mark_dirty is_pinned
unpinned-IsValid p id f dirty v h = elim (Bool-cases (ltb 0 (frame_at p f).pin_count)) [
  | inr none_left ↦ rw none_left v
  | inl pinned ↦ rw pinned (unpinned (pinned) dirty)
]
  where
    less : BufferFrame
    less = record (frame_at p f) { pin_count = (frame_at p f).pin_count - 1 }

    in_use :
        (frame : BufferFrame)
        → contains f p.lru.lru ≡ true
        → ltb 0 (frame_at p f).pin_count ≡ true
        → IsIdle frame
    in_use frame m pinned = absurd (ground (arith, pinned, (v.evictable f m).0))

    named : (frame_at p f).page.id ≡ id
    named = (v.mapped id f h).1

    unpinned :
        ltb 0 (frame_at p f).pin_count ≡ true
        → (d : Bool) → IsValid (unpin_frame p f d (ok tt, less)).1
    unpinned pinned true =
        let frame = BufferFrame.mark_dirty less in
        elim (Bool-cases (not (is_pinned frame) && not frame.is_dirty)) [
          | inl free ↦ rw free (marked-IsValid p id f frame v h named (ground (arith, free)))
          | inr used ↦ rw used (kept-IsValid p id f frame v h named (λ m. in_use frame m pinned))
        ]
    unpinned pinned false = elim (Bool-cases (not (is_pinned less) && not less.is_dirty)) [
      | inl free ↦ rw free (marked-IsValid p id f less v h named (ground (arith, free)))
      | inr used ↦ rw used (kept-IsValid p id f less v h named (λ m. in_use less m pinned))
    ]

pub unpin_page-IsValid :
    (p : BufferPool) (id : PageId) (dirty : Bool) → IsValid p → IsValid (unpin_page p id dirty).1
unfolding unpin_page unpin_found
unpin_page-IsValid p id dirty v = elim (Result-cases (find_frame p id)) [
  | inr (e, h) ↦ rw h v
  | inl (f, h) ↦ rw h (unpinned-IsValid p id f dirty v (find_frame-ok p id f h).1)
]

pub >>-eq-ok :
    {A : Type 0} {r : Result A} {a : A} (m : Result (Unit {0})) → (m >> r) ≡ ok a → r ≡ ok a
>>-eq-ok (ok u) h = h
>>-eq-ok (err e) h = absurd (cc h)

-- Clearing the dirty mark moves no page.
same_pages : (p : BufferPool) (id : PageId) → (clear_dirty p id).1.page_frames ≡ p.page_frames
unfolding clear_dirty clear_found with_lru set_frame
same_pages p id = elim (Result-cases (find_frame p id)) [
  | inr (e, h) ↦ rw h refl
  | inl (f, h) ↦ rw h (ground arith)
]

restored-IsValid :
    (page : Page) (f : ℕ) (o : Result (Unit {0}) × BufferPool)
    → IsValid o.1
    → lookup page.id o.1.page_frames ≡ some f
    → IsValid (restore_cleared page f o).1
unfolding restore_cleared is_pinned
restored-IsValid page f (err e, q) v h = v
restored-IsValid page f (ok u, q) v h =
    kept-IsValid q page.id f (record (frame_at q f) { page = page }) v h refl
      (λ m. (v.evictable f m).0)

pub restore_page-IsValid :
    (p : BufferPool) (page : Page) → IsValid p → IsValid (restore_page p page).1
unfolding restore_page restore_found
restore_page-IsValid p page v =
    elim (Result-cases (can_restore_page p page >> find_frame p page.id)) [
      | inr (e, h) ↦ rw h v
      | inl (f, h) ↦ rw h (
          restored-IsValid page f (clear_dirty p page.id) (clear_dirty-IsValid p page.id v) (
            ap (lookup page.id) (same_pages p page.id)
            ∙ (find_frame-ok p page.id f (>>-eq-ok (can_restore_page p page) h)).1))
    ]
