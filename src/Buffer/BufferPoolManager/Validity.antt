-- ===== src/Buffer/BufferPoolManager/Validity.antt =====
-- What ties the cached pages, the frames and the order of src/buffer/BufferPoolManager.cpp together.
use dan_db.Prelude.{
  ℕ, ◌<◌, ◌≡◌, refl, sym, ap, ◌∙◌, true, false, some, arith, ◌==◌, inl, inr, Bool-cases,
  Option-cases, ==→eq, length, set, ltb→lt, length-replicate,
}
use dan_db.Prelude.Map.{lookup}
use dan_db.Prelude.Sets.{contains, IsOnce}
use dan_db.Core.Status.{ok}
use dan_db.Storage.Page.{PageId, is_valid, invalid_page_id, new_page}
use dan_db.Buffer.BufferFrame.{BufferFrame, new_frame, is_pinned}
use dan_db.Buffer.LruReplacer.{LruReplacer, new_replacer}
use dan_db.Buffer.LruReplacer.Consistency.{IsConsistent, new_replacer-IsConsistent}
use dan_db.Buffer.BufferPoolManager.{BufferPool, frame_at, new_pool, find_frame}
use dan_db.Buffer.BufferPoolManager.Frames.{
  get_or-set, get_or-replicate, length-set, contains-iota, iota-IsOnce,
}

-- Neither pinned nor dirty.
abbrev pub IsIdle : BufferFrame → Type 0
IsIdle frame = (is_pinned frame ≡ false) × (frame.is_dirty ≡ false)

pub record IsValid (p : BufferPool) : Type 0 where
  pub mapped :
      (id : PageId) (f : ℕ)
      → lookup id p.page_frames ≡ some f
      → (f < length p.frames) × ((frame_at p f).page.id ≡ id) × (is_valid id ≡ true)
  pub evictable :
      (f : ℕ)
      → contains f p.lru.lru ≡ true
      → IsIdle (frame_at p f) × (lookup (frame_at p f).page.id p.page_frames ≡ some f)
  pub free :
      (f : ℕ)
      → contains f p.free_frame_ids ≡ true
      → (f < length p.frames) × ((frame_at p f).page.id ≡ invalid_page_id)
  pub free_once : IsOnce p.free_frame_ids
  pub order : IsConsistent p.lru

pub new_pool-IsValid : (capacity : ℕ) → IsValid (new_pool capacity)
unfolding new_pool lookup contains new_replacer new_frame new_page
new_pool-IsValid capacity = record {
  mapped = λ id f h. absurd (cc h);
  evictable = λ f h. absurd (cc h);
  free = λ f h. (
    omega (
      arith,
      ltb→lt f capacity (sym (contains-iota capacity f) ∙ h),
      length-replicate capacity new_frame,
    ),
    ap (λ (x : BufferFrame). x.page.id) (get_or-replicate capacity f new_frame),
  );
  free_once = iota-IsOnce capacity;
  order = new_replacer-IsConsistent capacity;
}

-- Different frames hold different cached pages.
pub same_page :
    (p : BufferPool) (id id' : PageId) (f : ℕ)
    → IsValid p
    → lookup id p.page_frames ≡ some f
    → lookup id' p.page_frames ≡ some f
    → id ≡ id'
same_page p id id' f v h h' = sym (v.mapped id f h).1 ∙ (v.mapped id' f h').1

module _ (p : BufferPool) (id : PageId) (f : ℕ) (frame : BufferFrame) (r : LruReplacer)
    (v : IsValid p) (h : lookup id p.page_frames ≡ some f) (named : frame.page.id ≡ id)
    (order : IsConsistent r)
    (others : (g : ℕ) → (f == g) ≡ false → contains g r.lru ≡ contains g p.lru.lru)
    (idle : contains f r.lru ≡ true → IsIdle frame) where
  abbrev after : BufferPool
  after = record p { frames = set p.frames f frame; lru = r }

  at_same : (g : ℕ) → (f == g) ≡ true → frame_at after g ≡ frame
  at_same g e = get_or-set p.frames f g frame new_frame (v.mapped id f h).0 ∙ rw e refl

  at_other : (g : ℕ) → (f == g) ≡ false → frame_at after g ≡ frame_at p g
  at_other g e = get_or-set p.frames f g frame new_frame (v.mapped id f h).0 ∙ rw e refl

  touched_mapped :
      (id' : PageId) (g : ℕ)
      → lookup id' p.page_frames ≡ some g
      → (g < length after.frames) × ((frame_at after g).page.id ≡ id') × (is_valid id' ≡ true)
  touched_mapped id' g m =
      let (bound, name, valid) = v.mapped id' g m in
      (
        omega (arith, bound, length-set p.frames f frame),
        elim (Bool-cases (f == g)) [
          | inl here ↦
              ap (λ (x : BufferFrame). x.page.id) (at_same g here)
              ∙ named
              ∙ same_page p id id' f v h (m ∙ ap some (sym (==→eq f g here)))
          | inr other ↦ ap (λ (x : BufferFrame). x.page.id) (at_other g other) ∙ name
        ],
        valid,
      )

  touched_evictable :
      (g : ℕ)
      → contains g r.lru ≡ true
      → IsIdle (frame_at after g) × (lookup (frame_at after g).page.id p.page_frames ≡ some g)
  touched_evictable g m = elim (Bool-cases (f == g)) [
    | inl here ↦
        let e = ==→eq f g here in
        rw (at_same g here)
          (idle (ap (λ (n : ℕ). contains n r.lru) e ∙ m), rw named (h ∙ ap some e))
    | inr other ↦ rw (at_other g other) (v.evictable g (sym (others g other) ∙ m))
  ]

  touched_free :
      (g : ℕ)
      → contains g p.free_frame_ids ≡ true
      → (g < length after.frames) × ((frame_at after g).page.id ≡ invalid_page_id)
  touched_free g m =
      let (bound, name) = v.free g m in
      (
        omega (arith, bound, length-set p.frames f frame),
        elim (Bool-cases (f == g)) [
          | inl here ↦
              let e : g ≡ f = sym (==→eq f g here) in
              let (b, n, valid) = v.mapped id f h in
              let bad : id ≡ invalid_page_id =
                sym n ∙ ap (λ (k : ℕ). (frame_at p k).page.id) (sym e) ∙ name in
              absurd (ground (arith, bad, valid))
          | inr other ↦ ap (λ (x : BufferFrame). x.page.id) (at_other g other) ∙ name
        ],
      )

  -- Changing the pins, the dirty mark or the bytes of one cached page's frame.
  pub touched-IsValid : IsValid after
  touched-IsValid = record {
    mapped = touched_mapped;
    evictable = touched_evictable;
    free = touched_free;
    free_once = v.free_once;
    order = order;
  }

-- A page that is found is cached under a valid id.
pub find_frame-ok :
    (p : BufferPool) (id : PageId) (f : ℕ)
    → find_frame p id ≡ ok f
    → (is_valid id ≡ true) × (lookup id p.page_frames ≡ some f)
unfolding find_frame
find_frame-ok p id f h = elim (Bool-cases (is_valid id)) [
  | inl valid ↦ elim (Option-cases (lookup id p.page_frames)) [
    | inl e ↦ absurd (ground (arith, valid, e, h))
    | inr (g, e) ↦ ground (arith, valid, e, h)
  ]
  | inr bad ↦ absurd (ground (arith, bad, h))
]
