-- ===== src/Buffer/BufferPoolManager/Taking.antt =====
-- The frame that cache_page of src/buffer/BufferPoolManager.cpp takes for a new page.
use dan_db.Prelude.{
  ℕ, ◌<◌, ◌≡◌, refl, ap, ◌∙◌, subst, true, false, none, some, List, [], ◌∷◌, ◌++◌, arith, ◌==◌,
  if◌then◌else◌, ◌⊎◌, inl, inr, Bool-cases, length,
}
use dan_db.Prelude.Map.{lookup}
use dan_db.Prelude.Sets.{contains, IsOnce, pop_back, pop_back-cases, contains-snoc, snoc-IsOnce}
use dan_db.Core.Status.{ok, err, StatusCode}
use dan_db.Storage.Page.{invalid_page_id}
use dan_db.Buffer.LruReplacer.{LruReplacer}
use dan_db.Buffer.LruReplacer.Consistency.{victim-cases, Took}
use dan_db.Buffer.BufferPoolManager.{BufferPool, frame_at, take_frame, take_frame_from}
use dan_db.Buffer.BufferPoolManager.Validity.{IsValid, IsIdle}
use dan_db.Buffer.BufferPoolManager.Discarding.{mapped_not_free}

-- A frame that nothing waits for: it is in no list, and its page is none or idle.
pub record IsReady (p : BufferPool) (f : ℕ) : Type 0 where
  pub valid : IsValid p
  pub bound : f < length p.frames
  pub not_free : contains f p.free_frame_ids ≡ false
  pub not_evictable : contains f p.lru.lru ≡ false
  pub spare :
      ((frame_at p f).page.id ≡ invalid_page_id)
      ⊎ (IsIdle (frame_at p f) × (lookup (frame_at p f).page.id p.page_frames ≡ some f))

-- What taking a frame may do.
pub record Taken (p : BufferPool) (f : ℕ) (q : BufferPool) : Type 0 where
  pub returned : take_frame p ≡ (ok f, q)
  pub ready : IsReady q f
  pub same_frames : q.frames ≡ p.frames
  pub same_pages : q.page_frames ≡ p.page_frames

free_not_evictable :
    (p : BufferPool) (f : ℕ)
    → IsValid p
    → contains f p.free_frame_ids ≡ true
    → contains f p.lru.lru ≡ false
free_not_evictable p f v h = elim (Bool-cases (contains f p.lru.lru)) [
  | inr e ↦ e
  | inl e ↦
      absurd (ground (arith, h, mapped_not_free p (frame_at p f).page.id f v (v.evictable f e).1))
]

take_free :
    (p : BufferPool) (rest : List ℕ) (f : ℕ)
    → IsValid p
    → p.free_frame_ids ≡ rest ++ (f ∷ [])
    → IsReady (record p { free_frame_ids = rest }) f
take_free p rest f v e =
    let (once, absent) = snoc-IsOnce rest f (subst IsOnce e v.free_once) in
    let inside : (g : ℕ)
        → contains g p.free_frame_ids ≡ (if f == g then true else contains g rest) =
      λ g. ap (contains g) e ∙ contains-snoc g f rest in
    let here : contains f p.free_frame_ids ≡ true = ground (arith, inside f) in
    record {
      valid = record {
        mapped = v.mapped;
        evictable = v.evictable;
        free = λ g m. v.free g (ground (arith, inside g, m));
        free_once = once;
        order = v.order;
      };
      bound = (v.free f here).0;
      not_free = absent;
      not_evictable = free_not_evictable p f v here;
      spare = inl (v.free f here).1;
    }

take_victim :
    (p : BufferPool) (f : ℕ) (r : LruReplacer)
    → IsValid p
    → Took p.lru f r
    → IsReady (record p { lru = r }) f
take_victim p f r v t =
    let (idle, here) = v.evictable f t.taken in
    record {
      valid = record {
        mapped = v.mapped;
        evictable = λ g m. v.evictable g (ground (arith, t.left g, m));
        free = v.free;
        free_once = v.free_once;
        order = t.consistent;
      };
      bound = (v.mapped (frame_at p f).page.id f here).0;
      not_free = mapped_not_free p (frame_at p f).page.id f v here;
      not_evictable = ground (arith, t.left f);
      spare = inr (idle, here);
    }

-- It fails, and nothing has changed, exactly when no frame is free and none is evictable.
pub take_frame-cases :
    (p : BufferPool)
    → IsValid p
    → ((p.free_frame_ids ≡ [])
        × (p.lru.lru ≡ [])
        × ((e : StatusCode) × (take_frame p ≡ (err e, p))))
      ⊎ ((f : ℕ) × (q : BufferPool) × Taken p f q)
unfolding take_frame take_frame_from pop_back
take_frame-cases p v = elim (pop_back-cases p.free_frame_ids) [
  | inr (rest, f, e, popped) ↦ inr (
    f,
    record p { free_frame_ids = rest },
    record {
      returned = ap (take_frame_from p) popped;
      ready = take_free p rest f v e;
      same_frames = refl;
      same_pages = refl;
    },
  )
  | inl none_free ↦
      let asked : take_frame p ≡ take_frame_from p none =
        ap (λ (xs : List ℕ). take_frame_from p (pop_back xs)) none_free in
      elim (victim-cases p.lru v.order) [
        | inl (none_marked, (e, failed)) ↦ inl (
          none_free,
          none_marked,
          (e, asked ∙ λ i. ((failed i).0, record p { lru = (failed i).1 })),
        )
        | inr (f, r, t) ↦ inr (
          f,
          record p { lru = r },
          record {
            returned = asked ∙ λ i. ((t.returned i).0, record p { lru = (t.returned i).1 });
            ready = take_victim p f r v t;
            same_frames = refl;
            same_pages = refl;
          },
        )
      ]
]
