-- ===== src/Buffer/BufferPoolManager/Requests.antt =====
-- A pool of src/buffer/BufferPoolManager.cpp through any sequence of requests.
use dan_db.Prelude.{
  ℕ, ◌≡◌, refl, sym, ap, ◌∙◌, subst, true, false, ◌||◌, none, some, List, [], ◌∷◌, ◌⊎◌, inl, inr,
  Bool-cases, Option-cases,
}
use dan_db.Prelude.Map.{lookup}
use dan_db.Core.Status.{Result, ok, err, StatusCode}
use dan_db.Storage.Page.{Page, PageId, is_valid, new_page}
use dan_db.Buffer.BufferFrame.{BufferFrame, is_pinned}
use dan_db.Buffer.BufferFrame
use dan_db.Buffer.BufferPoolManager.{
  BufferPool, PagePin, new_pin, new_pool, frame_at, filled_frame, place, cache_page, get_page,
  clear_dirty, discard_page, restore_page, release,
}
use dan_db.Buffer.BufferPoolManager.Validity.{IsValid, new_pool-IsValid}
use dan_db.Buffer.BufferPoolManager.Pins.{
  get_page-IsValid, unpin_page-IsValid, clear_dirty-IsValid, restore_page-IsValid,
}
use dan_db.Buffer.BufferPoolManager.Discarding.{discard_page-IsValid}
use dan_db.Buffer.BufferPoolManager.Taking.{Taken, take_frame-cases}
use dan_db.Buffer.BufferPoolManager.Caching.{placed-IsValid, placed_keeps, placed_found}

-- Pinned or dirty.
abbrev pub IsUsed : BufferFrame → Type 0
IsUsed frame = (is_pinned frame || frame.is_dirty) ≡ true

-- Every page in use in `p` is in the same frame of `q`, which has not changed.
abbrev pub KeepsUsed : BufferPool → BufferPool → Type 0
KeepsUsed p q =
    (id : PageId) (g : ℕ)
    → lookup id p.page_frames ≡ some g
    → IsUsed (frame_at p g)
    → (lookup id q.page_frames ≡ some g) × (frame_at q g ≡ frame_at p g)

-- The page is cached, clean, with one pin, in the frame that the pin points at.
pub record Stored (page : Page) (o : Result PagePin × BufferPool) : Type 0 where
  pub frame_id : ℕ
  pub returned : o.0 ≡ ok (new_pin frame_id)
  pub cached : lookup page.id o.1.page_frames ≡ some frame_id
  pub held : frame_at o.1 frame_id ≡ record { page = page; pin_count = 1; is_dirty = false }

-- No frame is free, and none may be reused.
abbrev pub IsFull : BufferPool → Type 0
IsFull p = (p.free_frame_ids ≡ []) × (p.lru.lru ≡ [])

pub record Caches (p : BufferPool) (page : Page) (o : Result PagePin × BufferPool) : Type 0 where
  pub valid : IsValid o.1
  pub keeps : KeepsUsed p o.1
  pub outcome : (IsFull p × ((e : StatusCode) × (o ≡ (err e, p)))) ⊎ Stored page o

stored :
    (p q : BufferPool) (page : Page) (f : ℕ)
    → IsValid p
    → Taken p f q
    → is_valid page.id ≡ true
    → lookup page.id p.page_frames ≡ none
    → Caches p page (place page (ok f, q))
unfolding place filled_frame BufferFrame.reset BufferFrame.pin new_page
stored p q page f v t valid fresh =
    let fresh' = ap (lookup page.id) t.same_pages ∙ fresh in
    let (cached, held) = placed_found q page f t.ready valid fresh' in
    record {
      valid = placed-IsValid q page f t.ready valid fresh';
      keeps = λ id g m used.
          let same : frame_at q g ≡ frame_at p g =
            ap (λ (frames : List BufferFrame). frame_at (record q { frames = frames }) g)
              t.same_frames in
          let (m', h) =
            placed_keeps q page f t.ready valid fresh' id g (ap (lookup id) t.same_pages ∙ m)
              (subst IsUsed (sym same) used) in
          (m', h ∙ same);
      outcome = inr (record { frame_id = f; returned = refl; cached = cached; held = held });
    }

-- Caching a page of a valid id that is not cached, in a valid pool: the pool stays valid, every page
-- that is pinned or dirty stays in its frame, unchanged, and either the page is now cached, clean, with
-- one pin, in the frame that the returned pin points at, or the call failed and changed nothing, with no
-- frame free and none evictable.
pub cache_page-Caches :
    (p : BufferPool) (page : Page)
    → IsValid p
    → is_valid page.id ≡ true
    → lookup page.id p.page_frames ≡ none
    → Caches p page (cache_page p page)
unfolding cache_page place
cache_page-Caches p page v valid fresh =
    rw (valid, fresh)
      (elim (take_frame-cases p v) [
        | inl (none_free, none_marked, (e, failed)) ↦ rw failed (record {
          valid = v;
          keeps = λ id g m used. (m, refl);
          outcome = inl ((none_free, none_marked), (e, refl));
        })
        | inr (f, q, t) ↦ rw t.returned (stored p q page f v t valid fresh)
      ])

-- The guards of cache_page.
cache_page_refused :
    (p : BufferPool) (page : Page)
    → (is_valid page.id ≡ false) ⊎ ((f : ℕ) × (lookup page.id p.page_frames ≡ some f))
    → (cache_page p page).1 ≡ p
unfolding cache_page
cache_page_refused p page (inl bad) = rw bad refl
cache_page_refused p page (inr (f, m)) = elim (Bool-cases (is_valid page.id)) [
  | inl valid ↦ rw (valid, m) refl
  | inr bad ↦ rw bad refl
]

-- Caching any page in a valid pool, whatever the call returns: the pool stays valid, and every page
-- that is pinned or dirty stays cached in its frame, with its bytes, pins and dirty mark.
pub cache_page-keeps :
    (p : BufferPool) (page : Page)
    → IsValid p
    → IsValid (cache_page p page).1 × KeepsUsed p (cache_page p page).1
cache_page-keeps p page v = elim (Bool-cases (is_valid page.id)) [
  | inr bad ↦ unchanged (cache_page_refused p page (inl bad))
  | inl valid ↦ elim (Option-cases (lookup page.id p.page_frames)) [
    | inr (f, m) ↦ unchanged (cache_page_refused p page (inr (f, m)))
    | inl fresh ↦ let c = cache_page-Caches p page v valid fresh in (c.valid, c.keeps)
  ]
]
  where
    unchanged : {q : BufferPool} → q ≡ p → IsValid q × KeepsUsed p q
    unchanged e = subst (λ q. IsValid q × KeepsUsed p q) (sym e) (v, λ id g m used. (m, refl))

-- What a client asks of a pool.
pub data Request : Type 0 where
  get : PageId → Request
  release_pin : PagePin → Request
  cache : Page → Request
  clean : PageId → Request
  discard : PageId → Request
  restore : Page → Request

unfoldable pub run : BufferPool → Request → BufferPool
run p (get id) = (get_page p id).1
run p (release_pin page_pin) = (release p page_pin).0
run p (cache page) = (cache_page p page).1
run p (clean id) = (clear_dirty p id).1
run p (discard id) = (discard_page p id).1
run p (restore page) = (restore_page p page).1

unfoldable pub run_all : BufferPool → List Request → BufferPool
unfolding run
run_all p [] = p
run_all p (request ∷ requests) = run_all (run p request) requests

release-IsValid : (p : BufferPool) (page_pin : PagePin) → IsValid p → IsValid (release p page_pin).0
unfolding release
release-IsValid p page_pin v = elim (Bool-cases page_pin.owns_pin) [
  | inl owns ↦
      rw owns (unpin_page-IsValid p (frame_at p page_pin.frame_id).page.id page_pin.is_dirty v)
  | inr gone ↦ rw gone v
]

run-IsValid : (p : BufferPool) (request : Request) → IsValid p → IsValid (run p request)
unfolding run
run-IsValid p (get id) v = get_page-IsValid p id v
run-IsValid p (release_pin page_pin) v = release-IsValid p page_pin v
run-IsValid p (cache page) v = (cache_page-keeps p page v).0
run-IsValid p (clean id) v = clear_dirty-IsValid p id v
run-IsValid p (discard id) v = discard_page-IsValid p id v
run-IsValid p (restore page) v = restore_page-IsValid p page v

run_all_from : (p : BufferPool) (requests : List Request) → IsValid p → IsValid (run_all p requests)
unfolding run_all
run_all_from p [] v = v
run_all_from p (request ∷ requests) v =
    run_all_from (run p request) requests (run-IsValid p request v)

-- After any sequence of get, release, cache, clean, discard and restore requests, successful or not, on
-- a new pool of any capacity: each cached page is in a frame that holds it; the frames that may be
-- evicted are unpinned, clean and cached; a free frame holds no page; no frame is listed twice.
pub run_all-IsValid :
    (capacity : ℕ) (requests : List Request) → IsValid (run_all (new_pool capacity) requests)
run_all-IsValid capacity requests =
    run_all_from (new_pool capacity) requests (new_pool-IsValid capacity)
