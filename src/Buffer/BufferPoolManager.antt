-- ===== src/Buffer/BufferPoolManager.antt =====
-- src/buffer/BufferPoolManager.cpp and include/dandb/buffer/BufferPoolManager.h: the cached pages
-- and the frames that hold them. A `PagePin` points at the page in a frame, so it is the frame's
-- number here (src/buffer/PagePin.cpp). `page_id == INVALID_PAGE_ID` is `not (is_valid page_id)`.
pub mod Frames
pub mod Validity
pub mod Pins
pub mod Discarding
pub mod Taking
pub mod Caching
pub mod Requests
use dan_db.Prelude.{
  ℕ, zero, suc, ◌+◌, ◌-◌, Bool, true, false, not, ◌&&◌, Option, none, some, List, [], ◌∷◌, ◌++◌,
  if◌then◌else◌, length, get_or, set, replicate,
}
use dan_db.Prelude.Map.{Map, lookup, insert, erase}
use dan_db.Prelude.Sets.{pop_back}
use dan_db.Core.Status.{
  Result, ok, err, StatusCode, invalid_argument, not_found, already_exists, internal_error, ◌>>◌,
}
use dan_db.Storage.Page.{Page, PageId, is_valid}
use dan_db.Buffer.BufferFrame.{BufferFrame, new_frame, is_pinned}
use dan_db.Buffer.BufferFrame
use dan_db.Buffer.LruReplacer.{
  LruReplacer, new_replacer, victim, mark_evictable, mark_non_evictable,
}

pub record BufferPool : Type 0 where
  pub free_frame_ids : List ℕ
  pub frames : List BufferFrame
  pub page_frames : Map ℕ
  pub lru : LruReplacer

pub record PagePin : Type 0 where
  pub frame_id : ℕ
  pub is_dirty : Bool
  pub owns_pin : Bool

abbrev pub Outcome : Type 0
Outcome = Result (Unit {0}) × BufferPool

-- 0, 1, ..., n - 1
unfoldable pub iota : ℕ → List ℕ
iota zero = []
iota (suc n) = iota n ++ (n ∷ [])

unfoldable pub new_pool : ℕ → BufferPool
unfolding iota new_replacer
new_pool capacity = record {
  free_frame_ids = iota capacity;
  frames = replicate capacity new_frame;
  page_frames = [];
  lru = new_replacer capacity;
}

-- frames_[frame_id]
abbrev pub frame_at : BufferPool → ℕ → BufferFrame
frame_at p frame_id = get_or p.frames frame_id new_frame

unfoldable pub set_frame : BufferPool → ℕ → BufferFrame → BufferPool
set_frame p frame_id frame = record p { frames = set p.frames frame_id frame }

-- The two guards that open an operation: the id is valid, and the page is cached.
unfoldable pub find_frame : BufferPool → PageId → Result ℕ
find_frame p page_id =
    if not (is_valid page_id)
    then err invalid_argument
    else elim (lookup page_id p.page_frames) [ none ↦ err not_found | some frame_id ↦ ok frame_id ]

unfoldable pub pin_frame : BufferPool → ℕ → Result (Unit {0}) × LruReplacer → Outcome
unfolding set_frame
pin_frame p frame_id (err e, lru) = (err e, record p { lru = lru })
pin_frame p frame_id (ok u, lru) =
    (ok tt, set_frame (record p { lru = lru }) frame_id (BufferFrame.pin (frame_at p frame_id)))

unfoldable pub pin_found : BufferPool → Result ℕ → Outcome
unfolding pin_frame
pin_found p (err e) = (err e, p)
pin_found p (ok frame_id) = pin_frame p frame_id (mark_non_evictable p.lru frame_id)

unfoldable pub pin_page : BufferPool → PageId → Outcome
unfolding find_frame pin_found
pin_page p page_id = pin_found p (find_frame p page_id)

unfoldable pub with_lru : BufferPool → Result (Unit {0}) × LruReplacer → Outcome
with_lru p (r, lru) = (r, record p { lru = lru })

unfoldable pub unpin_frame : BufferPool → ℕ → Bool → Result (Unit {0}) × BufferFrame → Outcome
unfolding set_frame with_lru
unpin_frame p frame_id is_dirty (err e, frame) = (err e, p)
unpin_frame p frame_id is_dirty (ok u, frame) =
    let frame' = if is_dirty then BufferFrame.mark_dirty frame else frame in
    let p' = set_frame p frame_id frame' in
    if not (is_pinned frame') && not frame'.is_dirty
    then with_lru p' (mark_evictable p'.lru frame_id)
    else (ok tt, p')

unfoldable pub unpin_found : BufferPool → Bool → Result ℕ → Outcome
unfolding unpin_frame
unpin_found p is_dirty (err e) = (err e, p)
unpin_found p is_dirty (ok frame_id) =
    unpin_frame p frame_id is_dirty (BufferFrame.unpin (frame_at p frame_id))

unfoldable pub unpin_page : BufferPool → PageId → Bool → Outcome
unfolding find_frame unpin_found
unpin_page p page_id is_dirty = unpin_found p is_dirty (find_frame p page_id)

unfoldable pub new_pin : ℕ → PagePin
new_pin frame_id = record { frame_id = frame_id; is_dirty = false; owns_pin = true }

unfoldable pub pinned_at : ℕ → Outcome → Result PagePin × BufferPool
unfolding new_pin
pinned_at frame_id (err e, p) = (err e, p)
pinned_at frame_id (ok u, p) = (ok (new_pin frame_id), p)

unfoldable pub get_found : BufferPool → PageId → Result ℕ → Result PagePin × BufferPool
unfolding pinned_at pin_page
get_found p page_id (err e) = (err e, p)
get_found p page_id (ok frame_id) = pinned_at frame_id (pin_page p page_id)

unfoldable pub get_page : BufferPool → PageId → Result PagePin × BufferPool
unfolding find_frame get_found
get_page p page_id = get_found p page_id (find_frame p page_id)

-- A free frame, or else the one that was marked evictable first.
unfoldable pub take_frame_from : BufferPool → Option (List ℕ × ℕ) → Result ℕ × BufferPool
take_frame_from p (some (rest, frame_id)) = (ok frame_id, record p { free_frame_ids = rest })
take_frame_from p none = let (r, lru) = victim p.lru in (r, record p { lru = lru })

unfoldable pub take_frame : BufferPool → Result ℕ × BufferPool
unfolding take_frame_from
take_frame p = take_frame_from p (pop_back p.free_frame_ids)

-- `buffer_frame.reset(); buffer_page = page; buffer_frame.pin();`
unfoldable pub filled_frame : BufferFrame → Page → BufferFrame
filled_frame frame page = BufferFrame.pin (record (BufferFrame.reset frame) { page = page })

unfoldable pub place : Page → Result ℕ × BufferPool → Result PagePin × BufferPool
unfolding filled_frame new_pin
place page (err e, p) = (err e, p)
place page (ok frame_id, p) =
    let old = frame_at p frame_id in
    (
      ok (new_pin frame_id),
      record p {
        frames = set p.frames frame_id (filled_frame old page);
        page_frames = insert page.id frame_id (erase old.page.id p.page_frames);
      },
    )

unfoldable pub cache_page : BufferPool → Page → Result PagePin × BufferPool
unfolding take_frame place
cache_page p page =
    if not (is_valid page.id)
    then (err invalid_argument, p)
    else elim (lookup page.id p.page_frames) [
      | some frame_id ↦ (err already_exists, p)
      | none ↦ place page (take_frame p)
    ]

unfoldable pub clear_found : BufferPool → Result ℕ → Outcome
unfolding set_frame with_lru
clear_found p (err e) = (err e, p)
clear_found p (ok frame_id) =
    let p' = set_frame p frame_id (BufferFrame.clear_dirty (frame_at p frame_id)) in
    if not (is_pinned (BufferFrame.clear_dirty (frame_at p frame_id)))
    then with_lru p' (mark_evictable p'.lru frame_id)
    else (ok tt, p')

unfoldable pub clear_dirty : BufferPool → PageId → Outcome
unfolding find_frame clear_found
clear_dirty p page_id = clear_found p (find_frame p page_id)

-- The last guard of can_discard_page and can_restore_page.
unfoldable pub idle_frame : BufferPool → Result ℕ → Result (Unit {0})
idle_frame p (err e) = err e
idle_frame p (ok frame_id) = if is_pinned (frame_at p frame_id) then err internal_error else ok tt

unfoldable pub can_discard_page : BufferPool → PageId → Result (Unit {0})
unfolding idle_frame find_frame
can_discard_page p page_id = idle_frame p (find_frame p page_id)

unfoldable pub discard_frame : BufferPool → PageId → ℕ → Result (Unit {0}) × LruReplacer → Outcome
discard_frame p page_id frame_id (err e, lru) = (err e, record p { lru = lru })
discard_frame p page_id frame_id (ok u, lru) = (
  ok tt,
  record {
    free_frame_ids = p.free_frame_ids ++ (frame_id ∷ []);
    frames = set p.frames frame_id (BufferFrame.reset (frame_at p frame_id));
    page_frames = erase page_id p.page_frames;
    lru = lru;
  },
)

unfoldable pub discard_found : BufferPool → PageId → Result ℕ → Outcome
unfolding discard_frame
discard_found p page_id (err e) = (err e, p)
discard_found p page_id (ok frame_id) =
    discard_frame p page_id frame_id (mark_non_evictable p.lru frame_id)

unfoldable pub discard_page : BufferPool → PageId → Outcome
unfolding can_discard_page discard_found find_frame
discard_page p page_id =
    discard_found p page_id (can_discard_page p page_id >> find_frame p page_id)

unfoldable pub can_restore_page : BufferPool → Page → Result (Unit {0})
unfolding idle_frame find_frame
can_restore_page p page = idle_frame p (find_frame p page.id)

unfoldable pub restore_cleared : Page → ℕ → Outcome → Outcome
unfolding set_frame
restore_cleared page frame_id (err e, p) = (err e, p)
restore_cleared page frame_id (ok u, p) =
    (ok tt, set_frame p frame_id (record (frame_at p frame_id) { page = page }))

unfoldable pub restore_found : BufferPool → Page → Result ℕ → Outcome
unfolding restore_cleared clear_dirty
restore_found p page (err e) = (err e, p)
restore_found p page (ok frame_id) = restore_cleared page frame_id (clear_dirty p page.id)

unfoldable pub restore_page : BufferPool → Page → Outcome
unfolding can_restore_page restore_found find_frame
restore_page p page = restore_found p page (can_restore_page p page >> find_frame p page.id)

unfoldable pub is_unpinned : BufferPool → PageId → Result Bool
unfolding find_frame
is_unpinned p page_id = elim (find_frame p page_id) [
  | err e ↦ err e
  | ok frame_id ↦ ok (not (is_pinned (frame_at p frame_id)))
]

-- PagePin::release, which the destructor calls.
unfoldable pub release : BufferPool → PagePin → BufferPool × PagePin
unfolding unpin_page
release p page_pin =
    if page_pin.owns_pin
    then (
      (unpin_page p (frame_at p page_pin.frame_id).page.id page_pin.is_dirty).1,
      record page_pin { owns_pin = false },
    )
    else (p, page_pin)
