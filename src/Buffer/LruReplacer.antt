-- ===== src/Buffer/LruReplacer.antt =====
-- src/buffer/LRUReplacer.cpp and include/dandb/buffer/LRUReplacer.h: the frames that may be reused.
-- An iterator in `frame_positions_` points at the one node of `lru_` that holds its key, so the map
-- is the list of its keys.
pub mod Consistency
use dan_db.Prelude.{ℕ, Bool, Option, none, some, List, [], ◌∷◌, leb, if◌then◌else◌, length}
use dan_db.Prelude.Sets.{contains, remove, pop_back}
use dan_db.Core.Status.{Result, ok, err, invalid_argument, not_found}

pub record LruReplacer : Type 0 where
  -- The most recently marked frame stands first.
  pub lru : List ℕ
  pub frame_positions : List ℕ
  pub capacity : ℕ

unfoldable pub new_replacer : ℕ → LruReplacer
new_replacer capacity = record { lru = []; frame_positions = []; capacity = capacity }

unfoldable pub victim_from : LruReplacer → Option (List ℕ × ℕ) → Result ℕ × LruReplacer
victim_from r none = (err not_found, r)
victim_from r (some (rest, frame_id)) =
    (ok frame_id, record r { lru = rest; frame_positions = remove frame_id r.frame_positions })

unfoldable pub victim : LruReplacer → Result ℕ × LruReplacer
unfolding victim_from
victim r = victim_from r (pop_back r.lru)

unfoldable pub mark_evictable : LruReplacer → ℕ → Result (Unit {0}) × LruReplacer
mark_evictable r frame_id =
    if leb r.capacity frame_id
    then (err invalid_argument, r)
    else if contains frame_id r.frame_positions
    then (ok tt, r)
    else (
      ok tt,
      record r { lru = frame_id ∷ r.lru; frame_positions = frame_id ∷ r.frame_positions },
    )

unfoldable pub mark_non_evictable : LruReplacer → ℕ → Result (Unit {0}) × LruReplacer
mark_non_evictable r frame_id =
    if leb r.capacity frame_id
    then (err invalid_argument, r)
    else if contains frame_id r.frame_positions
    then (
      ok tt,
      record r { lru = remove frame_id r.lru; frame_positions = remove frame_id r.frame_positions },
    )
    else (ok tt, r)

abbrev pub size : LruReplacer → ℕ
size r = length r.lru
