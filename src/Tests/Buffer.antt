-- ===== src/Tests/Buffer.antt =====
-- The buffer pool of src/buffer at concrete inputs: a pool of one frame.
use dan_db.Prelude.{refl, [], ◌∷◌}
use dan_db.Prelude.Map.{lookup}
use dan_db.Storage.Page.{Page, new_page}
use dan_db.Buffer.BufferPoolManager.{BufferPool, new_pool, cache_page}
use dan_db.Buffer.BufferPoolManager.Validity.{IsValid, new_pool-IsValid}
use dan_db.Buffer.BufferPoolManager.Requests.{
  cache, run_all, KeepsUsed, Caches, cache_page-keeps, cache_page-Caches, run_all-IsValid,
}

abbrev page_seven : Page
page_seven = new_page 7

abbrev page_eight : Page
page_eight = new_page 8

-- Page 7 was cached, and its pin is still held.
abbrev in_use : BufferPool
in_use = run_all (new_pool 1) (cache page_seven ∷ [])

run_all-IsValid_example : IsValid (run_all (new_pool 1) (cache page_seven ∷ []))
run_all-IsValid_example = run_all-IsValid 1 (cache page_seven ∷ [])

cache_page-keeps_example :
    IsValid (cache_page in_use page_eight).1 × KeepsUsed in_use (cache_page in_use page_eight).1
cache_page-keeps_example =
    cache_page-keeps in_use page_eight (run_all-IsValid 1 (cache page_seven ∷ []))

cache_page-Caches_example : Caches (new_pool 1) page_seven (cache_page (new_pool 1) page_seven)
unfolding new_page new_pool lookup
cache_page-Caches_example = cache_page-Caches (new_pool 1) page_seven (new_pool-IsValid 1) refl refl
