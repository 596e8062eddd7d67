-- ===== src/Storage/Page.antt =====
-- include/dandb/storage/PageId.h, Page.h and src/storage/Page.cpp.
use dan_db.Prelude.{ℕ, ◌-◌, ◌^◌, Bool, not, ◌==◌, replicate}
use dan_db.Core.Bytes.{Bytes, page_size}

-- The 64-bit number of a page.
abbrev pub PageId : Type 0
PageId = ℕ

abbrev pub invalid_page_id : PageId
invalid_page_id = 2 ^ 64 - 1

abbrev pub header_page_id : PageId
header_page_id = 0

abbrev pub first_allocatable_page_id : PageId
first_allocatable_page_id = 1

abbrev pub is_valid : PageId → Bool
is_valid id = not (id == invalid_page_id)

pub record Page : Type 0 where
  pub id : PageId
  pub contents : Bytes

-- Page(PageId id = INVALID_PAGE_ID): all bytes are zero.
unfoldable pub new_page : PageId → Page
new_page id = record { id = id; contents = replicate page_size 0 }

unfoldable pub set_id : Page → PageId → Page
set_id page new_id = record page { id = new_id }
