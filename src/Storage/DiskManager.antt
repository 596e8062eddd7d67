-- ===== src/Storage/DiskManager.antt =====
-- src/storage/DiskManager.cpp: the file of the pages. A manager is its open file. Opening by a path is
-- the caller's: create_new and open_existing start from the file that is open.
pub mod Pages
pub mod Checkpointing
use dan_db.Prelude.{
  ℕ, ◌-◌, ◌*◌, ◌/◌, ◌%◌, ◌^◌, Bool, true, false, not, ◌||◌, ltb, ◌==◌, if◌then◌else◌, replicate,
}
use dan_db.Core.Status.{
  Result, ok, err, StatusCode, invalid_argument, corruption, internal_error, ◌>>=◌, ◌>>◌, require,
}
use dan_db.Core.Bytes.{Bytes, page_size}
use dan_db.Platform.File.{FileOps}
use dan_db.Storage.Page.{Page, PageId, is_valid, header_page_id}
use dan_db.Storage.DatabaseHeader
use dan_db.Storage.DatabaseHeader.{DatabaseHeader, initial_database_page_count}

-- std::numeric_limits<std::uint64_t>::max()/core::PAGE_SIZE
abbrev pub max_page_count : ℕ
max_page_count = (2 ^ 64 - 1) / page_size

-- The guards of read_page and write_page before the file is asked for its size.
unfoldable pub check_page_id : PageId → Result (Unit {0})
check_page_id id = do
  require (is_valid id) invalid_argument
  require (not (id == header_page_id)) invalid_argument
  require (not (ltb max_page_count id)) invalid_argument

module _ {Disk : Type 0} (ops : FileOps Disk) where
  unfoldable pub read_header : Disk → Result DatabaseHeader
  read_header d = do header_page ← ops.read_at d 0 page_size; DatabaseHeader.decode header_page

  unfoldable pub write_encoded : Disk → Result Bytes → Result (Unit {0}) × Disk
  write_encoded d (err e) = (err e, d)
  write_encoded d (ok header_page) = ops.write_at d 0 header_page

  unfoldable pub write_header : Disk → DatabaseHeader → Result (Unit {0}) × Disk
  unfolding write_encoded
  write_header d h = write_encoded d (DatabaseHeader.encode_into h (replicate page_size 0))

  -- The guard that the page lies in the file.
  unfoldable pub check_inside : Disk → ℕ → Result (Unit {0})
  check_inside d offset = do
    file_size ← ops.size d
    require (not (ltb file_size page_size || ltb (file_size - page_size) offset)) invalid_argument

  unfoldable pub read_page : Disk → PageId → Result Page
  unfolding check_page_id check_inside
  read_page d id = do
    check_page_id id
    check_inside d (id * page_size)
    bytes ← ops.read_at d (id * page_size) page_size
    ok (record { id = id; contents = bytes })

  unfoldable pub write_checked : Disk → Page → Result (Unit {0}) → Result (Unit {0}) × Disk
  write_checked d page (err e) = (err e, d)
  write_checked d page (ok u) = ops.write_at d (page.id * page_size) page.contents

  unfoldable pub write_page : Disk → Page → Result (Unit {0}) × Disk
  unfolding check_page_id check_inside write_checked
  write_page d page =
      write_checked d page (check_page_id page.id >> check_inside d (page.id * page_size))

  unfoldable pub resize_sized : Disk → ℕ → Result ℕ → Result (Unit {0}) × Disk
  resize_sized d target_size (err e) = (err e, d)
  resize_sized d target_size (ok current_size) =
      if ltb target_size current_size
      then (err internal_error, d)
      else if current_size == target_size
      then (ok tt, d)
      else ops.resize d target_size

  unfoldable pub resize_to_page_count : Disk → ℕ → Result (Unit {0}) × Disk
  unfolding resize_sized
  resize_to_page_count d page_count =
      if ltb page_count initial_database_page_count
      then (err invalid_argument, d)
      else if ltb max_page_count page_count
      then (err invalid_argument, d)
      else resize_sized d (page_count * page_size) (ops.size d)

  unfoldable pub create_resized :
      DatabaseHeader → Result (Unit {0}) × Disk → Result (Unit {0}) × Disk
  unfolding write_header
  create_resized h (err e, d) = (err e, d)
  create_resized h (ok u, d) = write_header d h

  unfoldable pub create_new : Disk → DatabaseHeader → Result (Unit {0}) × Disk
  unfolding create_resized
  create_new d h =
      if ltb max_page_count h.page_count
      then (err invalid_argument, d)
      else create_resized h (ops.resize d (h.page_count * page_size))

  unfoldable pub open_existing : Disk → Result (Unit {0})
  unfolding read_header
  open_existing d = do
    file_size ← ops.size d
    require (file_size % page_size == 0) corruption
    header ← read_header d
    require (not (ltb (file_size / page_size) header.page_count)) corruption
