-- ===== src/Buffer/BufferFrame.antt =====
-- include/dandb/buffer/BufferFrame.h: a page in memory, with its pins and its dirty mark.
use dan_db.Prelude.{ℕ, ◌+◌, ◌-◌, ◌%◌, ◌^◌, Bool, true, false, ltb, if◌then◌else◌}
use dan_db.Core.Status.{Result, ok, err, internal_error}
use dan_db.Storage.Page.{Page, new_page, invalid_page_id}

pub record BufferFrame : Type 0 where
  pub page : Page
  -- A 32-bit count.
  pub pin_count : ℕ
  pub is_dirty : Bool

unfoldable pub new_frame : BufferFrame
unfolding new_page
new_frame = record { page = new_page invalid_page_id; pin_count = 0; is_dirty = false }

unfoldable pub pin : BufferFrame → BufferFrame
pin frame = record frame { pin_count = (frame.pin_count + 1) % 2 ^ 32 }

unfoldable pub unpin : BufferFrame → Result (Unit {0}) × BufferFrame
unpin frame =
    if ltb 0 frame.pin_count
    then (ok tt, record frame { pin_count = frame.pin_count - 1 })
    else (err internal_error, frame)

unfoldable pub is_pinned : BufferFrame → Bool
is_pinned frame = ltb 0 frame.pin_count

unfoldable pub mark_dirty : BufferFrame → BufferFrame
mark_dirty frame = record frame { is_dirty = true }

unfoldable pub clear_dirty : BufferFrame → BufferFrame
clear_dirty frame = record frame { is_dirty = false }

unfoldable pub reset : BufferFrame → BufferFrame
unfolding new_page
reset frame = record { page = new_page invalid_page_id; pin_count = 0; is_dirty = false }
