-- ===== src/Wal/Scanner/Log.antt =====
-- Logs as src/wal/WalManager.cpp writes them, without reference to how they are scanned: the bytes of
-- committed transactions, and the offset at which each page was written last.
use dan_db.Prelude.{
  ℕ, ◌+◌, ◌*◌, ◌^◌, ◌<◌, ◌≡◌, List, [], ◌∷◌, ◌++◌, arith, length, All, length-append,
}
use dan_db.Prelude.Map.{Map, insert}
use dan_db.Core.Bytes.{Bytes, IsBytes}
use dan_db.Storage.Page.{Page}
use dan_db.Wal.PageFrame.{WalPageFrame}
use dan_db.Wal.PageFrame.Layout as FrameLayout
use dan_db.Wal.CommitRecord.{WalCommitRecord}
use dan_db.Wal.CommitRecord.Layout as CommitLayout

pub record Transaction : Type 0 where
  pub transaction_id : ℕ
  pub pages : List Page

abbrev pub frame_of : ℕ → Page → WalPageFrame
frame_of t p = record { transaction_id = t; page_id = p.id; page_image = p.contents }

abbrev pub commit_of : ℕ → ℕ → WalCommitRecord
commit_of t n = record { transaction_id = t; frame_count = n }

unfoldable pub frames_bytes : ℕ → List Page → Bytes
frames_bytes t [] = []
frames_bytes t (p ∷ ps) = FrameLayout.layout (frame_of t p) ++ frames_bytes t ps

unfoldable pub transaction_bytes : Transaction → Bytes
transaction_bytes t =
    frames_bytes t.transaction_id t.pages
    ++ CommitLayout.layout (commit_of t.transaction_id (length t.pages))

unfoldable pub log_bytes : List Transaction → Bytes
log_bytes [] = []
log_bytes (t ∷ ts) = transaction_bytes t ++ log_bytes ts

pub record IsPage (p : Page) : Type 0 where
  pub id : p.id < 2 ^ 64
  pub size : length p.contents ≡ 4096
  pub bytes : IsBytes p.contents

pub record IsTransaction (t : Transaction) : Type 0 where
  pub transaction_id : t.transaction_id < 2 ^ 64
  pub frame_count : length t.pages < 2 ^ 64
  pub pages : All IsPage t.pages

-- The offsets of frames that are written from `offset` on.
unfoldable pub record_offsets : ℕ → List Page → Map ℕ → Map ℕ
record_offsets offset [] m = m
record_offsets offset (p ∷ ps) m = record_offsets (offset + 4136) ps (insert p.id offset m)

unfoldable pub last_offsets : ℕ → List Transaction → Map ℕ → Map ℕ
last_offsets offset [] m = m
last_offsets offset (t ∷ ts) m =
    last_offsets (offset + (4136 * length t.pages + 32)) ts (record_offsets offset t.pages m)

pub length-frames_bytes :
    (t : ℕ) (ps : List Page) → All IsPage ps → length (frames_bytes t ps) ≡ 4136 * length ps
unfolding frames_bytes
length-frames_bytes t [] h = omega arith
length-frames_bytes t (p ∷ ps) h = omega (
  arith,
  length-append (FrameLayout.layout (frame_of t p)) (frames_bytes t ps),
  FrameLayout.length-layout (frame_of t p) h.0.size,
  length-frames_bytes t ps h.1,
)

pub length-transaction_bytes :
    (t : Transaction) → IsTransaction t → length (transaction_bytes t) ≡ 4136 * length t.pages + 32
unfolding transaction_bytes
length-transaction_bytes t h = omega (
  arith,
  length-append (frames_bytes t.transaction_id t.pages)
      (CommitLayout.layout (commit_of t.transaction_id (length t.pages))),
  length-frames_bytes t.transaction_id t.pages h.pages,
  CommitLayout.length-layout (commit_of t.transaction_id (length t.pages)),
)

-- The last image of each page, in the order of the transactions.
unfoldable pub write_images : List Page → Map Bytes → Map Bytes
write_images [] m = m
write_images (p ∷ ps) m = write_images ps (insert p.id p.contents m)

unfoldable pub last_images : List Transaction → Map Bytes → Map Bytes
last_images [] m = m
last_images (t ∷ ts) m = last_images ts (write_images t.pages m)
