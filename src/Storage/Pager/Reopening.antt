-- ===== src/Storage/Pager/Reopening.antt =====
-- Pager::open (src/storage/Pager.cpp) on the files that a crash has left.
use dan_db.Prelude.{
  ℕ, ◌+◌, ◌^◌, ◌≤◌, ◌<◌, ◌≡◌, refl, sym, ap, subst, ◌∙◌, false, Option, none, some, List, [], ◌++◌,
  append-nil, ◌==◌, if◌then◌else◌, Bool-cases, inl, inr, length, slice, take, All, arith,
}
use dan_db.Prelude.Map.{Map, lookup}
use dan_db.Prelude.Keys.{keys, lookup-All, lookup-absent}
use dan_db.Prelude.Sets.{IsOnce, contains}
use dan_db.Core.Status.{Result, ok}
use dan_db.Core.Bytes.{Bytes}
use dan_db.Platform.File.{FileOps, FileLaws, Works}
use dan_db.Storage.Page.{Page, PageId}
use dan_db.Storage.DatabaseHeader.{DatabaseHeader}
use dan_db.Storage.DiskManager
use dan_db.Transaction.TransactionState.{in_transaction}
use dan_db.Wal.Header.Layout as HeaderLayout
use dan_db.Wal.Manager.Opening.{IsHealthy, committed_log, open_or_create-recovers}
use dan_db.Wal.Scanner.{scan, WalScanResult}
use dan_db.Wal.Scanner.Log.{Transaction, IsTransaction, transaction_bytes, log_bytes, last_images}
use dan_db.Wal.Scanner.Crash.{header_of, crashed_log, committed_part, scan_crashed}
use dan_db.Wal.Scanner.Recovery.{Recovers, crash_recovery}
use dan_db.Storage.Pager.{Pager, find_page}
use dan_db.Storage.Pager.Opening.{
  Recovered, recover, recover_pages, opened_pager, open_database, after_header, after_log_open,
  after_size, after_scan,
}
use dan_db.Storage.Pager.Recovery.{
  last_header, as_page, over, last_offsets-IsOnce, IsLast, header_after, recover_pages-Recovering,
}

-- What a scan and the pages of a log have to do with each other.
module _ (content : Bytes) (read_at : ℕ → ℕ → Result Bytes) (images : Map Bytes) (m : Map ℕ)
    (reads : (offset n : ℕ)
      → offset + n ≤ length content
      → read_at offset n ≡ ok (slice offset n content))
    (once : IsOnce (keys m))
    (leads : (q : ℕ) → Recovers content q (lookup q m) (lookup q images)) where
  last_lem :
      (q offset : ℕ) (image : Option Bytes)
      → lookup q images ≡ image
      → Recovers content q (some offset) image
      → IsLast content images (q, offset)
  last_lem q offset none e held = absurd held
  last_lem q offset (some image) e held = (image, e, held)

  offsets-IsLast : All (IsLast content images) m
  offsets-IsLast = lookup-All (IsLast content images) m once (λ q offset found.
      last_lem q offset (lookup q images) refl
        (subst (λ o. Recovers content q o (lookup q images)) found (leads q)))

  absent_lem : (q : ℕ) → contains q (keys m) ≡ false → lookup q images ≡ none
  absent_lem q absent =
      no_image (lookup q images)
        (subst (λ o. Recovers content q o (lookup q images)) (lookup-absent q m absent) (leads q))
    where
      no_image : (image : Option Bytes) → Recovers content q none image → image ≡ none
      no_image none held = refl
      no_image (some image) held = absurd held

  header_lem :
      (header h : DatabaseHeader)
      → last_header header (lookup 0 images) ≡ ok h
      → header_after images (record { header = header; pages = [] }) m ≡ ok h
  unfolding header_after last_header
  header_lem header h e = elim (Bool-cases (contains 0 (keys m))) [
    | inl found ↦ rw found e
    | inr absent ↦ rw absent (sym (ap (last_header header) (absent_lem 0 absent)) ∙ e)
  ]

  page_lem :
      (q : ℕ)
      → (if contains q (keys m) then over (as_page q (lookup q images)) none else none)
        ≡ as_page q (lookup q images)
  unfolding as_page
  page_lem q = elim (Bool-cases (contains q (keys m))) [
    | inl found ↦ rw found (over_none (as_page q (lookup q images)))
    | inr absent ↦ rw (absent, absent_lem q absent) refl
  ]
    where
      over_none : (x : Option Page) → over x none ≡ x
      over_none none = refl
      over_none (some page) = refl

  -- Reading the pages back.
  recovering :
      (header h : DatabaseHeader)
      → last_header header (lookup 0 images) ≡ ok h
      → (r : Recovered) × (recover_pages read_at (record { header = header; pages = [] }) m ≡ ok r)
        × (r.header ≡ h)
        × ((q : PageId) → lookup q r.pages ≡ as_page q (lookup q images))
  unfolding lookup
  recovering header h e =
      let r =
        recover_pages-Recovering content read_at images reads
          (record { header = header; pages = [] }) m h offsets-IsLast (header_lem header h e) in
      (r.result, r.returned, r.header, λ q. r.pages q ∙ page_lem q)

module _ {Disk Log : Type 0} (disk_ops : FileOps Disk) (wal_ops : FileOps Log)
    (content : Log → Bytes) (laws : FileLaws wal_ops content) (works : Works wal_ops content) where
  healthy : (d : Log) → IsHealthy wal_ops content d
  healthy d = record {
    size_ok = works.size_ok d;
    read_at_ok = works.read_at_ok d;
    cut_ok = works.cut_ok d;
    sync_ok = works.sync_ok;
  }

  committed_log-crashed :
      (id : ℕ) (ts : List Transaction) (t : Transaction)
      → committed_log id ts ≡ crashed_log id ts t 0
  unfolding take
  committed_log-crashed id ts t =
      ap (λ x. HeaderLayout.layout (header_of id) ++ x) (sym (append-nil (log_bytes ts)))

  module _ (id : ℕ) (ts : List Transaction) (t : Transaction) (h : id < 2 ^ 64)
      (v : All IsTransaction ts) (w : IsTransaction t)
      (positive : 0 < length (transaction_bytes t)) where
    -- The open log, scanned and read back.
    recovered_log :
        (f : Log) (header last : DatabaseHeader)
        → content f ≡ committed_log id ts
        → last_header header (lookup 0 (last_images ts [])) ≡ ok last
        → (r : Recovered) × (found : WalScanResult) × (scan
              (wal_ops.read_at f)
              (length (content f))
              id
            ≡ some (ok found))
          × (recover (wal_ops.read_at f) header found ≡ ok r)
          × (r.header ≡ last)
          × ((q : PageId) → lookup q r.pages ≡ as_page q (lookup q (last_images ts [])))
    unfolding recover keys IsOnce
    recovered_log f header last e le =
        let log = crashed_log id ts t 0 in
        let read_at = wal_ops.read_at f in
        let same : content f ≡ log = e ∙ committed_log-crashed id ts t in
        let reads =
          subst
            (λ (c : Bytes).
              (offset n : ℕ) → offset + n ≤ length c → read_at offset n ≡ ok (slice offset n c))
            same (works.read_at_ok f) in
        let (found, scanned, valid, ignored, leads) =
          crash_recovery id ts t 0 read_at reads h v w positive in
        let part : found ≡ committed_part ts (length log) =
          found_lem (sym scanned ∙ scan_crashed log read_at reads id ts t 0 refl h v w positive) in
        let once : IsOnce (keys found.latest_committed_frame_offsets) =
          subst (λ (r : WalScanResult). IsOnce (keys r.latest_committed_frame_offsets)) (sym part)
            (last_offsets-IsOnce 64 ts [] tt) in
        let (r, returned, head, pages) =
          recovering log read_at (last_images ts []) found.latest_committed_frame_offsets reads once
            leads header last le in
        (r, found, ap (λ c. scan read_at (length c) id) same ∙ scanned, returned, head, pages)
      where
        found_lem : {a b : WalScanResult} → some (ok a) ≡ some (ok b) → a ≡ b
        found_lem k = cc k

  -- What a pager shows after an opening: the pages of the log, and the file for the others.
  pub record Reopened (d : Disk) (images : Map Bytes) (last : DatabaseHeader) (p : Pager Disk Log)
      : Type 0 where
    pub header : p.db_header ≡ last
    pub committed : p.committed_header ≡ last
    pub idle : in_transaction p.transaction_state ≡ false
    pub pages :
        (q : PageId)
        → find_page disk_ops wal_ops p q ≡ elim (as_page q (lookup q images)) [
          | some page ↦ ok page
          | none ↦ DiskManager.read_page disk_ops d q
        ]

  -- Durability through a pager: take a log of transactions in range, of which a crash cut the last one off before
  -- its end, at any byte, for the 64-bit id in the header of a file of the pages that opens, over files that work,
  -- and at least one frame. If page 0 has a committed image, the last one decodes. Then opening the database
  -- succeeds, with no transaction begun. Its header is that of the last committed image of page 0, or, if there is
  -- none, the one in the file. A page that is not cached is found with its last committed image, or, if no
  -- committed transaction wrote it, as the file of the pages has it.
  pub open_database-Reopened :
      (capacity : ℕ) (d : Disk) (f : Log) (header last : DatabaseHeader) (ts : List Transaction)
      (t : Transaction) (j : ℕ)
      → (capacity == 0) ≡ false
      → DiskManager.open_existing disk_ops d ≡ ok tt
      → DiskManager.read_header disk_ops d ≡ ok header
      → content f ≡ crashed_log header.database_id ts t j
      → header.database_id < 2 ^ 64
      → All IsTransaction ts
      → IsTransaction t
      → j < length (transaction_bytes t)
      → last_header header (lookup 0 (last_images ts [])) ≡ ok last
      → (p : Pager Disk Log) × (open_database disk_ops wal_ops capacity d f ≡ some (ok p))
        × Reopened d (last_images ts []) last p
  unfolding open_database after_header after_log_open after_size after_scan opened_pager find_page
      in_transaction
  open_database-Reopened capacity d f header last ts t j some_frames opens reads e h v w hj le =
      let id = header.database_id in
      let (o, opened, log) =
        open_or_create-recovers wal_ops content laws f id ts t j e (healthy f) h v w hj in
      let wal = log.manager in
      let (r, found, scanned, recovered, head, pages) =
        recovered_log id ts t h v w (omega (arith, hj)) wal.file_handle header last log.holds le in
      let o_eq : o ≡ (ok wal, o.1) = (λ i. (log.returned i, o.1)) in
      (
        opened_pager disk_ops wal_ops capacity d wal r,
        rw
            (
              some_frames,
              opens,
              reads,
              opened,
              o_eq,
              works.size_ok wal.file_handle,
              scanned,
              recovered,
            )
            refl,
        record {
          header = head;
          committed = head;
          idle = refl;
          pages = λ q.
              ap
                (λ (x : Option Page). elim x [
                  | some page ↦ ok page
                  | none ↦ DiskManager.read_page disk_ops d q
                ])
                (pages q);
        },
      )
