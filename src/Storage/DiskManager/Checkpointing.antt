-- ===== src/Storage/DiskManager/Checkpointing.antt =====
-- What a checkpoint asks of src/storage/DiskManager.cpp, over a file that works: growth, and many pages written.
use dan_db.Prelude.{
  ℕ, ◌+◌, ◌-◌, ◌*◌, ◌≤◌, ◌≡◌, refl, sym, ap, ◌∙◌, Bool, true, false, ◌&&◌, inl, inr, Bool-cases,
  arith, ltb, Option, none, some, [], ◌∷◌, ◌++◌, ◌==◌, ==→eq, if◌then◌else◌, length, replicate,
  length-append, length-replicate, All,
}
use dan_db.Prelude.Overwrite.{slice-append_inside}
use dan_db.Prelude.Map.{Map, lookup}
use dan_db.Prelude.Keys.{keys, lookup-absent}
use dan_db.Prelude.Sets.{IsOnce, contains}
use dan_db.Core.Status.{Result, ok, err, invalid_argument}
use dan_db.Core.Bytes.{Bytes}
use dan_db.Platform.File.{FileOps, FileLaws, PageFileLaws, Works, max_file_size}
use dan_db.Storage.Page.{Page, PageId}
use dan_db.Storage.DiskManager.{
  max_page_count, read_page, write_page, read_header, resize_to_page_count, resize_sized,
}
use dan_db.Storage.DiskManager.Pages.{
  page_at, is_data_page, in_file, in_file-le, le-in_file, read_page_lem, write_page-Written,
  read_page-write_page,
}

-- Entries that a file of this size has room for, under their own numbers.
abbrev pub IsEntry : ℕ → ℕ × Page → Type 0
IsEntry size e =
    (e.1.id ≡ e.0)
    × (is_data_page e.1.id ≡ true)
    × (e.1.id * 4096 + 4096 ≤ size)
    × (length e.1.contents ≡ 4096)

-- The pages that were written, and the file for the others.
abbrev pub found_in : Map Page → PageId → Result Page → Result Page
found_in pages id otherwise = elim (lookup id pages) [ none ↦ otherwise | some page ↦ ok page ]

module _ {Disk : Type 0} (ops : FileOps Disk) (content : Disk → Bytes) (works : Works ops content)
    (laws : FileLaws ops content) (random : PageFileLaws ops content) where
  -- A file of the same bytes reads the same.
  pub read_page_same :
      (d d' : Disk) (id : PageId)
      → content d' ≡ content d
      → read_page ops d' id ≡ read_page ops d id
  read_page_same d d' id e =
      read_page_lem ops content works d' id ∙ rw e (sym (read_page_lem ops content works d id))

  pub read_header_same :
      (d d' : Disk)
      → content d' ≡ content d
      → 4096 ≤ length (content d)
      → read_header ops d' ≡ read_header ops d
  unfolding read_header
  read_header_same d d' e inside =
      rw
        (
          works.read_at_ok d' 0 4096 (omega (arith, inside, ap length e)),
          works.read_at_ok d 0 4096 inside,
          e,
        )
        refl

  -- A page that reads keeps its bytes when the file grows.
  grown-reads :
      (d d' : Disk) (id : PageId) (page : Page) (more : Bytes)
      → content d' ≡ content d ++ more
      → read_page ops d id ≡ ok page
      → read_page ops d' id ≡ ok page
  grown-reads d d' id page more e h =
      elim (Bool-cases (is_data_page id && in_file (length (content d)) id)) [
        | inr outside ↦
            let refused : read_page ops d id ≡ err invalid_argument =
              read_page_lem ops content works d id ∙ rw outside refl in
            absurd (cc (refused, h))
        | inl both ↦
            let (good, inside) =
              and_split (is_data_page id) (in_file (length (content d)) id) both in
            let fits : id * 4096 + 4096 ≤ length (content d) =
              in_file-le (length (content d)) id inside in
            let longer : length (content d') ≡ length (content d) + length more =
              ap length e ∙ length-append (content d) more in
            let same : page_at id (content d') ≡ page_at id (content d) =
              ap (page_at id) e ∙ slice-append_inside (id * 4096) 4096 (content d) more fits in
            let inside' : in_file (length (content d')) id ≡ true =
              le-in_file (length (content d')) id (omega (arith, fits, longer)) in
            let found : read_page ops d id
                ≡ ok (record { id = id; contents = page_at id (content d) }) =
              read_page_lem ops content works d id ∙ rw both refl in
            read_page_lem ops content works d' id ∙ rw (good, inside', same) (sym found ∙ h)
      ]
    where
      and_split : (a b : Bool) → (a && b) ≡ true → (a ≡ true) × (b ≡ true)
      and_split true true k = (refl, refl)
      and_split true false k = absurd (cc k)
      and_split false b k = absurd (cc k)

  resize_lem :
      (d : Disk) (page_count : ℕ)
      → 1 ≤ page_count
      → page_count ≤ max_page_count
      → length (content d) ≤ page_count * 4096
      → resize_to_page_count ops d page_count ≡ (
          if length (content d) == page_count * 4096
          then (ok tt, d)
          else ops.resize d (page_count * 4096))
  unfolding resize_to_page_count resize_sized
  resize_lem d page_count low high size =
      let not_small : ltb page_count 1 ≡ false = ground (arith, low) in
      let not_large : ltb max_page_count page_count ≡ false = ground (arith, high) in
      let grows : ltb (page_count * 4096) (length (content d)) ≡ false = ground (arith, size) in
      rw (not_small, not_large, works.size_ok d, grows) refl

  -- A resize inside the limits succeeds, the file has the size that is asked for, and what read before reads.
  pub record Resized (d : Disk) (page_count : ℕ) (o : Result (Unit {0}) × Disk) : Type 0 where
    pub done : o.0 ≡ ok tt
    pub new_size : length (content o.1) ≡ page_count * 4096
    pub reads :
        (id : PageId) (page : Page) → read_page ops d id ≡ ok page → read_page ops o.1 id ≡ ok page

  pub resize-Resized :
      (d : Disk) (page_count : ℕ)
      → 1 ≤ page_count
      → page_count * 4096 ≤ max_file_size
      → length (content d) ≤ page_count * 4096
      → Resized d page_count (resize_to_page_count ops d page_count)
  resize-Resized d page_count low high size =
      rw (resize_lem d page_count low (omega (arith, high)) size)
        (elim (Bool-cases (length (content d) == page_count * 4096)) [
          | inl full ↦
              rw full (record { done = refl; new_size = ==→eq _ _ full; reads = λ id page h. h })
          | inr growing ↦
              let n : ℕ = page_count * 4096 in
              let d' = (ops.resize d n).1 in
              let zeros : Bytes = replicate (n - length (content d)) 0 in
              let grown : content d' ≡ content d ++ zeros =
                random.resize_grows d d' n size (λ i. (works.grow_ok d n high i, d')) in
              rw growing (record {
                done = works.grow_ok d n high;
                new_size =
                    ap length grown
                    ∙ omega (
                      arith,
                      size,
                      length-append (content d) zeros,
                      length-replicate {A = ℕ} (n - length (content d)) 0,
                    );
                reads = λ id page h. grown-reads d d' id page zeros grown h;
              })
        ])

  -- Pages written one after another.
  unfoldable pub write_pages : Disk → Map Page → Disk
  write_pages d [] = d
  write_pages d ((id, page) ∷ pages) = write_pages (write_page ops d page).1 pages

  pub length-write_pages :
      (d : Disk) (pages : Map Page)
      → All (IsEntry (length (content d))) pages
      → length (content (write_pages d pages)) ≡ length (content d)
  unfolding write_pages
  length-write_pages d [] all = refl
  length-write_pages d ((id, page) ∷ pages) ((own, good, inside, size), all) =
      let d' = (write_page ops d page).1 in
      let (done, written) =
        write_page-Written ops content works laws random d page (good, inside, size) in
      length-write_pages d' pages (rw written.same_size all) ∙ written.same_size

  pub read_page-write_pages :
      (d : Disk) (pages : Map Page) (q : PageId)
      → IsOnce (keys pages)
      → All (IsEntry (length (content d))) pages
      → read_page ops (write_pages d pages) q ≡ found_in pages q (read_page ops d q)
  unfolding write_pages lookup keys IsOnce
  read_page-write_pages d [] q once all = refl
  read_page-write_pages d ((id, page) ∷ pages) q once ((own, good, inside, size), all) =
      let d' = (write_page ops d page).1 in
      let (done, written) =
        write_page-Written ops content works laws random d page (good, inside, size) in
      let rest = read_page-write_pages d' pages q once.1 (rw written.same_size all) in
      let read = read_page-write_page ops content works laws random d page q (good, inside, size) in
      rest
      ∙ ap (found_in pages q) (read ∙ ap (λ k. if k == q then ok page else read_page ops d q) own)
      ∙ elim (Bool-cases (id == q)) [
        | inl same ↦
            ap (λ t. found_in pages q (if t then ok page else read_page ops d q)) same
            ∙ ap (λ (o : Option Page). elim o [ none ↦ ok page | some p ↦ ok p ])
                (lookup-absent q pages
                  (ap (λ k. contains k (keys pages)) (sym (==→eq id q same)) ∙ once.0))
            ∙ sym (found_lem {o = lookup q ((id, page) ∷ pages)} {o' = some page} (rw same refl))
        | inr other ↦
            ap (λ t. found_in pages q (if t then ok page else read_page ops d q)) other
            ∙ sym (
                found_lem {o = lookup q ((id, page) ∷ pages)} {o' = lookup q pages} (rw other refl))
      ]
    where
      found_lem :
          {o o' : Option Page}
          → o ≡ o'
          → (elim o [ none ↦ read_page ops d q | some p ↦ ok p ])
            ≡ (elim o' [ none ↦ read_page ops d q | some p ↦ ok p ])
      found_lem e = ap (λ (o : Option Page). elim o [ none ↦ read_page ops d q | some p ↦ ok p ]) e
