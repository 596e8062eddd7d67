-- ===== src/Storage/DiskManager/Pages.antt =====
-- The file of src/storage/DiskManager.cpp as an array of pages.
use dan_db.Prelude.{
  ℕ, ◌+◌, ◌-◌, ◌*◌, ◌≤◌, ◌≡◌, ◌≢◌, refl, sym, ap, ◌∙◌, Bool, true, false, not, ◌||◌, ◌&&◌, inl, inr,
  Bool-cases, arith, ltb, ◌==◌, ==→eq, if◌then◌else◌, length, slice, replicate, length-replicate,
}
use dan_db.Prelude.Overwrite.{
  overwrite, length-overwrite, slice-overwrite_same, slice-overwrite_before, slice-overwrite_after,
}
use dan_db.Core.Status.{ok, err, invalid_argument}
use dan_db.Core.Bytes.{Bytes}
use dan_db.Platform.File.{FileOps, FileLaws, PageFileLaws, Works}
use dan_db.Storage.Page.{Page, PageId, is_valid}
use dan_db.Storage.DatabaseHeader.{DatabaseHeader}
use dan_db.Storage.DatabaseHeader.Layout.{
  FitsWords, IsHeader, layout, length-layout, encode_into-layout,
}
use dan_db.Storage.DatabaseHeader.Decoding.{decode-layout}
use dan_db.Storage.DiskManager.{
  max_page_count, check_page_id, check_inside, read_page, write_page, write_checked, write_header,
  write_encoded, read_header,
}

-- The bytes of a page.
abbrev pub page_at : PageId → Bytes → Bytes
page_at id c = slice (id * 4096) 4096 c

-- A page that is read and written as one: it has a number, and is not the header.
abbrev pub is_data_page : PageId → Bool
is_data_page id = is_valid id && (not (id == 0) && not (ltb max_page_count id))

-- The guard of the code that the page lies in a file of this size.
abbrev pub in_file : ℕ → PageId → Bool
in_file size id = not (ltb size 4096 || ltb (size - 4096) (id * 4096))

pub in_file-le : (size : ℕ) (id : PageId) → in_file size id ≡ true → id * 4096 + 4096 ≤ size
in_file-le size id h = ground arith

pub le-in_file : (size : ℕ) (id : PageId) → id * 4096 + 4096 ≤ size → in_file size id ≡ true
le-in_file size id h = ground arith

check_page_id_lem :
    (id : PageId) → check_page_id id ≡ (if is_data_page id then ok tt else err invalid_argument)
unfolding check_page_id
check_page_id_lem id = elim (Bool-cases (is_valid id)) [
  | inr bad ↦ rw bad refl
  | inl valid ↦ elim (Bool-cases (id == 0)) [
    | inl zeroth ↦ rw (valid, zeroth) refl
    | inr other ↦ elim (Bool-cases (ltb max_page_count id)) [
      | inl large ↦ rw (valid, other, large) refl
      | inr small ↦ rw (valid, other, small) refl
    ]
  ]
]

module _ {Disk : Type 0} (ops : FileOps Disk) (content : Disk → Bytes)
    (works : Works ops content) where
  check_inside_lem :
      (d : Disk) (id : PageId)
      → check_inside ops d (id * 4096)
        ≡ (if in_file (length (content d)) id then ok tt else err invalid_argument)
  unfolding check_inside
  check_inside_lem d id =
      rw (works.size_ok d) (elim (Bool-cases (in_file (length (content d)) id)) [
        | inl inside ↦ rw inside refl
        | inr outside ↦ rw outside refl
      ])

  -- Reading, as one test and the bytes of the page.
  pub read_page_lem :
      (d : Disk) (id : PageId)
      → read_page ops d id ≡ (
          if is_data_page id && in_file (length (content d)) id
          then ok (record { id = id; contents = page_at id (content d) })
          else err invalid_argument)
  unfolding read_page
  read_page_lem d id =
      rw (check_page_id_lem id, check_inside_lem d id)
        (elim (Bool-cases (is_data_page id)) [
          | inr bad ↦ rw bad refl
          | inl good ↦ elim (Bool-cases (in_file (length (content d)) id)) [
            | inr outside ↦ rw (good, outside) refl
            | inl inside ↦
                rw
                  (
                    good,
                    inside,
                    works.read_at_ok d (id * 4096) 4096 (in_file-le (length (content d)) id inside),
                  )
                  refl
          ]
        ])

  header_refused :
      (d : Disk) (id : PageId) → (id == 0) ≡ true → read_page ops d id ≡ err invalid_argument
  header_refused d id zeroth = read_page_lem d id ∙ elim (Bool-cases (is_valid id)) [
    | inl valid ↦ rw (valid, zeroth) refl
    | inr bad ↦ rw bad refl
  ]

  -- A page that the file has room for.
  abbrev pub IsWritable : Disk → Page → Type 0
  IsWritable d page =
      (is_data_page page.id ≡ true)
      × (page.id * 4096 + 4096 ≤ length (content d))
      × (length page.contents ≡ 4096)

  write_page_lem :
      (d : Disk) (page : Page)
      → IsWritable d page
      → write_page ops d page ≡ ops.write_at d (page.id * 4096) page.contents
  unfolding write_page write_checked
  write_page_lem d page (good, inside, size) =
      rw
        (
          check_page_id_lem page.id,
          check_inside_lem d page.id,
          good,
          le-in_file (length (content d)) page.id inside,
        )
        refl

  module _ (laws : FileLaws ops content) (random : PageFileLaws ops content) where
    written_lem :
        (d : Disk) (offset : ℕ) (bytes : Bytes)
        → offset + length bytes ≤ length (content d)
        → content (ops.write_at d offset bytes).1 ≡ overwrite offset bytes (content d)
    written_lem d offset bytes fits =
        random.write_at_inside d (ops.write_at d offset bytes).1 offset bytes fits
          (λ i. (works.write_at_ok d offset bytes fits i, (ops.write_at d offset bytes).1))

    -- What a write of a page does to the file.
    pub record Written (page : Page) (c c' : Bytes) : Type 0 where
      pub same_size : length c' ≡ length c
      pub here : page_at page.id c' ≡ page.contents
      pub elsewhere : (id : PageId) → id ≢ page.id → page_at id c' ≡ page_at id c

    overwritten :
        (page : Page) (c : Bytes)
        → page.id * 4096 + 4096 ≤ length c
        → length page.contents ≡ 4096
        → Written page c (overwrite (page.id * 4096) page.contents c)
    overwritten page c inside size =
        let fits : page.id * 4096 + length page.contents ≤ length c = omega (arith, inside, size) in
        record {
          same_size = length-overwrite (page.id * 4096) page.contents c fits;
          here =
              ap (λ (n : ℕ). slice (page.id * 4096) n (overwrite (page.id * 4096) page.contents c))
                (sym size)
              ∙ slice-overwrite_same (page.id * 4096) page.contents c fits;
          elsewhere = λ id other. elim (Bool-cases (ltb id page.id)) [
            | inl before ↦
                slice-overwrite_before (page.id * 4096) page.contents c fits (id * 4096) 4096
                  (before_lem id page.id before)
            | inr behind ↦
                slice-overwrite_after (page.id * 4096) page.contents c fits (id * 4096) 4096
                  (omega (arith, size, behind_lem id page.id behind other))
          ];
        }
      where
        before_lem : (a b : ℕ) → ltb a b ≡ true → a * 4096 + 4096 ≤ b * 4096
        before_lem a b h = ground arith

        behind_lem : (a b : ℕ) → ltb a b ≡ false → a ≢ b → b * 4096 + 4096 ≤ a * 4096
        behind_lem a b h ne = elim (Bool-cases (a == b)) [
          | inl e ↦ absurd (ne (==→eq a b e))
          | inr e ↦ ground arith
        ]

    pub write_page-Written :
        (d : Disk) (page : Page)
        → IsWritable d page
        → ((write_page ops d page).0 ≡ ok tt)
          × Written page (content d) (content (write_page ops d page).1)
    write_page-Written d page w =
        rw
          (
            write_page_lem d page w,
            written_lem d (page.id * 4096) page.contents (omega (arith, w.1, w.2)),
          )
          (
            works.write_at_ok d (page.id * 4096) page.contents (omega (arith, w.1, w.2)),
            overwritten page (content d) (w.1) (w.2),
          )

    -- After a page of the file's size has been written inside the file, over a file that works, reading
    -- it returns it, and reading any other page, inside the file or not, returns what it did before.
    pub read_page-write_page :
        (d : Disk) (page : Page) (id : PageId)
        → IsWritable d page
        → read_page ops (write_page ops d page).1 id
          ≡ (if page.id == id then ok page else read_page ops d id)
    read_page-write_page d page id w =
        let (done, written) = write_page-Written d page w in
        let after = (write_page ops d page).1 in
        read_page_lem after id ∙ elim (Bool-cases (page.id == id)) [
          | inl same ↦
              let e : id ≡ page.id = sym (==→eq page.id id same) in
              rw
                (
                  same,
                  e,
                  written.same_size,
                  w.0,
                  le-in_file (length (content d)) page.id (w.1),
                  written.here,
                )
                refl
          | inr other ↦
              rw (other, written.same_size, written.elsewhere id (λ e. ne_of other e))
                (sym (read_page_lem d id))
        ]
      where
        ne_of : (page.id == id) ≡ false → id ≡ page.id → ⊥
        ne_of h e = ground arith

    write_header_lem :
        (d : Disk) (h : DatabaseHeader)
        → IsHeader h
        → write_header ops d h ≡ ops.write_at d 0 (layout h)
    unfolding write_header write_encoded
    write_header_lem d h v =
        rw (encode_into-layout h (replicate 4096 0) v (length-replicate 4096 0)) refl

    pub write_header-Written :
        (d : Disk) (h : DatabaseHeader)
        → IsHeader h
        → 4096 ≤ length (content d)
        → ((write_header ops d h).0 ≡ ok tt)
          × Written
              (record { id = 0; contents = layout h })
              (content d)
              (content (write_header ops d h).1)
    write_header-Written d h v inside =
        rw
          (
            write_header_lem d h v,
            written_lem d 0 (layout h) (omega (arith, inside, length-layout h)),
          )
          (
            works.write_at_ok d 0 (layout h) (omega (arith, inside, length-layout h)),
            overwritten (record { id = 0; contents = layout h }) (content d) (omega (arith, inside))
                (length-layout h),
          )

    -- After a header was written into a file of at least a page that works, it is read back, and every
    -- other page is read as before.
    pub read_header-write_header :
        (d : Disk) (h : DatabaseHeader)
        → FitsWords h
        → IsHeader h
        → 4096 ≤ length (content d)
        → (read_header ops (write_header ops d h).1 ≡ ok h)
          × ((id : PageId) → read_page ops (write_header ops d h).1 id ≡ read_page ops d id)
    unfolding read_header
    read_header-write_header d h fits v inside =
        let (done, written) = write_header-Written d h v inside in
        let after = (write_header ops d h).1 in
        (
          rw
              (
                works.read_at_ok after 0 4096 (omega (arith, written.same_size, inside)),
                written.here,
              )
              (decode-layout h fits v),
          λ id. read_page_lem after id ∙ elim (Bool-cases (id == 0)) [
            | inl zeroth ↦
                sym (read_page_lem after id)
                ∙ header_refused after id zeroth
                ∙ sym (header_refused d id zeroth)
            | inr other ↦
                rw (written.same_size, written.elsewhere id (λ e. ne_of id other e))
                  (sym (read_page_lem d id))
          ],
        )
      where
        ne_of : (k : ℕ) → (k == 0) ≡ false → k ≡ 0 → ⊥
        ne_of k h e = ground arith
