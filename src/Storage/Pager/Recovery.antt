-- ===== src/Storage/Pager/Recovery.antt =====
-- Pager::open (src/storage/Pager.cpp) after a crash: the pages and the header that it reads back from the log.
use dan_db.Prelude.{
  ℕ, ◌+◌, ◌*◌, drop, take, length-drop, take-append-drop, length-append, ◌≤◌, ◌<◌, ==_refl, ◌≡◌,
  refl, sym, ap, ◌∙◌, Bool, true, false, Option, none, some, List, [], ◌∷◌, ◌==◌, ==→eq,
  if◌then◌else◌, if-both, Bool-cases, inl, inr, length, slice, All, arith,
}
use dan_db.Prelude.Map.{Map, lookup, insert, lookup-insert}
use dan_db.Prelude.Keys.{keys, insert-IsOnce}
use dan_db.Prelude.Sets.{IsOnce, contains}
use dan_db.Core.Status.{Result, ok}
use dan_db.Core.Bytes.{Bytes}
use dan_db.Storage.Page.{Page, PageId}
use dan_db.Storage.DatabaseHeader
use dan_db.Storage.DatabaseHeader.{DatabaseHeader}
use dan_db.Wal.PageFrame.Decoding as FrameDecoding
use dan_db.Wal.Scanner.Log.{Transaction, record_offsets, last_offsets}
use dan_db.Wal.Scanner.Recovery.{HoldsImage}
use dan_db.Storage.Pager.Opening.{Recovered, with_header, keep_frame, recover_page, recover_pages}

-- The offsets of a scan list no page twice.
record_offsets-IsOnce :
    (offset : ℕ) (ps : List Page) (m : Map ℕ)
    → IsOnce (keys m)
    → IsOnce (keys (record_offsets offset ps m))
unfolding record_offsets
record_offsets-IsOnce offset [] m once = once
record_offsets-IsOnce offset (p ∷ ps) m once =
    record_offsets-IsOnce (offset + 4136) ps (insert p.id offset m)
      (insert-IsOnce p.id offset m once)

pub last_offsets-IsOnce :
    (offset : ℕ) (ts : List Transaction) (m : Map ℕ)
    → IsOnce (keys m)
    → IsOnce (keys (last_offsets offset ts m))
unfolding last_offsets
last_offsets-IsOnce offset [] m once = once
last_offsets-IsOnce offset (t ∷ ts) m once =
    last_offsets-IsOnce (offset + (4136 * length t.pages + 32)) ts (record_offsets offset t.pages m)
      (record_offsets-IsOnce offset t.pages m once)

-- The header after the images: that of page 0, if there is one.
unfoldable pub last_header : DatabaseHeader → Option Bytes → Result DatabaseHeader
last_header header none = ok header
last_header header (some image) = DatabaseHeader.decode image

-- The page of an image, unless it is page 0, which is the header.
unfoldable pub as_page : PageId → Option Bytes → Option Page
as_page id none = none
as_page id (some image) = if id == 0 then none else some (record { id = id; contents = image })

-- What a loop adds to what was there.
abbrev pub over : Option Page → Option Page → Option Page
over none old = old
over (some page) old = some page

over_twice :
    (a b : Bool) (new old : Option Page)
    → (if a then over new (if b then over new old else old) else (if b then over new old else old))
      ≡ (if (if b then true else a) then over new old else old)
over_twice true true none old = refl
over_twice true true (some page) old = refl
over_twice true false new old = refl
over_twice false true new old = refl
over_twice false false new old = refl

slice_inside : (i n : ℕ) (xs : Bytes) → length (slice i n xs) ≡ n → 0 < n → i + n ≤ length xs
unfolding slice
slice_inside i n xs e positive = omega (arith, e, positive, length-drop i xs, take_le n (drop i xs))
  where
    take_le : (n : ℕ) (xs : Bytes) → length (take n xs) ≤ length xs
    take_le n xs =
        omega (arith, ap length (take-append-drop n xs), length-append (take n xs) (drop n xs))

-- An offset of the page's last image.
abbrev pub IsLast : Bytes → Map Bytes → ℕ × ℕ → Type 0
IsLast content images e =
    (image : Bytes) × (lookup e.0 images ≡ some image) × HoldsImage content e.0 image e.1

unfoldable pub header_after : Map Bytes → Recovered → Map ℕ → Result DatabaseHeader
unfolding last_header
header_after images r m =
    if contains 0 (keys m) then last_header r.header (lookup 0 images) else ok r.header

module _ (content : Bytes) (read_at : ℕ → ℕ → Result Bytes) (images : Map Bytes)
    (reads : (offset n : ℕ)
      → offset + n ≤ length content
      → read_at offset n ≡ ok (slice offset n content)) where
  recover_page-holds :
      (r : Recovered) (id offset : ℕ) (image : Bytes)
      → HoldsImage content id image offset
      → (recover_page read_at r (id, offset) ≡ (
          if id == 0
          then with_header r (DatabaseHeader.decode image)
          else ok (record r { pages = insert id (record { id = id; contents = image }) r.pages })))
  unfolding recover_page keep_frame
  recover_page-holds r id offset image held =
      let inside : offset + 4136 ≤ length content =
        slice_inside offset 4136 content
          (FrameDecoding.decode-Decoded _ held.frame held.intact).size (omega arith) in
      rw (reads offset 4136 inside, held.intact, held.of_page, held.holds, ==_refl id) refl

  -- The result of the loop.
  pub record Recovering (r : Recovered) (m : Map ℕ) (h : DatabaseHeader) : Type 0 where
    pub result : Recovered
    pub returned : recover_pages read_at r m ≡ ok result
    pub header : result.header ≡ h
    pub pages :
        (q : PageId)
        → lookup q result.pages ≡ (
            if contains q (keys m)
            then over (as_page q (lookup q images)) (lookup q r.pages)
            else lookup q r.pages)

  step :
      (r r1 : Recovered) (id offset : ℕ) (m : Map ℕ) (h : DatabaseHeader)
      → recover_page read_at r (id, offset) ≡ ok r1
      → ((q : PageId)
          → lookup q r1.pages ≡ (
              if id == q
              then over (as_page q (lookup q images)) (lookup q r.pages)
              else lookup q r.pages))
      → Recovering r1 m h
      → Recovering r ((id, offset) ∷ m) h
  unfolding recover_pages keys contains
  step r r1 id offset m h e pages rest = record {
    result = rest.result;
    returned = rw e rest.returned;
    header = rest.header;
    pages = λ q.
        rest.pages q
        ∙ rw (pages q) (
            over_twice (contains q (keys m)) (id == q) (as_page q (lookup q images))
              (lookup q r.pages));
  }

  data_page :
      (id q : PageId) (image : Bytes) (old : Option Page)
      → (id == 0) ≡ false
      → lookup id images ≡ some image
      → (if id == q then some (record { id = id; contents = image }) else old)
        ≡ (if id == q then over (as_page q (lookup q images)) old else old)
  unfolding as_page
  data_page id q image old other last = elim (Bool-cases (id == q)) [
    | inl same ↦ rw (same, sym (==→eq id q same), last, other) refl
    | inr apart ↦ rw apart refl
  ]

  no_page :
      (id q : PageId) (image : Bytes) (old : Option Page)
      → (id == 0) ≡ true
      → lookup id images ≡ some image
      → old ≡ (if id == q then over (as_page q (lookup q images)) old else old)
  unfolding as_page
  no_page id q image old zeroth last = elim (Bool-cases (id == q)) [
    | inl same ↦ rw (same, sym (==→eq id q same), last, zeroth) refl
    | inr apart ↦ rw apart refl
  ]

  pub recover_pages-Recovering :
      (r : Recovered) (m : Map ℕ) (h : DatabaseHeader)
      → All (IsLast content images) m
      → header_after images r m ≡ ok h
      → Recovering r m h
  unfolding recover_pages keys contains header_after with_header last_header
  recover_pages-Recovering r [] h all header = record {
    result = r;
    returned = refl;
    header = ok_lem header;
    pages = λ q. refl;
  }
    where
      ok_lem : {a b : DatabaseHeader} → ok a ≡ ok b → a ≡ b
      ok_lem e = cc e
  recover_pages-Recovering r ((id, offset) ∷ m) h ((image, last, held), all) header =
      elim (Bool-cases (id == 0)) [
        | inl zeroth ↦
            let at_zero : lookup 0 images ≡ some image =
              ap (λ k. lookup k images) (sym (==→eq id 0 zeroth)) ∙ last in
            let decoded : DatabaseHeader.decode image ≡ ok h =
              (rw (zeroth, at_zero) refl) ∙ header in
            let r1 : Recovered = record r { header = h } in
            step r r1 id offset m h
              (recover_page-holds r id offset image held ∙ rw (zeroth, decoded) refl)
              (λ q. no_page id q image (lookup q r.pages) zeroth last)
              (recover_pages-Recovering r1 m h all
                (if-both (λ x. x ≡ ok h) (contains 0 (keys m)) (rw at_zero decoded) refl))
        | inr other ↦
            let page : Page = record { id = id; contents = image } in
            let r1 : Recovered = record r { pages = insert id page r.pages } in
            step r r1 id offset m h (recover_page-holds r id offset image held ∙ rw other refl)
              (λ q.
                lookup-insert id q page r.pages
                ∙ data_page id q image (lookup q r.pages) other last)
              (recover_pages-Recovering r1 m h all (sym (rw other refl) ∙ header))
      ]
