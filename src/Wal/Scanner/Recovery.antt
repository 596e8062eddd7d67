-- ===== src/Wal/Scanner/Recovery.antt =====
-- Recovery after a crash: a scan (src/wal/WalScanner.cpp) of a log of committed transactions whose
-- last transaction may have been cut off at any byte.
use dan_db.Prelude.{
  ℕ, ◌+◌, ◌*◌, ◌^◌, ◌≤◌, ◌<◌, ◌≡◌, refl, sym, ap, subst, ◌∙◌, not, Option, none, some, List, [],
  ◌∷◌, ◌++◌, append_assoc, arith, ◌==◌, length, take, slice, length-append, All, slice-append_right,
  slice-append_left, ==→eq, Bool-cases, inl, inr, length-take_le,
}
use dan_db.Prelude.Map.{Map, insert, lookup, lookup-insert}
use dan_db.Core.Status.{Result, ok}
use dan_db.Core.Bytes.{Bytes}
use dan_db.Storage.Page.{Page}
use dan_db.Wal.Header.Layout as HeaderLayout
use dan_db.Wal.PageFrame
use dan_db.Wal.PageFrame.{WalPageFrame}
use dan_db.Wal.PageFrame.Layout as FrameLayout
use dan_db.Wal.PageFrame.Decoding as FrameDecoding
use dan_db.Wal.CommitRecord.Layout as CommitLayout
use dan_db.Wal.Scanner.{WalScanResult, scan}
use dan_db.Wal.Scanner.Collect.{frame_of-FitsWords}
use dan_db.Wal.Scanner.Log.{
  Transaction, frame_of, commit_of, frames_bytes, transaction_bytes, log_bytes, IsPage,
  IsTransaction, record_offsets, last_offsets, length-transaction_bytes, write_images, last_images,
}
use dan_db.Wal.Scanner.Crash.{header_of, crashed_log, committed_part, lookup-empty, scan_crashed}

module _ (content : Bytes) where
  -- `offset` is that of an intact frame of the page, with the image.
  pub record HoldsImage (page_id : ℕ) (image : Bytes) (offset : ℕ) : Type 0 where
    pub frame : WalPageFrame
    pub intact : PageFrame.decode (slice offset 4136 content) ≡ ok frame
    pub of_page : frame.page_id ≡ page_id
    pub holds : frame.page_image ≡ image

  -- A scan has an offset for the page exactly when the page was written, and it leads to the image.
  abbrev pub Recovers : ℕ → Option ℕ → Option Bytes → Type 0
  Recovers page_id none none = Unit {0}
  Recovers page_id none (some image) = ⊥
  Recovers page_id (some offset) none = ⊥
  Recovers page_id (some offset) (some image) = HoldsImage page_id image offset

  abbrev AllRecover : Map ℕ → Map Bytes → Type 0
  AllRecover m images = (page_id : ℕ) → Recovers page_id (lookup page_id m) (lookup page_id images)

  insert-AllRecover :
      (m : Map ℕ) (images : Map Bytes) (page_id offset : ℕ) (image : Bytes)
      → HoldsImage page_id image offset
      → AllRecover m images
      → AllRecover (insert page_id offset m) (insert page_id image images)
  insert-AllRecover m images page_id offset image h a q =
      rw (lookup-insert page_id q offset m, lookup-insert page_id q image images)
        (elim (Bool-cases (page_id == q)) [
          | inl same ↦
              rw same (subst (λ (x : ℕ). HoldsImage x image offset) (==→eq page_id q same) h)
          | inr other ↦ rw other (a q)
        ])

  record_offsets-AllRecover :
      (t : ℕ) (ps : List Page) (m : Map ℕ) (images : Map Bytes) (offset : ℕ) (front back : Bytes)
      → content ≡ front ++ (frames_bytes t ps ++ back)
      → length front ≡ offset
      → t < 2 ^ 64
      → All IsPage ps
      → AllRecover m images
      → AllRecover (record_offsets offset ps m) (write_images ps images)
  unfolding frames_bytes record_offsets write_images
  record_offsets-AllRecover t [] m images offset front back e hf ht v a = a
  record_offsets-AllRecover t (p ∷ ps) m images offset front back e hf ht v a =
      let f = frame_of t p in
      let first = FrameLayout.layout f in
      let size : length first ≡ 4136 = FrameLayout.length-layout f v.0.size in
      let split : content ≡ front ++ (first ++ (frames_bytes t ps ++ back)) =
        e ∙ ap (λ x. front ++ x) (append_assoc first (frames_bytes t ps) back) in
      let here : slice offset 4136 content ≡ first =
        ap (slice offset 4136) split
        ∙ slice-append_right front _ 0 offset 4136 (omega arith)
        ∙ slice-append_left first _ 4136 size in
      let held : HoldsImage p.id p.contents offset = record {
        frame = f;
        intact =
            ap PageFrame.decode here
            ∙ FrameDecoding.decode-layout f (frame_of-FitsWords t p ht v.0);
        of_page = refl;
        holds = refl;
      } in
      record_offsets-AllRecover t ps (insert p.id offset m) (insert p.id p.contents images)
        (offset + 4136) (front ++ first) back
        (split ∙ sym (append_assoc front first (frames_bytes t ps ++ back)))
        (omega (arith, length-append front first)) ht v.1
        (insert-AllRecover m images p.id offset p.contents held a)

  last_offsets-AllRecover :
      (ts : List Transaction) (m : Map ℕ) (images : Map Bytes) (offset : ℕ) (front back : Bytes)
      → content ≡ front ++ (log_bytes ts ++ back)
      → length front ≡ offset
      → All IsTransaction ts
      → AllRecover m images
      → AllRecover (last_offsets offset ts m) (last_images ts images)
  unfolding log_bytes last_offsets last_images transaction_bytes
  last_offsets-AllRecover [] m images offset front back e hf v a = a
  last_offsets-AllRecover (t ∷ ts) m images offset front back e hf v a =
      let bytes = transaction_bytes t in
      let split : content ≡ front ++ (bytes ++ (log_bytes ts ++ back)) =
        e ∙ ap (λ x. front ++ x) (append_assoc bytes (log_bytes ts) back) in
      let frames = frames_bytes t.transaction_id t.pages in
      let last = CommitLayout.layout (commit_of t.transaction_id (length t.pages)) in
      last_offsets-AllRecover ts (record_offsets offset t.pages m) (write_images t.pages images)
        (offset + (4136 * length t.pages + 32)) (front ++ bytes) back
        (split ∙ sym (append_assoc front bytes (log_bytes ts ++ back)))
        (omega (arith, length-append front bytes, length-transaction_bytes t v.0)) v.1
        (record_offsets-AllRecover t.transaction_id t.pages m images offset front
          (last ++ (log_bytes ts ++ back))
          (split ∙ ap (λ x. front ++ x) (append_assoc frames last (log_bytes ts ++ back))) hf
          v.0.transaction_id v.0.pages a)

-- Durability and atomicity: take a log of transactions, each of pages whose ids and bytes are in
-- range, of which a crash cut the last one off before its end, at any byte. Over reads that succeed
-- inside the file, a scan succeeds. It reports as valid exactly the header and the committed transactions, it says that
-- bytes are ignored exactly when some of the last transaction were written, and it leads from each
-- page to the image that the committed transactions wrote last, and from no other page anywhere.
pub crash_recovery :
    (id : ℕ) (ts : List Transaction) (t : Transaction) (j : ℕ) (read_at : ℕ → ℕ → Result Bytes)
    → ((offset n : ℕ)
        → offset + n ≤ length (crashed_log id ts t j)
        → read_at offset n ≡ ok (slice offset n (crashed_log id ts t j)))
    → id < 2 ^ 64
    → All IsTransaction ts
    → IsTransaction t
    → j < length (transaction_bytes t)
    → (r : WalScanResult) × (scan read_at (length (crashed_log id ts t j)) id ≡ some (ok r))
      × (r.valid_wal_end_offset ≡ 64 + length (log_bytes ts))
      × (r.ignored_trailing_bytes ≡ not (j == 0))
      × ((page_id : ℕ)
          → Recovers
              (crashed_log id ts t j)
              page_id
              (lookup page_id r.latest_committed_frame_offsets)
              (lookup page_id (last_images ts [])))
crash_recovery id ts t j read_at reads h v w hj =
    let content = crashed_log id ts t j in
    let header = HeaderLayout.layout (header_of id) in
    let tail = take j (transaction_bytes t) in
    let total : length content ≡ 64 + length (log_bytes ts) + j = omega (
      arith,
      length-append header (log_bytes ts ++ tail),
      length-append (log_bytes ts) tail,
      HeaderLayout.length-layout (header_of id),
      length-take_le j (transaction_bytes t),
    ) in
    (
      committed_part ts (length content),
      scan_crashed content read_at reads id ts t j refl h v w hj,
      refl,
      rw total (ground arith),
      last_offsets-AllRecover content ts [] [] 64 header tail refl
          (HeaderLayout.length-layout (header_of id)) v
          (λ p. rw (lookup-empty p, lookup-empty {V = Bytes} p) tt),
    )
