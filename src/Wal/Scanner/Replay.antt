-- ===== src/Wal/Scanner/Replay.antt =====
-- The scan of src/wal/WalScanner.cpp over whole transactions and over one that is cut short.
use native.Mathlib.Decide.{dec_lt}
use dan_db.Prelude.{
  ℕ, ◌+◌, ◌-◌, ◌*◌, ◌^◌, ◌≤◌, ◌<◌, ◌≡◌, refl, sym, ap, ◌∙◌, inl, inr, Option, some, List, [], ◌∷◌,
  ◌++◌, append_assoc, arith, length, take, slice, length-append, take-append_short,
  take-append_long, All,
}
use dan_db.Prelude.Map.{Map}
use dan_db.Core.Status.{Result, ok}
use dan_db.Core.Bytes.{Bytes}
use dan_db.Storage.Page.{Page}
use dan_db.Wal.PageFrame.Layout as FrameLayout
use dan_db.Wal.CommitRecord.Layout as CommitLayout
use dan_db.Wal.Scanner.{Scan, push_frame}
use dan_db.Wal.Scanner.Intact.{run, frame_step, commit_step, torn_stop}
use dan_db.Wal.Scanner.Log.{
  Transaction, frame_of, commit_of, frames_bytes, transaction_bytes, IsPage, IsTransaction,
  record_offsets, length-frames_bytes,
}
use dan_db.Wal.Scanner.Collect.{
  settled, collect, Accepts, push_frame-offset, push_frame-latest, push_frame-valid,
  push_frame-Accepts, on_page_frame-Accepts, frame_of-FitsWords, settled_offset, collect_offset,
  collect_undamaged, commit_collected, settled-Accepts,
}

module _ (content : Bytes) (read_at : ℕ → ℕ → Result Bytes)
    (reads : (offset n : ℕ)
      → offset + n ≤ length content
      → read_at offset n ≡ ok (slice offset n content)) where
  abbrev go : Scan → Option (Result Scan)
  go s = run content read_at reads s

  frames_run :
      (t : ℕ) (ps : List Page) (s : Scan) (front back : Bytes)
      → content ≡ front ++ (frames_bytes t ps ++ back)
      → length front ≡ s.offset
      → Accepts s t
      → t < 2 ^ 64
      → All IsPage ps
      → go s ≡ go (collect t ps s)
  unfolding frames_bytes collect Accepts
  frames_run t [] s front back e hf a ht v = refl
  frames_run t (p ∷ ps) s front back e hf a ht v =
      let first = FrameLayout.layout (frame_of t p) in
      let split : content ≡ front ++ (first ++ (frames_bytes t ps ++ back)) =
        e ∙ ap (λ x. front ++ x) (append_assoc first (frames_bytes t ps) back) in
      frame_step content read_at reads s (push_frame s t p.id) (frame_of t p) front
        (frames_bytes t ps ++ back) split hf a.0 (frame_of-FitsWords t p ht v.0)
        (on_page_frame-Accepts s t p a)
      ∙ frames_run t ps (push_frame s t p.id) (front ++ first) back
          (split ∙ sym (append_assoc front first (frames_bytes t ps ++ back)))
          (omega (
            arith,
            length-append front first,
            FrameLayout.length-layout (frame_of t p) v.0.size,
            push_frame-offset s t p.id,
          ))
          (push_frame-Accepts s t p.id a) ht v.1

  -- A whole transaction publishes its pages, and a scan goes on behind its commit record.
  pub transaction_run :
      (tx : Transaction) (m : Map ℕ) (offset : ℕ) (front back : Bytes)
      → content ≡ front ++ (transaction_bytes tx ++ back)
      → length front ≡ offset
      → IsTransaction tx
      → go (settled m offset)
        ≡ go (settled (record_offsets offset tx.pages m) (offset + (4136 * length tx.pages + 32)))
  unfolding transaction_bytes
  transaction_run tx m offset front back e hf v =
      let t = tx.transaction_id in
      let frames = frames_bytes t tx.pages in
      let c = commit_of t (length tx.pages) in
      let last = CommitLayout.layout c in
      let s = settled m offset in
      let u = collect t tx.pages s in
      let split : content ≡ front ++ (frames ++ (last ++ back)) =
        e ∙ ap (λ x. front ++ x) (append_assoc frames last back) in
      frames_run t tx.pages s front (last ++ back) split (settled_offset m offset hf)
        (settled-Accepts m offset t) v.transaction_id v.pages
      ∙ commit_step content read_at reads u
          (settled (record_offsets offset tx.pages m) (offset + (4136 * length tx.pages + 32))) c
          (front ++ frames) back (split ∙ sym (append_assoc front frames (last ++ back)))
          (omega (
            arith,
            length-append front frames,
            length-frames_bytes t tx.pages v.pages,
            collect_offset m offset t tx.pages,
          ))
          (collect_undamaged m offset t tx.pages) (v.transaction_id, v.frame_count)
          (commit_collected m offset t tx.pages)

  -- Of a transaction whose bytes end early a scan publishes nothing.
  pub torn_run :
      (t : ℕ) (ps : List Page) (n j : ℕ) (s : Scan) (front : Bytes)
      → content ≡ front ++ take j (frames_bytes t ps ++ CommitLayout.layout (commit_of t n))
      → length front ≡ s.offset
      → j < length (frames_bytes t ps ++ CommitLayout.layout (commit_of t n))
      → Accepts s t
      → t < 2 ^ 64
      → All IsPage ps
      → (u : Scan) × (go s ≡ some (ok u))
        × (u.latest ≡ s.latest)
        × (u.valid_wal_end_offset ≡ s.valid_wal_end_offset)
  unfolding frames_bytes Accepts
  torn_run t [] n j s front e hf hj a ht v =
      let c = commit_of t n in
      (
        s,
        torn_stop content read_at reads s 2 j 32 (CommitLayout.layout c) (CommitLayout.after_type c)
            front (inr (refl, refl)) (CommitLayout.layout-after_type c)
            (CommitLayout.length-layout c) (omega (arith, CommitLayout.length-layout c)) e hf,
        refl,
        refl,
      )
  torn_run t (p ∷ ps) n j s front e hf hj a ht v =
      let f = frame_of t p in
      let first = FrameLayout.layout f in
      let size : length first ≡ 4136 = FrameLayout.length-layout f v.0.size in
      let rest = frames_bytes t ps ++ CommitLayout.layout (commit_of t n) in
      let whole : (first ++ frames_bytes t ps) ++ CommitLayout.layout (commit_of t n)
          ≡ first ++ rest =
        append_assoc first (frames_bytes t ps) _ in
      let e' : content ≡ front ++ take j (first ++ rest) = e ∙ ap (λ x. front ++ take j x) whole in
      elim (dec_lt j 4136) [
        | yes short ↦ (
          s,
          torn_stop content read_at reads s 1 j 4136 first (FrameLayout.after_type f) front
              (inl (refl, refl)) (FrameLayout.layout-after_type f) size short
              (e' ∙ ap (λ x. front ++ x) (take-append_short j first rest (omega arith))) hf,
          refl,
          refl,
        )
        | no enough ↦
            let k = j - 4136 in
            let split : content ≡ front ++ (first ++ take k rest) =
              e' ∙ ap (λ x. front ++ x) (take-append_long j k first rest (omega arith)) in
            let (u, r, l, o) =
              torn_run t ps n k (push_frame s t p.id) (front ++ first)
                (split ∙ sym (append_assoc front first (take k rest)))
                (omega (arith, length-append front first, push_frame-offset s t p.id))
                (omega (arith, ap length whole, length-append first rest))
                (push_frame-Accepts s t p.id a) ht v.1 in
            (
              u,
              frame_step content read_at reads s (push_frame s t p.id) f front (take k rest) split
                    hf a.0 (frame_of-FitsWords t p ht v.0) (on_page_frame-Accepts s t p a)
                  ∙ r,
              l ∙ push_frame-latest s t p.id,
              o ∙ push_frame-valid s t p.id,
            )
      ]
