-- ===== src/Wal/Scanner/Crash.antt =====
-- The scan (src/wal/WalScanner.cpp) of a log whose last transaction a crash cut short.
use dan_db.Prelude.{
  ℕ, suc, ◌+◌, ◌*◌, ◌^◌, ◌≤◌, ◌<◌, ◌≡◌, refl, sym, ap, ◌∙◌, not, Option, none, some, List, [], ◌∷◌,
  ◌++◌, append_assoc, arith, ◌==◌, length, take, slice, length-append, All, slice-append_left,
}
use dan_db.Prelude.Map.{Map, lookup}
use dan_db.Core.Status.{Result, ok}
use dan_db.Core.Bytes.{Bytes}
use dan_db.Wal.Header.{WalHeader}
use dan_db.Wal.Header.Layout as HeaderLayout
use dan_db.Wal.Header.Decoding as HeaderDecoding
use dan_db.Wal.Scanner.{WalScanResult, Scan, start, scan, scan_loop, check_header, finish}
use dan_db.Wal.Scanner.Rounds.{scan-ok}
use dan_db.Wal.Scanner.Replay.{transaction_run, torn_run}
use dan_db.Wal.Scanner.Collect.{settled, settled-Accepts}
use dan_db.Wal.Scanner.Log.{
  Transaction, transaction_bytes, log_bytes, IsTransaction, record_offsets, last_offsets,
  length-transaction_bytes,
}

abbrev pub header_of : ℕ → WalHeader
header_of id = record { database_id = id }

-- A log of `ts`, and the first `j` bytes of a further transaction.
abbrev pub crashed_log : ℕ → List Transaction → Transaction → ℕ → Bytes
crashed_log id ts t j =
    HeaderLayout.layout (header_of id) ++ (log_bytes ts ++ take j (transaction_bytes t))

-- What a scan of it reports.
abbrev pub committed_part : List Transaction → ℕ → WalScanResult
committed_part ts file_size = record {
  latest_committed_frame_offsets = last_offsets 64 ts [];
  valid_wal_end_offset = 64 + length (log_bytes ts);
  ignored_trailing_bytes = not (64 + length (log_bytes ts) == file_size);
}

start-settled :
    (size : ℕ) (read_at : ℕ → ℕ → Result Bytes)
    → scan_loop read_at size (suc size) start ≡ scan_loop read_at size (suc size) (settled [] 64)
unfolding settled
start-settled size read_at = refl

settled_offset : (m : Map ℕ) (offset : ℕ) {n : ℕ} → n ≡ offset → n ≡ (settled m offset).offset
unfolding settled
settled_offset m offset e = e

finish-settled :
    (size : ℕ) (u : Scan) (m : Map ℕ) (offset : ℕ)
    → u.latest ≡ (settled m offset).latest
    → u.valid_wal_end_offset ≡ (settled m offset).valid_wal_end_offset
    → finish size u ≡ record {
      latest_committed_frame_offsets = m;
      valid_wal_end_offset = offset;
      ignored_trailing_bytes = not (offset == size);
    }
unfolding settled finish
finish-settled size u m offset l o = λ i. record {
  latest_committed_frame_offsets = l i;
  valid_wal_end_offset = o i;
  ignored_trailing_bytes = not (o i == size);
}

pub lookup-empty : {V : Type 0} (k : ℕ) → lookup {V = V} k [] ≡ none
unfolding lookup
lookup-empty k = refl

module _ (content : Bytes) (read_at : ℕ → ℕ → Result Bytes)
    (reads : (offset n : ℕ)
      → offset + n ≤ length content
      → read_at offset n ≡ ok (slice offset n content)) where
  abbrev go : Scan → Option (Result Scan)
  go s = scan_loop read_at (length content) (suc (length content)) s

  log_run :
      (ts : List Transaction) (m : Map ℕ) (offset : ℕ) (front back : Bytes)
      → content ≡ front ++ (log_bytes ts ++ back)
      → length front ≡ offset
      → All IsTransaction ts
      → go (settled m offset)
        ≡ go (settled (last_offsets offset ts m) (offset + length (log_bytes ts)))
  unfolding log_bytes last_offsets
  log_run [] m offset front back e hf v = ap (λ (n : ℕ). go (settled m n)) (omega arith)
  log_run (t ∷ ts) m offset front back e hf v =
      let bytes = transaction_bytes t in
      let split : content ≡ front ++ (bytes ++ (log_bytes ts ++ back)) =
        e ∙ ap (λ x. front ++ x) (append_assoc bytes (log_bytes ts) back) in
      let size = length-transaction_bytes t v.0 in
      transaction_run content read_at reads t m offset front (log_bytes ts ++ back) split hf v.0
      ∙ log_run ts (record_offsets offset t.pages m) (offset + (4136 * length t.pages + 32))
          (front ++ bytes) back (split ∙ sym (append_assoc front bytes (log_bytes ts ++ back)))
          (omega (arith, length-append front bytes)) v.1
      ∙ ap
          (λ (n : ℕ). go (
            settled
              (last_offsets (offset + (4136 * length t.pages + 32)) ts
                (record_offsets offset t.pages m))
              n))
          (omega (arith, length-append bytes (log_bytes ts)))

  check_header-ok :
      (id : ℕ) (back : Bytes)
      → content ≡ HeaderLayout.layout (header_of id) ++ back
      → id < 2 ^ 64
      → check_header read_at (length content) id ≡ ok tt
  unfolding check_header
  check_header-ok id back e h =
      let header = HeaderLayout.layout (header_of id) in
      let size = HeaderLayout.length-layout (header_of id) in
      let total = ap length e ∙ length-append header back in
      let here : read_at 0 64 ≡ ok header =
        reads 0 64 (omega (arith, total))
        ∙ ap ok (ap (slice 0 64) e ∙ slice-append_left header back 64 size) in
      ground (arith, total, size, here, HeaderDecoding.decode-layout (header_of id) h)

  pub scan_crashed :
      (id : ℕ) (ts : List Transaction) (t : Transaction) (j : ℕ)
      → content ≡ crashed_log id ts t j
      → id < 2 ^ 64
      → All IsTransaction ts
      → IsTransaction t
      → j < length (transaction_bytes t)
      → scan read_at (length content) id ≡ some (ok (committed_part ts (length content)))
  unfolding transaction_bytes finish
  scan_crashed id ts t j e h v w hj =
      let header = HeaderLayout.layout (header_of id) in
      let size : length header ≡ 64 = HeaderLayout.length-layout (header_of id) in
      let tail = take j (transaction_bytes t) in
      let s = settled (last_offsets 64 ts []) (64 + length (log_bytes ts)) in
      let (u, r, l, o) =
        torn_run content read_at reads t.transaction_id t.pages (length t.pages) j s
          (header ++ log_bytes ts) (e ∙ sym (append_assoc header (log_bytes ts) tail))
          (settled_offset _ _ (omega (arith, length-append header (log_bytes ts)))) hj
          (settled-Accepts _ _ t.transaction_id) w.transaction_id w.pages in
      scan-ok read_at (length content) id (ok u) (check_header-ok id (log_bytes ts ++ tail) e h)
        (start-settled (length content) read_at ∙ log_run ts [] 64 header tail e size v ∙ r)
      ∙ ap (λ x. some (ok x)) (finish-settled (length content) u _ _ l o)
