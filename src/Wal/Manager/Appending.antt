-- ===== src/Wal/Manager/Appending.antt =====
-- What committing to the log does to the file (src/wal/WalManager.cpp), over the documented behaviour
-- of files and with failures at any operation.
use dan_db.Prelude.{
  ℕ, zero, ◌≤◌, ◌≡◌, refl, sym, ap, subst, ◌∙◌, Bool-cases, inl, inr, List, [], ◌∷◌, ◌++◌,
  append_assoc, append-nil, arith, length, take, drop, replicate, length-append, length-replicate,
  length-take_le, take-append-drop, take-append_left, take-append_short, All,
}
use native.Mathlib.Nat.{le_refl, le_trans}
use dan_db.Core.Status.{Result, ok, err, StatusCode, invalid_argument}
use dan_db.Core.Bytes.{Bytes}
use dan_db.Platform.File.{FileOps, FileLaws}
use dan_db.Storage.Page.{Page, is_valid}
use dan_db.Wal.PageFrame.Layout as FrameLayout
use dan_db.Wal.CommitRecord.Layout as CommitLayout
use dan_db.Wal.Scanner.Log.{Transaction, frame_of, commit_of, frames_bytes, transaction_bytes}
use dan_db.Wal.Manager.{
  WalManager, Outcome, and_then, append_written, append_encoded, append_page_frame, append_commit,
  sync, append_page_frames, commit_transaction,
}

-- The second file begins with the first.
abbrev pub Extends : Bytes → Bytes → Type 0
Extends c d = (length c ≤ length d) × (take (length c) d ≡ c)

Extends-refl : (c : Bytes) → Extends c c
Extends-refl c =
    (le_refl _, sym (ap (take (length c)) (append-nil c)) ∙ take-append_left c [] (length c) refl)

Extends-append : (c xs : Bytes) → Extends c (c ++ xs)
Extends-append c xs = (omega (arith, length-append c xs), take-append_left c xs (length c) refl)

take-Extends : (n : ℕ) (c d : Bytes) → n ≤ length c → Extends c d → take n d ≡ take n c
take-Extends n c d h e =
    ap (take n) (sym (take-append-drop (length c) d))
    ∙ take-append_short n (take (length c) d) (drop (length c) d)
        (omega (arith, length-take_le (length c) d e.0))
    ∙ ap (take n) e.1

Extends-trans : (a b c : Bytes) → Extends a b → Extends b c → Extends a c
Extends-trans a b c h k = (le_trans h.0 k.0, take-Extends (length a) b c h.0 k ∙ h.1)

module _ {Disk : Type 0} (ops : FileOps Disk) (content : Disk → Bytes)
    (laws : FileLaws ops content) where
  -- The log is open: the next record goes to the end of the file.
  abbrev pub IsOpen : WalManager Disk → Type 0
  IsOpen m = m.append_offset ≡ length (content m.file_handle)

  -- The records of `bytes` were appended, and the log is open again.
  pub record Appended (bytes : Bytes) (m m' : WalManager Disk) : Type 0 where
    pub written : content m'.file_handle ≡ content m.file_handle ++ bytes
    pub still_open : IsOpen m'
    pub same_database : m'.database_id ≡ m.database_id

  -- What each operation promises: on success the bytes are appended, and in any case the file begins
  -- with what it was.
  pub record Promise (bytes : Bytes) (m : WalManager Disk) (o : Outcome ops) : Type 0 where
    pub on_success : o.0 ≡ ok tt → Appended bytes m o.1
    pub in_any_case : Extends (content m.file_handle) (content o.1.file_handle)

  append_written-Promise :
      (m : WalManager Disk) (bytes : Bytes) (w : Result (Unit {0}) × Disk)
      → IsOpen m
      → ops.write_at m.file_handle m.append_offset bytes ≡ w
      → Promise bytes m (append_written ops m (length bytes) w)
  unfolding append_written
  append_written-Promise m bytes (err e, d) o h = record {
    on_success = λ x. absurd (cc x);
    in_any_case =
        let f = laws.write_at_failed m.file_handle d m.append_offset bytes e (omega arith) h in
        subst (λ (n : ℕ). (n ≤ length (content d)) × (take n (content d) ≡ content m.file_handle)) o
          (
            f.0,
            f.1
                ∙ ap (λ (n : ℕ). take n (content m.file_handle)) o
                ∙ (Extends-refl (content m.file_handle)).1,
          );
  }
  append_written-Promise m bytes (ok u, d) o h =
      let e = laws.write_at_end m.file_handle d bytes (rw o at h) in
      record {
        on_success = λ x. record {
          written = e;
          still_open = omega (arith, o, ap length e, length-append (content m.file_handle) bytes);
          same_database = refl;
        };
        in_any_case = rw e (Extends-append (content m.file_handle) bytes);
      }

  failed-Promise :
      (bytes : Bytes) (m : WalManager Disk) (e : StatusCode) → Promise bytes m (err e, m)
  failed-Promise bytes m e = record {
    on_success = λ x. absurd (cc x);
    in_any_case = Extends-refl (content m.file_handle);
  }

  append_encoded-Promise :
      (m : WalManager Disk) (size : ℕ) (bytes : Bytes) (r : Result Bytes)
      → IsOpen m
      → r ≡ ok bytes
      → length bytes ≡ size
      → Promise bytes m (append_encoded ops m size r)
  unfolding append_encoded
  append_encoded-Promise m size bytes r o e l =
      rw (e, append_encoded)
        (subst
          (λ (n : ℕ).
            Promise bytes m
              (append_written ops m n (ops.write_at m.file_handle m.append_offset bytes)))
          l (append_written-Promise m bytes _ o refl))

  append_page_frame-Promise :
      (m : WalManager Disk) (t : ℕ) (p : Page)
      → IsOpen m
      → length p.contents ≡ 4096
      → Promise (FrameLayout.layout (frame_of t p)) m (append_page_frame ops m t p)
  unfolding append_page_frame
  append_page_frame-Promise m t p o size = elim (Bool-cases (is_valid p.id)) [
    | inr invalid ↦ rw invalid (failed-Promise _ m invalid_argument)
    | inl valid ↦ rw valid (
        append_encoded-Promise m 4136 (FrameLayout.layout (frame_of t p)) _ o
          (FrameLayout.encode_into-layout (frame_of t p) (replicate 4136 0) size
            (length-replicate 4136 zero))
          (FrameLayout.length-layout (frame_of t p) size))
  ]

  append_commit-Promise :
      (m : WalManager Disk) (t n : ℕ)
      → IsOpen m
      → Promise (CommitLayout.layout (commit_of t n)) m (append_commit ops m t n)
  unfolding append_commit
  append_commit-Promise m t n o =
      append_encoded-Promise m 32 (CommitLayout.layout (commit_of t n)) _ o
        (CommitLayout.encode_into-layout (commit_of t n) (replicate 32 0)
          (length-replicate 32 zero))
        (CommitLayout.length-layout (commit_of t n))

  sync-Promise : (m : WalManager Disk) → IsOpen m → Promise [] m (sync ops m)
  unfolding sync
  sync-Promise m o =
      let same = laws.sync_lem m.file_handle in
      record {
        on_success = λ x. record {
          written = same ∙ sym (append-nil (content m.file_handle));
          still_open = o ∙ ap length (sym same);
          same_database = refl;
        };
        in_any_case = rw same (Extends-refl (content m.file_handle));
      }

  -- Two operations in a row, the second on the log that the first leaves open.
  and_then-Promise :
      (xs ys : Bytes) (m : WalManager Disk) (o : Outcome ops) (f : WalManager Disk → Outcome ops)
      → Promise xs m o
      → ((m' : WalManager Disk) → IsOpen m' → Promise ys m' (f m'))
      → Promise (xs ++ ys) m (and_then ops o f)
  unfolding and_then
  and_then-Promise xs ys m (err e, m') f p q = record {
    on_success = λ x. absurd (cc x);
    in_any_case = p.in_any_case;
  }
  and_then-Promise xs ys m (ok u, m') f p q =
      let a = p.on_success refl in
      let b = q m' a.still_open in
      record {
        on_success = λ x.
            let c = b.on_success x in
            record {
              written =
                  c.written
                  ∙ ap (λ t. t ++ ys) a.written
                  ∙ append_assoc (content m.file_handle) xs ys;
              still_open = c.still_open;
              same_database = c.same_database ∙ a.same_database;
            };
        in_any_case = Extends-trans _ _ _ p.in_any_case b.in_any_case;
      }

  append_page_frames-Promise :
      (m : WalManager Disk) (t : ℕ) (ps : List Page)
      → IsOpen m
      → All (λ p. length p.contents ≡ 4096) ps
      → Promise (frames_bytes t ps) m (append_page_frames ops m t ps)
  unfolding append_page_frames frames_bytes
  append_page_frames-Promise m t [] o v = record {
    on_success = λ x. record {
      written = sym (append-nil (content m.file_handle));
      still_open = o;
      same_database = refl;
    };
    in_any_case = Extends-refl (content m.file_handle);
  }
  append_page_frames-Promise m t (p ∷ ps) o v =
      and_then-Promise _ _ m _ _ (append_page_frame-Promise m t p o v.0)
        (λ m' o'. append_page_frames-Promise m' t ps o' v.1)

-- Committing pages of 4096 bytes to an open log, over a file that behaves as documented and whose
-- operations may fail at any step: if it succeeds, the file is what
-- it was and the bytes of the transaction, and the log is open for the next one; whether it succeeds
-- or fails at any step, the file begins with what it was.
pub commit_transaction-Promise :
    {Disk : Type 0} (ops : FileOps Disk) (content : Disk → Bytes) (m : WalManager Disk)
    (t : Transaction) (laws : FileLaws ops content)
    → IsOpen ops content laws m
    → All (λ p. length p.contents ≡ 4096) t.pages
    → Promise ops content laws
        (transaction_bytes t)
        m
        (commit_transaction ops m t.transaction_id t.pages)
unfolding commit_transaction transaction_bytes
commit_transaction-Promise ops content m t laws o v =
    and_then-Promise ops content laws _ _ m _ _
      (append_page_frames-Promise ops content laws m t.transaction_id t.pages o v)
      (λ m' o'.
        rw (← append-nil (CommitLayout.layout (commit_of t.transaction_id (length t.pages)))) (
          and_then-Promise ops content laws _ [] m' _ _
            (append_commit-Promise ops content laws m' t.transaction_id (length t.pages) o')
            (λ m'' o''. sync-Promise ops content laws m'' o'')))
