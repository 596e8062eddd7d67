-- ===== src/Wal/Manager/Resetting.antt =====
-- WalManager::reset (src/wal/WalManager.cpp), over a file that works.
use dan_db.Prelude.{
  ℕ, ◌+◌, ◌≤◌, ◌≡◌, refl, sym, ap, ◌∙◌, [], ◌∷◌, ◌++◌, append-nil, length, take, drop, replicate,
  length-replicate, length-take_le, length-drop, arith,
}
use dan_db.Prelude.Overwrite.{overwrite}
use dan_db.Core.Status.{ok}
use dan_db.Core.Bytes.{Bytes}
use dan_db.Platform.File.{FileOps, FileLaws, PageFileLaws, Works}
use dan_db.Wal.Header.Layout as HeaderLayout
use dan_db.Wal.Scanner.Crash.{header_of}
use dan_db.Wal.Scanner.Log.{log_bytes}
use dan_db.Wal.Manager.{
  WalManager, Outcome, reset, reset_encoded, reset_resized, reset_written, sync,
}
use dan_db.Wal.Manager.Opening.{committed_log}

-- Bytes in the place of as many.
overwrite-all : (new old : Bytes) → length old ≡ length new → overwrite 0 new old ≡ new
unfolding overwrite take
overwrite-all new old e =
    ap (λ t. new ++ t) (drop_all (0 + length new) old (omega (arith, e))) ∙ append-nil new
  where
    none_left : (xs : Bytes) → length xs ≡ 0 → xs ≡ []
    none_left [] k = refl
    none_left (x ∷ xs) k = absurd (omega (arith, k))

    drop_all : (n : ℕ) (xs : Bytes) → length xs ≤ n → drop n xs ≡ []
    drop_all n xs h = none_left (drop n xs) (omega (arith, h, length-drop n xs))

module _ {Disk : Type 0} (ops : FileOps Disk) (content : Disk → Bytes) (laws : FileLaws ops content)
    (random : PageFileLaws ops content) (works : Works ops content) where
  -- What is left of a log: its header, with the manager behind it.
  pub record IsReset (m : WalManager Disk) (o : Outcome ops) : Type 0 where
    pub done : o.0 ≡ ok tt
    pub empty : content o.1.file_handle ≡ committed_log m.database_id []
    pub at_end : o.1.append_offset ≡ length (committed_log m.database_id [])
    pub same_database : o.1.database_id ≡ m.database_id

  module _ (m : WalManager Disk) (size : 64 ≤ length (content m.file_handle)) where
    abbrev header : Bytes
    header = HeaderLayout.layout (header_of m.database_id)

    abbrev cut : Disk
    cut = (ops.resize m.file_handle 64).1

    abbrev written : Disk
    written = (ops.write_at cut 0 header).1

    cut_size : length (content cut) ≡ length header
    cut_size =
        ap length (
          laws.resize_lem m.file_handle cut 64 size
            (λ i. (works.cut_ok m.file_handle 64 size i, cut)))
        ∙ length-take_le 64 (content m.file_handle) size
        ∙ sym (HeaderLayout.length-layout (header_of m.database_id))

    written_content : content written ≡ header
    written_content =
        random.write_at_inside cut written 0 header (omega (arith, cut_size))
          (λ i. (works.write_at_ok cut 0 header (omega (arith, cut_size)) i, written))
        ∙ overwrite-all header (content cut) cut_size

    reset_lem :
        reset ops m
        ≡ sync ops
            (record { file_handle = written; append_offset = 64; database_id = m.database_id })
    unfolding reset reset_encoded reset_resized reset_written
    reset_lem =
        rw
          (HeaderLayout.encode_into-layout (header_of m.database_id) (replicate 64 0)
            (length-replicate 64 0))
          (rw (resized, wrote) refl)
      where
        resized : ops.resize m.file_handle 64 ≡ (ok tt, cut)
        resized = λ i. (works.cut_ok m.file_handle 64 size i, cut)

        wrote : ops.write_at cut 0 header ≡ (ok tt, written)
        wrote = λ i. (works.write_at_ok cut 0 header (omega (arith, cut_size)) i, written)

  -- Resetting a log of at least a header, over a file that works, succeeds and leaves the header of the same
  -- database and no transaction, with the manager ready to append behind it.
  pub reset-IsReset :
      (m : WalManager Disk) → 64 ≤ length (content m.file_handle) → IsReset m (reset ops m)
  unfolding sync log_bytes
  reset-IsReset m size = rw (reset_lem m size) (record {
    done = works.sync_ok (written m size);
    empty =
        laws.sync_lem (written m size) ∙ written_content m size ∙ sym (append-nil (header m size));
    at_end =
        sym (HeaderLayout.length-layout (header_of m.database_id))
        ∙ ap length (sym (append-nil (header m size)));
    same_database = refl;
  })
