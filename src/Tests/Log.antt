-- ===== src/Tests/Log.antt =====
-- Logs of src/wal at concrete inputs: a database whose log holds one committed transaction of two
-- pages, and a crash 5000 bytes into the next one.
use dan_db.Prelude.{
  ℕ, ◌+◌, ◌≡◌, refl, not, ◌==◌, ◌≤◌, ◌<◌, ◌↔◌, true, some, [], ◌∷◌, arith, length, replicate,
  length-replicate, slice,
}
use dan_db.Prelude.Map.{lookup}
use dan_db.Core.Status.{Result, ok}
use dan_db.Core.Bytes.{Bytes, IsBytes-replicate}
use dan_db.Platform.File.{memory, memory-FileLaws, memory-read_at, memory-Works}
use dan_db.Wal.Scanner.{WalScanResult, scan}
use dan_db.Wal.Scanner.Rounds.{scan_total}
use dan_db.Wal.Scanner.Soundness.{CommittedAt, scan_sound}
use dan_db.Wal.Scanner.Log.{
  Transaction, IsTransaction, transaction_bytes, log_bytes, last_images, length-transaction_bytes,
}
use dan_db.Wal.Scanner.Crash.{crashed_log, committed_part, scan_crashed}
use dan_db.Wal.Scanner.Recovery.{Recovers, crash_recovery}
use dan_db.Wal.Manager.{WalManager, open_or_create, commit_transaction}
use dan_db.Wal.Manager.Committing.{Writes, commit_transaction-commits}
use dan_db.Wal.Manager.Appending.{Promise, Appended, commit_transaction-Promise}
use dan_db.Wal.Manager.Opening.{IsHealthy, OpensWith, committed_log, open_or_create-recovers}

abbrev pub zeros : Bytes
zeros = replicate 4096 0

abbrev pub committed : Transaction
committed = record {
  transaction_id = 1;
  pages = record { id = 1; contents = zeros } ∷ record { id = 2; contents = zeros } ∷ [];
}

abbrev pub interrupted : Transaction
interrupted = record {
  transaction_id = 2;
  pages = record { id = 1; contents = zeros } ∷ record { id = 3; contents = zeros } ∷ [];
}

pub committed-IsTransaction : IsTransaction committed
committed-IsTransaction = record {
  transaction_id = omega arith;
  frame_count = omega arith;
  pages = (
    record { id = omega arith; size = length-replicate 4096 0; bytes = IsBytes-replicate 4096 },
    (
      record { id = omega arith; size = length-replicate 4096 0; bytes = IsBytes-replicate 4096 },
      tt,
    ),
  );
}

pub interrupted-IsTransaction : IsTransaction interrupted
interrupted-IsTransaction = record {
  transaction_id = omega arith;
  frame_count = omega arith;
  pages = (
    record { id = omega arith; size = length-replicate 4096 0; bytes = IsBytes-replicate 4096 },
    (
      record { id = omega arith; size = length-replicate 4096 0; bytes = IsBytes-replicate 4096 },
      tt,
    ),
  );
}

pub cut_inside : 5000 < length (transaction_bytes interrupted)
cut_inside = omega (arith, length-transaction_bytes interrupted interrupted-IsTransaction)

abbrev pub crashed : Bytes
crashed = crashed_log 7 (committed ∷ []) interrupted 5000

crash_recovery_example :
    (r : WalScanResult) × (scan (memory.read_at crashed) (length crashed) 7 ≡ some (ok r))
    × (r.valid_wal_end_offset ≡ 64 + length (log_bytes (committed ∷ [])))
    × (r.ignored_trailing_bytes ≡ not (5000 == 0))
    × ((page_id : ℕ)
        → Recovers crashed page_id
            (lookup page_id r.latest_committed_frame_offsets)
            (lookup page_id (last_images (committed ∷ []) [])))
crash_recovery_example =
    crash_recovery 7 (committed ∷ []) interrupted 5000 (memory.read_at crashed)
      (memory-read_at crashed) (omega arith) (committed-IsTransaction, tt) interrupted-IsTransaction
      cut_inside

memory-IsHealthy : (d : Bytes) → IsHealthy memory (λ d'. d') d
unfolding memory
memory-IsHealthy d = record {
  size_ok = refl;
  read_at_ok = memory-read_at d;
  cut_ok = memory-Works.cut_ok d;
  sync_ok = λ d'. refl;
}

open_or_create-recovers_example :
    (o : Result (WalManager Bytes) × Bytes) × (open_or_create memory crashed 7 ≡ some o)
    × OpensWith memory (λ d. d) memory-FileLaws (committed_log 7 (committed ∷ [])) 7 o
open_or_create-recovers_example =
    open_or_create-recovers memory (λ d. d) memory-FileLaws crashed 7 (committed ∷ []) interrupted
      5000 refl (memory-IsHealthy crashed) (omega arith) (committed-IsTransaction, tt)
      interrupted-IsTransaction cut_inside

reads_back :
    (offset n : ℕ) (bytes : Bytes)
    → memory.read_at crashed offset n ≡ ok bytes
    → bytes ≡ slice offset n crashed
reads_back offset n bytes h = memory-FileLaws.read_at_lem crashed offset n bytes h

scanned :
    scan (memory.read_at crashed) (length crashed) 7
    ≡ some (ok (committed_part (committed ∷ []) (length crashed)))
scanned =
    scan_crashed crashed (memory.read_at crashed) (memory-read_at crashed) 7 (committed ∷ [])
      interrupted 5000 refl (omega arith) (committed-IsTransaction, tt) interrupted-IsTransaction
      cut_inside

abbrev result : WalScanResult
result = committed_part (committed ∷ []) (length crashed)

scan_sound_example :
    (64 ≤ result.valid_wal_end_offset)
    × (result.valid_wal_end_offset ≤ length crashed)
    × ((page_id offset : ℕ)
        → lookup page_id result.latest_committed_frame_offsets ≡ some offset
        → CommittedAt crashed result.valid_wal_end_offset page_id offset)
    × ((result.ignored_trailing_bytes ≡ true) ↔ (result.valid_wal_end_offset < length crashed))
scan_sound_example = scan_sound crashed (memory.read_at crashed) 7 result reads_back scanned

scan_total_example :
    (r : Result WalScanResult) × (scan (memory.read_at crashed) (length crashed) 7 ≡ some r)
scan_total_example = scan_total (memory.read_at crashed) (length crashed) 7

abbrev open_log : WalManager Bytes
open_log = record {
  file_handle = committed_log 7 (committed ∷ []);
  append_offset = length (committed_log 7 (committed ∷ []));
  database_id = 7;
}

commit_transaction-Promise_example :
    Promise memory
      (λ d. d)
      memory-FileLaws
      (transaction_bytes interrupted)
      open_log
      (commit_transaction memory open_log 2 interrupted.pages)
commit_transaction-Promise_example =
    commit_transaction-Promise memory (λ d. d) open_log interrupted memory-FileLaws refl
      (length-replicate 4096 0, (length-replicate 4096 0, tt))

memory-Writes : Writes memory
unfolding memory
memory-Writes = record { write_ok = λ d offset bytes. refl; sync_ok = λ d. refl }

commit_transaction-commits_example :
    ((commit_transaction memory open_log 2 interrupted.pages).0 ≡ ok tt)
    × Appended memory
        (λ d. d)
        memory-FileLaws
        (transaction_bytes interrupted)
        open_log
        (commit_transaction memory open_log 2 interrupted.pages).1
commit_transaction-commits_example =
    commit_transaction-commits memory (λ d. d) open_log interrupted memory-FileLaws memory-Writes
      refl ((refl, length-replicate 4096 0), ((refl, length-replicate 4096 0), tt))
