-- ===== src/Platform/File.antt =====
-- The operations of src/platform/FileHandle.cpp on one open file. They call the operating system,
-- so they are a parameter: a record of functions on the system's state, and the documented behaviour
-- that the engine relies on as a second record. Every operation may fail at any time.
use dan_db.Prelude.{
  ℕ, zero, suc, ◌+◌, ◌-◌, ◌≤◌, replicate, take-append_short, take-append_long, ◌≡◌, refl, sym, ap,
  ◌∙◌, append-nil, ◌^◌, ◌||◌, Bool, true, false, Bool-cases, inl, inr, ◌∷◌, [], ◌++◌, arith, leb,
  if◌then◌else◌, length, take, drop, slice, take-append_left,
}
use dan_db.Prelude.Overwrite.{overwrite}
use dan_db.Core.Status.{Result, ok, err, StatusCode, io_error, invalid_argument}
use dan_db.Core.Bytes.{Bytes}

-- The largest size that FileHandle::resize takes, the largest LONGLONG.
abbrev pub max_file_size : ℕ
max_file_size = 2 ^ 63 - 1

pub record FileOps (Disk : Type 0) : Type 0 where
  pub size : Disk → Result ℕ
  pub read_at : Disk → ℕ → ℕ → Result Bytes
  pub write_at : Disk → ℕ → Bytes → Result (Unit {0}) × Disk
  pub resize : Disk → ℕ → Result (Unit {0}) × Disk
  pub sync : Disk → Result (Unit {0}) × Disk

-- `content` is what the file holds.
pub record FileLaws {Disk : Type 0} (ops : FileOps Disk) (content : Disk → Bytes) : Type 0 where
  pub size_lem : (d : Disk) (n : ℕ) → ops.size d ≡ ok n → n ≡ length (content d)
  pub read_at_lem :
      (d : Disk) (offset n : ℕ) (bytes : Bytes)
      → ops.read_at d offset n ≡ ok bytes
      → bytes ≡ slice offset n (content d)
  -- A write that succeeds at the end of the file appends.
  pub write_at_end :
      (d d' : Disk) (bytes : Bytes)
      → ops.write_at d (length (content d)) bytes ≡ (ok tt, d')
      → content d' ≡ content d ++ bytes
  -- A write that fails leaves what stands before its offset.
  pub write_at_failed :
      (d d' : Disk) (offset : ℕ) (bytes : Bytes) (e : StatusCode)
      → offset ≤ length (content d)
      → ops.write_at d offset bytes ≡ (err e, d')
      → (offset ≤ length (content d')) × (take offset (content d') ≡ take offset (content d))
  pub resize_lem :
      (d d' : Disk) (n : ℕ)
      → n ≤ length (content d)
      → ops.resize d n ≡ (ok tt, d')
      → content d' ≡ take n (content d)
  pub sync_lem : (d : Disk) → content (ops.sync d).1 ≡ content d

-- What the file of the pages relies on beside: writes inside the file, and growth.
pub record PageFileLaws {Disk : Type 0} (ops : FileOps Disk) (content : Disk → Bytes) : Type 0 where
  pub write_at_inside :
      (d d' : Disk) (offset : ℕ) (bytes : Bytes)
      → offset + length bytes ≤ length (content d)
      → ops.write_at d offset bytes ≡ (ok tt, d')
      → content d' ≡ overwrite offset bytes (content d)
  pub resize_grows :
      (d d' : Disk) (n : ℕ)
      → length (content d) ≤ n
      → ops.resize d n ≡ (ok tt, d')
      → content d' ≡ content d ++ replicate (n - length (content d)) 0

-- A file whose operations do not fail: reads and writes inside the file, a cut of its end, and growth up to the
-- largest size.
pub record Works {Disk : Type 0} (ops : FileOps Disk) (content : Disk → Bytes) : Type 0 where
  pub size_ok : (d : Disk) → ops.size d ≡ ok (length (content d))
  pub read_at_ok :
      (d : Disk) (offset n : ℕ)
      → offset + n ≤ length (content d)
      → ops.read_at d offset n ≡ ok (slice offset n (content d))
  pub write_at_ok :
      (d : Disk) (offset : ℕ) (bytes : Bytes)
      → offset + length bytes ≤ length (content d)
      → (ops.write_at d offset bytes).0 ≡ ok tt
  pub cut_ok : (d : Disk) (n : ℕ) → n ≤ length (content d) → (ops.resize d n).0 ≡ ok tt
  pub grow_ok : (d : Disk) (n : ℕ) → n ≤ max_file_size → (ops.resize d n).0 ≡ ok tt
  pub sync_ok : (d : Disk) → (ops.sync d).0 ≡ ok tt

-- A file in memory, which fails only when it is read past its end or grown past the largest size.
unfoldable pub memory : FileOps Bytes
memory = record {
  size = λ d. ok (length d);
  read_at =
      λ d offset n. if leb (offset + n) (length d) then ok (slice offset n d) else err io_error;
  write_at = λ d offset bytes. (ok tt, take offset d ++ (bytes ++ drop (offset + length bytes) d));
  resize = λ d n.
      if leb n (length d) || leb n max_file_size
      then (ok tt, take n (d ++ replicate n 0))
      else (err invalid_argument, d);
  sync = λ d. (ok tt, d);
}

drop-past : (d : Bytes) (n : ℕ) → length d ≤ n → drop n d ≡ []
unfolding drop
drop-past [] zero h = refl
drop-past [] (suc n) h = refl
drop-past (x ∷ d) zero h = absurd (omega arith)
drop-past (x ∷ d) (suc n) h = drop-past d n (omega arith)

pub memory-read_at :
    (d : Bytes) (offset n : ℕ)
    → offset + n ≤ length d
    → memory.read_at d offset n ≡ ok (slice offset n d)
unfolding memory
memory-read_at d offset n h = ground (arith, h)

cut_memory :
    (d : Bytes) (n : ℕ) → n ≤ length d → memory.resize d n ≡ (ok tt, take n (d ++ replicate n 0))
unfolding memory
cut_memory d n h = let inside : leb n (length d) ≡ true = ground (arith, h) in rw inside refl

grow_memory :
    (d : Bytes) (n : ℕ)
    → n ≤ max_file_size
    → memory.resize d n ≡ (ok tt, take n (d ++ replicate n 0))
unfolding memory
grow_memory d n h =
    let inside : leb n max_file_size ≡ true = ground (arith, h) in
    rw (inside, or_true (leb n (length d))) refl
  where
    or_true : (b : Bool) → (b || true) ≡ true
    or_true true = refl
    or_true false = refl

-- A resize that succeeds cuts, or grows by zeros.
resized_memory :
    (d d' : Bytes) (n : ℕ) → memory.resize d n ≡ (ok tt, d') → d' ≡ take n (d ++ replicate n 0)
unfolding memory
resized_memory d d' n w = elim (Bool-cases (leb n (length d) || leb n max_file_size)) [
  | inl good ↦
      let e : memory.resize d n ≡ (ok tt, take n (d ++ replicate n 0)) = rw good refl in
      ap (λ (x : Result (Unit {0}) × Bytes). x.1) (sym w ∙ e)
  | inr bad ↦
      let e : memory.resize d n ≡ (err invalid_argument, d) = rw bad refl in absurd (cc (sym w ∙ e))
]

-- The laws hold of it.
pub memory-FileLaws : FileLaws memory (λ d. d)
unfolding memory
memory-FileLaws = record {
  size_lem = λ d n h. ground (arith, h);
  read_at_lem = λ d offset n bytes h. ground (arith, h);
  write_at_end = λ d d' bytes h.
      sym (ap (λ (w : Result (Unit {0}) × Bytes). w.1) h)
      ∙ ap (λ x. x ++ (bytes ++ drop (length d + length bytes) d))
          (ap (take (length d)) (sym (append-nil d)) ∙ take-append_left d [] (length d) refl)
      ∙ ap (λ x. d ++ (bytes ++ x)) (drop-past d (length d + length bytes) (omega arith))
      ∙ ap (λ x. d ++ x) (append-nil bytes);
  write_at_failed = λ d d' offset bytes e h w. absurd (cc w);
  resize_lem = λ d d' n h w. resized_memory d d' n w ∙ take-append_short n d (replicate n 0) h;
  sync_lem = λ d. refl;
}

take-replicate : (k n : ℕ) → k ≤ n → take k (replicate {A = ℕ} n 0) ≡ replicate k 0
unfolding take replicate
take-replicate zero n h = refl
take-replicate (suc k) zero h = absurd (omega arith)
take-replicate (suc k) (suc n) h = ap (λ t. 0 ∷ t) (take-replicate k n (omega arith))

pub memory-PageFileLaws : PageFileLaws memory (λ d. d)
unfolding memory overwrite
memory-PageFileLaws = record {
  write_at_inside = λ d d' offset bytes h w. sym (ap (λ (x : Result (Unit {0}) × Bytes). x.1) w);
  resize_grows = λ d d' n h w.
      resized_memory d d' n w
      ∙ take-append_long n (n - length d) d (replicate n 0) (omega (arith, h))
      ∙ ap (λ t. d ++ t) (take-replicate (n - length d) n (omega arith));
}

pub memory-Works : Works memory (λ d. d)
unfolding memory
memory-Works = record {
  size_ok = λ d. refl;
  read_at_ok = memory-read_at;
  write_at_ok = λ d offset bytes h. refl;
  cut_ok = λ d n h. ap (λ (x : Result (Unit {0}) × Bytes). x.0) (cut_memory d n h);
  grow_ok = λ d n h. ap (λ (x : Result (Unit {0}) × Bytes). x.0) (grow_memory d n h);
  sync_ok = λ d. refl;
}
