-- ===== src/Buffer/LruReplacer/Consistency.antt =====
-- The order and the index of src/buffer/LRUReplacer.cpp, under each operation.
use dan_db.Prelude.{
  ℕ, ◌≡◌, refl, sym, ap, ◌∙◌, true, false, List, [], arith, leb, ◌==◌, if◌then◌else◌, ◌⊎◌, inl, inr,
  Bool-cases, subst,
}
use dan_db.Prelude.Sets.{
  contains, remove, IsOnce, pop_back, pop_back-cases, contains-remove, remove-IsOnce, contains-snoc,
  snoc-IsOnce,
}
use dan_db.Core.Status.{ok, err, StatusCode}
use dan_db.Buffer.LruReplacer.{
  LruReplacer, new_replacer, victim, victim_from, mark_evictable, mark_non_evictable,
}

pub record IsConsistent (r : LruReplacer) : Type 0 where
  pub once : IsOnce r.lru
  pub positions_once : IsOnce r.frame_positions
  pub same : (f : ℕ) → contains f r.frame_positions ≡ contains f r.lru

pub new_replacer-IsConsistent : (capacity : ℕ) → IsConsistent (new_replacer capacity)
unfolding new_replacer IsOnce contains
new_replacer-IsConsistent capacity = record { once = tt; positions_once = tt; same = λ f. refl }

-- Marking a frame adds it, once, in front.
pub mark_evictable-IsConsistent :
    (r : LruReplacer) (f : ℕ) → IsConsistent r → IsConsistent (mark_evictable r f).1
unfolding mark_evictable IsOnce contains
mark_evictable-IsConsistent r f v = elim (Bool-cases (leb r.capacity f)) [
  | inl large ↦ rw large v
  | inr small ↦ elim (Bool-cases (contains f r.frame_positions)) [
    | inl marked ↦ rw (small, marked) v
    | inr fresh ↦
        rw (small, fresh)
          (record {
            once = (sym (v.same f) ∙ fresh, v.once);
            positions_once = (fresh, v.positions_once);
            same = λ g. ground (arith, v.same g);
          })
  ]
]

pub contains-mark_evictable :
    (r : LruReplacer) (f g : ℕ)
    → (f == g) ≡ false
    → contains g (mark_evictable r f).1.lru ≡ contains g r.lru
unfolding mark_evictable contains
contains-mark_evictable r f g other = ground (arith, other)

pub mark_non_evictable-IsConsistent :
    (r : LruReplacer) (f : ℕ) → IsConsistent r → IsConsistent (mark_non_evictable r f).1
unfolding mark_non_evictable
mark_non_evictable-IsConsistent r f v = elim (Bool-cases (leb r.capacity f)) [
  | inl large ↦ rw large v
  | inr small ↦ elim (Bool-cases (contains f r.frame_positions)) [
    | inr fresh ↦ rw (small, fresh) v
    | inl marked ↦
        rw (small, marked)
          (record {
            once = remove-IsOnce f r.lru v.once;
            positions_once = remove-IsOnce f r.frame_positions v.positions_once;
            same = λ g. ground (
              arith,
              contains-remove f g r.lru v.once,
              contains-remove f g r.frame_positions v.positions_once,
              v.same g,
            );
          })
  ]
]

-- A frame that was marked not evictable is not in the order; the others stay.
pub contains-mark_non_evictable :
    (r : LruReplacer) (f g : ℕ)
    → IsConsistent r
    → (mark_non_evictable r f).0 ≡ ok tt
    → contains g (mark_non_evictable r f).1.lru ≡ (if f == g then false else contains g r.lru)
unfolding mark_non_evictable
contains-mark_non_evictable r f g v h = elim (Bool-cases (leb r.capacity f)) [
  | inl large ↦ absurd (ground (arith, large, h))
  | inr small ↦ elim (Bool-cases (contains f r.frame_positions)) [
    | inr fresh ↦ elim (Bool-cases (f == g)) [
      | inl here ↦ ground (arith, small, fresh, here, v.same f, v.same g)
      | inr other ↦ ground (arith, small, fresh, other)
    ]
    | inl marked ↦ rw (small, marked) (contains-remove f g r.lru v.once)
  ]
]

pub mark_non_evictable_err :
    (r : LruReplacer) (f : ℕ) (e : StatusCode)
    → (mark_non_evictable r f).0 ≡ err e
    → (mark_non_evictable r f).1 ≡ r
unfolding mark_non_evictable
mark_non_evictable_err r f e h = ground arith

-- What `victim` returns: it fails on an empty order, and takes the last frame of another.
pub record Took (r : LruReplacer) (f : ℕ) (r' : LruReplacer) : Type 0 where
  pub returned : victim r ≡ (ok f, r')
  pub taken : contains f r.lru ≡ true
  pub left : (g : ℕ) → contains g r'.lru ≡ (if f == g then false else contains g r.lru)
  pub consistent : IsConsistent r'

pub victim-cases :
    (r : LruReplacer)
    → IsConsistent r
    → ((r.lru ≡ []) × ((e : StatusCode) × (victim r ≡ (err e, r))))
      ⊎ ((f : ℕ) × (r' : LruReplacer) × Took r f r')
unfolding victim victim_from pop_back
victim-cases r v = elim (pop_back-cases r.lru) [
  | inl e ↦ inl (e, (_, ap (λ (xs : List ℕ). victim_from r (pop_back xs)) e))
  | inr (rest, f, e, p) ↦
      let (once, absent) = snoc-IsOnce rest f (subst IsOnce e v.once) in
      let inside : (g : ℕ) → contains g r.lru ≡ (if f == g then true else contains g rest) =
        λ g. ap (contains g) e ∙ contains-snoc g f rest in
      inr (
        f,
        record r { lru = rest; frame_positions = remove f r.frame_positions },
        record {
          returned = ap (victim_from r) p;
          taken = ground (arith, inside f);
          left = λ g. elim (Bool-cases (f == g)) [
            | inl here ↦ ground (arith, here, absent)
            | inr other ↦ ground (arith, other, inside g)
          ];
          consistent = record {
            once = once;
            positions_once = remove-IsOnce f r.frame_positions v.positions_once;
            same = λ g. elim (Bool-cases (f == g)) [
              | inl here ↦
                  ground
                    (arith, here, absent, contains-remove f g r.frame_positions v.positions_once)
              | inr other ↦ ground (
                arith,
                other,
                contains-remove f g r.frame_positions v.positions_once,
                inside g,
                v.same g,
              )
            ];
          };
        },
      )
]
