-- ===== src/Prelude/Overwrite.antt =====
-- Elements written over a part of a list, and what the other parts are then.
use dan_db.Prelude.Lists.{
  length, take, drop, slice, length-append, length-take_le, length-drop, take-append-drop,
  take-append_short, drop-drop, slice-append_left, slice-append_right,
}
use Prim.Native.Nat.{ℕ, zero, suc, ◌+◌, ◌-◌, ◌≤◌}
use mathlib.Core.Path.{◌≡◌, refl, sym, ap, ◌∙◌}
use mathlib.Core.List.{List, [], ◌∷◌, ◌++◌, append_assoc}
use native.Mathlib.Omega.{arith}

module _ {ℓ} {A : Type ℓ} where
  unfoldable pub overwrite : ℕ → List A → List A → List A
  overwrite offset new xs = take offset xs ++ (new ++ drop (offset + length new) xs)

  drop-append_short : (i : ℕ) (xs ys : List A) → i ≤ length xs → drop i (xs ++ ys) ≡ drop i xs ++ ys
  unfolding drop
  drop-append_short zero xs ys h = refl
  drop-append_short (suc i) [] ys h = absurd (omega arith)
  drop-append_short (suc i) (x ∷ xs) ys h = drop-append_short i xs ys (omega arith)

  pub slice-append_inside :
      (i n : ℕ) (xs ys : List A) → i + n ≤ length xs → slice i n (xs ++ ys) ≡ slice i n xs
  unfolding slice
  slice-append_inside i n xs ys h =
      ap (take n) (drop-append_short i xs ys (omega arith))
      ∙ take-append_short n (drop i xs) ys (omega (arith, length-drop i xs))

  module _ (offset : ℕ) (new xs : List A) (fits : offset + length new ≤ length xs) where
    abbrev k : ℕ
    k = offset + length new

    pub length-overwrite : length (overwrite offset new xs) ≡ length xs
    unfolding overwrite
    length-overwrite = omega (
      arith,
      length-append (take offset xs) (new ++ drop k xs),
      length-append new (drop k xs),
      length-take_le offset xs,
      length-drop k xs,
    )

    pub slice-overwrite_same : slice offset (length new) (overwrite offset new xs) ≡ new
    unfolding overwrite
    slice-overwrite_same =
        slice-append_right (take offset xs) (new ++ drop k xs) 0 offset (length new)
          (omega (arith, length-take_le offset xs))
        ∙ slice-append_left new (drop k xs) (length new) refl

    pub slice-overwrite_before :
        (i n : ℕ) → i + n ≤ offset → slice i n (overwrite offset new xs) ≡ slice i n xs
    unfolding overwrite
    slice-overwrite_before i n h =
        let inside : i + n ≤ length (take offset xs) = omega (arith, length-take_le offset xs) in
        slice-append_inside i n (take offset xs) (new ++ drop k xs) inside
        ∙ sym (slice-append_inside i n (take offset xs) (drop offset xs) inside)
        ∙ ap (slice i n) (take-append-drop offset xs)

    pub slice-overwrite_after :
        (i n : ℕ) → k ≤ i → slice i n (overwrite offset new xs) ≡ slice i n xs
    unfolding overwrite slice
    slice-overwrite_after i n h =
        ap (slice i n) (sym (append_assoc (take offset xs) new (drop k xs)))
        ∙ slice-append_right (take offset xs ++ new) (drop k xs) (i - k) i n
            (omega (arith, length-append (take offset xs) new, length-take_le offset xs))
        ∙ ap (take n) (drop-drop (i - k) k i xs (omega arith))
