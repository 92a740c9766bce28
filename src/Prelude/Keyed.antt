-- ===== src/Prelude/Keyed.antt =====
-- Packed arrays with a count, whose entries have a key: the occurrences of a key, and removal by
-- moving the last entry into the hole.
use Prim.Native.Nat.{ℕ, suc, ◌+◌, ◌-◌, ◌≤◌}
use mathlib.Core.Path.{◌≡◌, refl}
use mathlib.Core.List.{List, [], ◌∷◌, ◌++◌, map}
use native.Mathlib.Omega.{arith}
use tollgate_esp.Prelude.Tests.{if◌then◌else◌, ◌==◌}
use tollgate_esp.Prelude.Arrays.{length, count_if}

module _ {ℓ} {A : Type ℓ} (key : A → ℕ) where
  -- How many entries have the key.
  unfoldable pub occ : ℕ → List A → ℕ
  occ k [] = 0
  occ k (x ∷ xs) = if key x == k then suc (occ k xs) else occ k xs

-- The entries after the hole, with the last one moved to the front.
unfoldable pub move_last {ℓ} : {A : Type ℓ} → List A → List A
move_last [] = []
move_last (x ∷ []) = x ∷ []
move_last (x ∷ (y ∷ ys)) = elim (move_last (y ∷ ys)) [ [] ↦ x ∷ [] | z ∷ zs ↦ z ∷ x ∷ zs ]

module _ {ℓ} {A : Type ℓ} (key : A → ℕ) where
  -- `a[i] = a[count - 1]; count--` at the first entry with the key.
  unfoldable pub remove_key : ℕ → List A → List A
  remove_key k [] = []
  remove_key k (x ∷ xs) = if key x == k then move_last xs else x ∷ remove_key k xs

  occ-move_last : (k : ℕ) (xs : List A) → occ key k (move_last xs) ≡ occ key k xs
  unfolding occ move_last
  occ-move_last k [] = refl
  occ-move_last k (x ∷ []) = refl
  occ-move_last k (x ∷ (y ∷ ys)) = ground (arith, occ-move_last k (y ∷ ys))

  length-move_last : (xs : List A) → length (move_last xs) ≡ length xs
  unfolding move_last
  length-move_last [] = refl
  length-move_last (x ∷ []) = refl
  length-move_last (x ∷ (y ∷ ys)) = ground (arith, length-move_last (y ∷ ys))

module _ {ℓ} {A : Type ℓ} (key : A → ℕ) where
  pub occ-le : (k : ℕ) (xs : List A) → occ key k xs ≤ length xs
  unfolding occ
  occ-le k [] = omega arith
  occ-le k (x ∷ xs) = ground (arith, occ-le k xs)

  occ-remove_cons :
      (k j : ℕ) (x : A) (xs : List A)
      → occ key j (remove_key key k xs) ≡ (if k == j then occ key j xs - 1 else occ key j xs)
      → occ key j (remove_key key k (x ∷ xs))
        ≡ (if k == j then occ key j (x ∷ xs) - 1 else occ key j (x ∷ xs))
  unfolding occ remove_key
  occ-remove_cons k j x xs ih = ground (arith, occ-move_last key j xs)

  -- One entry with the key goes, and no other entry changes.
  pub occ-remove_key :
      (k j : ℕ) (xs : List A)
      → occ key j (remove_key key k xs) ≡ (if k == j then occ key j xs - 1 else occ key j xs)
  unfolding occ remove_key
  occ-remove_key k j [] = ground arith
  occ-remove_key k j (x ∷ xs) = occ-remove_cons k j x xs (occ-remove_key k j xs)

  pub length-remove_key :
      (k : ℕ) (xs : List A)
      → length (remove_key key k xs) ≡ (if occ key k xs == 0 then length xs else length xs - 1)
  unfolding occ remove_key
  length-remove_key k [] = ground arith
  length-remove_key k (x ∷ xs) =
      ground (arith, length-move_last key xs, occ-le k xs, length-remove_key k xs)

  occ-append : (k : ℕ) (xs ys : List A) → occ key k (xs ++ ys) ≡ occ key k xs + occ key k ys
  unfolding occ
  occ-append k [] ys = omega arith
  occ-append k (x ∷ xs) ys = ground (arith, occ-append k xs ys)

  pub occ-snoc :
      (k : ℕ) (xs : List A) (x : A)
      → occ key k (xs ++ x ∷ []) ≡ (if key x == k then suc (occ key k xs) else occ key k xs)
  unfolding occ
  occ-snoc k xs x = ground (arith, occ-append k xs (x ∷ []))

  pub occ-count_if : (k : ℕ) (xs : List A) → occ key k xs ≡ count_if (λ x. key x == k) xs
  unfolding occ count_if
  occ-count_if k [] = refl
  occ-count_if k (x ∷ xs) = ground (arith, occ-count_if k xs)

  pub occ-map : (k : ℕ) (xs : List A) → occ (λ n. n) k (map key xs) ≡ occ key k xs
  unfolding occ
  occ-map k [] = refl
  occ-map k (x ∷ xs) = ground (arith, occ-map k xs)
