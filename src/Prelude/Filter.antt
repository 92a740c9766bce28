-- ===== src/Prelude/Filter.antt =====
-- The elements of a list that pass a Boolean test, and the ends of a list around an index.
use Prim.Native.Nat.{ℕ, zero, suc, ◌-◌, ◌≤◌, ◌<◌}
use mathlib.Core.Path.{◌≡◌, refl, ap}
use mathlib.Core.Bool.{Bool, true, false, not, ◌&&◌}
use mathlib.Core.Option.{some}
use mathlib.Core.List.{List, [], ◌∷◌, ◌++◌}
use native.Mathlib.Omega.{arith}
use tollgate_esp.Prelude.Tests.{if◌then◌else◌, ltb}
use tollgate_esp.Prelude.Arrays.{length, get_elem?, modify, take, drop, count_if}

module _ {ℓ} {A : Type ℓ} where
  -- The library's `filter` takes a decision.
  unfoldable pub filter : (A → Bool) → List A → List A
  filter p [] = []
  filter p (x ∷ xs) = if p x then x ∷ filter p xs else filter p xs

module _ {ℓ} {A : Type ℓ} where
  pub append_nil : (xs : List A) → xs ++ [] ≡ xs
  append_nil [] = refl
  append_nil (x ∷ xs) = ap (λ ys. x ∷ ys) (append_nil xs)

  pub append_assoc : (xs ys zs : List A) → (xs ++ ys) ++ zs ≡ xs ++ (ys ++ zs)
  append_assoc [] ys zs = refl
  append_assoc (x ∷ xs) ys zs = ap (λ ws. x ∷ ws) (append_assoc xs ys zs)

  pub filter-append :
      (p : A → Bool) (xs ys : List A) → filter p (xs ++ ys) ≡ filter p xs ++ filter p ys
  unfolding filter
  filter-append p [] ys = refl
  filter-append p (x ∷ xs) ys = ground (arith, filter-append p xs ys)

  pub length-filter : (p : A → Bool) (xs : List A) → length (filter p xs) ≡ count_if p xs
  unfolding filter count_if
  length-filter p [] = refl
  length-filter p (x ∷ xs) = ground (arith, length-filter p xs)

  pub count_if-filter :
      (p q : A → Bool) (xs : List A) → count_if q (filter p xs) ≡ count_if (λ a. p a && q a) xs
  unfolding filter count_if
  count_if-filter p q [] = refl
  count_if-filter p q (x ∷ xs) = ground (arith, count_if-filter p q xs)

  pub filter_yes :
      (p : A → Bool) (x : A) (xs : List A) → p x ≡ true → filter p (x ∷ xs) ≡ x ∷ filter p xs
  unfolding filter
  filter_yes p x xs h = rw h refl

  pub filter_no :
      (p : A → Bool) (x : A) (xs : List A) → p x ≡ false → filter p (x ∷ xs) ≡ filter p xs
  unfolding filter
  filter_no p x xs h = rw h refl

  -- Nothing goes where everything passes.
  pub filter_all :
      (p : A → Bool) (xs : List A) → count_if (λ a. not (p a)) xs ≡ 0 → filter p xs ≡ xs
  unfolding filter count_if
  filter_all p [] h = refl
  filter_all p (x ∷ xs) h = ground (arith, filter_all p xs)

  -- The element at an index, between what stands before it and after it.
  pub drop_cons :
      (xs : List A) (i : ℕ) (a : A) → get_elem? xs i ≡ some a → drop i xs ≡ a ∷ drop (suc i) xs
  drop_cons [] i a h = absurd (ground arith)
  drop_cons (x ∷ xs) zero a h = ground arith
  drop_cons (x ∷ xs) (suc i) a h = drop_cons xs i a h

  pub take_snoc :
      (xs : List A) (i : ℕ) (a : A)
      → get_elem? xs i ≡ some a
      → take (suc i) xs ≡ take i xs ++ a ∷ []
  take_snoc [] i a h = absurd (ground arith)
  take_snoc (x ∷ xs) zero a h = ground arith
  take_snoc (x ∷ xs) (suc i) a h = ap (λ ys. x ∷ ys) (take_snoc xs i a h)

  pub drop-modify : (xs : List A) (i j : ℕ) (f : A → A) → i < j → drop j (modify xs i f) ≡ drop j xs
  drop-modify [] i j f h = refl
  drop-modify (x ∷ xs) i zero f h = absurd (ground arith)
  drop-modify (x ∷ xs) zero (suc j) f h = refl
  drop-modify (x ∷ xs) (suc i) (suc j) f h = drop-modify xs i j f (ground (arith, h))

  pub drop-length : (xs : List A) → drop (length xs) xs ≡ []
  drop-length [] = refl
  drop-length (x ∷ xs) = drop-length xs

  pub take-length : (xs : List A) → take (length xs) xs ≡ xs
  take-length [] = refl
  take-length (x ∷ xs) = ap (λ ys. x ∷ ys) (take-length xs)

  pub take-drop : (n : ℕ) (xs : List A) → take n xs ++ drop n xs ≡ xs
  take-drop zero xs = refl
  take-drop (suc n) [] = refl
  take-drop (suc n) (x ∷ xs) = ap (λ ys. x ∷ ys) (take-drop n xs)

  -- A front as long as the list is the list.
  pub take_all : (n : ℕ) (xs : List A) → length (take n xs) ≡ length xs → take n xs ≡ xs
  take_all zero [] h = refl
  take_all zero (x ∷ xs) h = absurd (ground arith)
  take_all (suc n) [] h = refl
  take_all (suc n) (x ∷ xs) h = ap (λ ys. x ∷ ys) (take_all n xs (ground (arith, h)))

  pub take_ge : (n : ℕ) (xs : List A) → length xs ≤ n → take n xs ≡ xs
  take_ge zero [] h = refl
  take_ge zero (x ∷ xs) h = absurd (ground (arith, h))
  take_ge (suc n) [] h = refl
  take_ge (suc n) (x ∷ xs) h = ap (λ ys. x ∷ ys) (take_ge n xs (ground (arith, h)))

  pub length-drop : (n : ℕ) (xs : List A) → length (drop n xs) ≡ length xs - n
  length-drop zero xs = omega arith
  length-drop (suc n) [] = omega arith
  length-drop (suc n) (x ∷ xs) = omega (arith, length-drop n xs)

  pub length-take_or :
      (n : ℕ) (xs : List A) → length (take n xs) ≡ (if ltb n (length xs) then n else length xs)
  length-take_or zero [] = refl
  length-take_or zero (x ∷ xs) = ground arith
  length-take_or (suc n) [] = ground arith
  length-take_or (suc n) (x ∷ xs) = ground (arith, length-take_or n xs)
