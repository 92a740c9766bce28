-- ===== src/Prelude/Places.antt =====
-- Fixed C arrays as lists: what a write leaves, and where a first match stands.
use Prim.Native.Nat.{ℕ, zero, suc, ◌+◌, ◌≤◌, ◌<◌}
use mathlib.Core.Path.{◌≡◌, refl, ap}
use mathlib.Core.Bool.{Bool, true}
use mathlib.Core.List.{List, [], ◌∷◌, ◌++◌}
use mathlib.Core.Option.{none, some}
use native.Mathlib.Omega.{arith}
use tollgate_esp.Prelude.Arrays.{length, get_elem?, modify, take, find_index}

module _ {ℓ} {A : Type ℓ} where
  pub get_elem?-exists : (xs : List A) (i : ℕ) → i < length xs → (a : A) × (get_elem? xs i ≡ some a)
  get_elem?-exists [] i h = absurd (omega arith)
  get_elem?-exists (x ∷ xs) zero h = (x, refl)
  get_elem?-exists (x ∷ xs) (suc i) h = get_elem?-exists xs i (omega arith)

  -- A write behind the first n elements leaves them, and one right behind them extends them.
  pub take-modify_ge :
      (n : ℕ) (xs : List A) (i : ℕ) (f : A → A) → n ≤ i → take n (modify xs i f) ≡ take n xs
  take-modify_ge zero xs i f h = refl
  take-modify_ge (suc n) [] i f h = refl
  take-modify_ge (suc n) (x ∷ xs) zero f h = absurd (omega arith)
  take-modify_ge (suc n) (x ∷ xs) (suc i) f h =
      ap (λ ys. x ∷ ys) (take-modify_ge n xs i f (omega arith))

  pub take-modify_at :
      (n : ℕ) (xs : List A) (i : ℕ) (a : A)
      → n ≡ i + 1
      → i < length xs
      → take n (modify xs i (λ b. a)) ≡ take i xs ++ (a ∷ [])
  take-modify_at zero xs i a h lt = absurd (omega arith)
  take-modify_at (suc n) [] i a h lt = absurd (omega arith)
  take-modify_at (suc zero) (x ∷ xs) zero a h lt = refl
  take-modify_at (suc (suc n)) (x ∷ xs) zero a h lt = absurd (omega arith)
  take-modify_at (suc n) (x ∷ xs) (suc i) a h lt =
      ap (λ ys. x ∷ ys) (take-modify_at n xs i a (omega arith) (omega arith))

  pub take-take : (m n : ℕ) (xs : List A) → m ≤ n → take m (take n xs) ≡ take m xs
  take-take zero n xs h = refl
  take-take (suc m) zero xs h = absurd (omega arith)
  take-take (suc m) (suc n) [] h = refl
  take-take (suc m) (suc n) (x ∷ xs) h = ap (λ ys. x ∷ ys) (take-take m n xs (omega arith))

  pub length-take : (n : ℕ) (xs : List A) → n ≤ length xs → length (take n xs) ≡ n
  length-take zero xs h = refl
  length-take (suc n) [] h = absurd (omega arith)
  length-take (suc n) (x ∷ xs) h = omega (arith, length-take n xs)

  -- A change that keeps the test keeps the place, and one that meets it where nothing did is found.
  pub find_index-modify_same :
      (p : A → Bool) (f : A → A) (xs : List A) (i : ℕ)
      → ((a : A) → p (f a) ≡ p a)
      → find_index p (modify xs i f) ≡ find_index p xs
  unfolding find_index
  find_index-modify_same p f [] i same = refl
  find_index-modify_same p f (x ∷ xs) zero same = rw (same x) refl
  find_index-modify_same p f (x ∷ xs) (suc i) same = rw (find_index-modify_same p f xs i same) refl

  pub find_index-modify_new :
      (p : A → Bool) (f : A → A) (xs : List A) (i : ℕ) (a : A)
      → find_index p xs ≡ none
      → get_elem? xs i ≡ some a
      → p (f a) ≡ true
      → find_index p (modify xs i f) ≡ some i
  unfolding find_index
  find_index-modify_new p f [] i a miss at hit = absurd (ground arith)
  find_index-modify_new p f (x ∷ xs) zero a miss at hit = ground (arith, at, hit)
  find_index-modify_new p f (x ∷ xs) (suc i) a miss at hit =
      ground (arith, miss, at, hit, find_index-modify_new p f xs i a)
