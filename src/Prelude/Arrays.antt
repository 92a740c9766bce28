-- ===== src/Prelude/Arrays.antt =====
-- Fixed C arrays as lists: reads, writes, counting loops and first-match loops.
use Prim.Native.Nat.{ℕ, zero, suc, ◌+◌, ◌≤◌, ◌<◌}
use mathlib.Core.Path.{◌≡◌, refl, ap, ◌∙◌}
use mathlib.Core.Logic.{◌≢◌}
use mathlib.Core.Bool.{Bool, true, false, not}
use mathlib.Core.List.{List, [], ◌∷◌, ◌++◌, map}
use mathlib.Core.Option
use mathlib.Core.Option.{Option, none, some}
use native.Mathlib.Omega.{arith}
use tollgate_esp.Prelude.Tests.{if◌then◌else◌, ltb}

-- `p != NULL`.
abbrev pub is_some {ℓ} : {A : Type ℓ} → Option A → Bool
is_some none = false
is_some (some a) = true

module _ {ℓ} {A : Type ℓ} where
  abbrev pub length : List A → ℕ
  length [] = 0
  length (x ∷ xs) = suc (length xs)

  abbrev pub get_elem? : List A → ℕ → Option A
  get_elem? [] i = none
  get_elem? (x ∷ xs) zero = some x
  get_elem? (x ∷ xs) (suc i) = get_elem? xs i

  -- `a[i]` replaced by `f(a[i])`; out of bounds nothing changes.
  abbrev pub modify : List A → ℕ → (A → A) → List A
  modify [] i f = []
  modify (x ∷ xs) zero f = f x ∷ xs
  modify (x ∷ xs) (suc i) f = x ∷ modify xs i f

  abbrev pub replicate : ℕ → A → List A
  replicate zero a = []
  replicate (suc n) a = a ∷ replicate n a

  abbrev pub take : ℕ → List A → List A
  take zero xs = []
  take (suc n) [] = []
  take (suc n) (x ∷ xs) = x ∷ take n xs

  abbrev pub drop : ℕ → List A → List A
  drop zero xs = xs
  drop (suc n) [] = []
  drop (suc n) (x ∷ xs) = drop n xs

  -- How many elements pass a test: `for (...) if (p) count++`.
  unfoldable pub count_if : (A → Bool) → List A → ℕ
  count_if p [] = 0
  count_if p (x ∷ xs) = if p x then suc (count_if p xs) else count_if p xs

  -- The index of the first element that passes: `for (...) if (p) return i`.
  unfoldable pub find_index : (A → Bool) → List A → Option ℕ
  find_index p [] = none
  find_index p (x ∷ xs) = if p x then some 0 else Option.map suc (find_index p xs)

  -- The first element that passes.
  unfoldable pub find_first : (A → Bool) → List A → Option A
  find_first p [] = none
  find_first p (x ∷ xs) = if p x then some x else find_first p xs

module _ {ℓ} {A : Type ℓ} where
  pub length-append : (xs ys : List A) → length (xs ++ ys) ≡ length xs + length ys
  length-append [] ys = omega arith
  length-append (x ∷ xs) ys = omega (arith, length-append xs ys)

  pub length-modify : (xs : List A) (i : ℕ) (f : A → A) → length (modify xs i f) ≡ length xs
  length-modify [] i f = refl
  length-modify (x ∷ xs) zero f = refl
  length-modify (x ∷ xs) (suc i) f = ap suc (length-modify xs i f)

  pub length-replicate : (n : ℕ) (a : A) → length (replicate n a) ≡ n
  length-replicate zero a = refl
  length-replicate (suc n) a = ap suc (length-replicate n a)

  pub get_elem?-lt : (xs : List A) (i : ℕ) (a : A) → get_elem? xs i ≡ some a → i < length xs
  get_elem?-lt [] i a h = absurd (ground arith)
  get_elem?-lt (x ∷ xs) zero a h = omega arith
  get_elem?-lt (x ∷ xs) (suc i) a h = omega (arith, get_elem?-lt xs i a h)

  pub get_elem?-modify_self :
      (xs : List A) (i : ℕ) (f : A → A)
      → get_elem? (modify xs i f) i ≡ Option.map f (get_elem? xs i)
  get_elem?-modify_self [] i f = refl
  get_elem?-modify_self (x ∷ xs) zero f = refl
  get_elem?-modify_self (x ∷ xs) (suc i) f = get_elem?-modify_self xs i f

  pub get_elem?-modify_ne :
      (xs : List A) (i j : ℕ) (f : A → A) → i ≢ j → get_elem? (modify xs i f) j ≡ get_elem? xs j
  get_elem?-modify_ne [] i j f h = refl
  get_elem?-modify_ne (x ∷ xs) zero zero f h = absurd (h refl)
  get_elem?-modify_ne (x ∷ xs) zero (suc j) f h = refl
  get_elem?-modify_ne (x ∷ xs) (suc i) zero f h = refl
  get_elem?-modify_ne (x ∷ xs) (suc i) (suc j) f h =
      get_elem?-modify_ne xs i j f (λ e. h (ap suc e))

  -- Changing one element changes a count by that element alone.
  pub count_if-modify :
      (p : A → Bool) (xs : List A) (i : ℕ) (f : A → A) (old : A)
      → get_elem? xs i ≡ some old
      → count_if p (modify xs i f) + (if p old then 1 else 0)
        ≡ count_if p xs + (if p (f old) then 1 else 0)
  unfolding count_if
  count_if-modify p [] i f old h = absurd (ground arith)
  count_if-modify p (x ∷ xs) zero f old h = ground arith
  count_if-modify p (x ∷ xs) (suc i) f old h = ground (arith, count_if-modify p xs i f old h)

  pub count_if-modify_same :
      (p : A → Bool) (f : A → A) (xs : List A) (i : ℕ)
      → ((a : A) → p (f a) ≡ p a)
      → count_if p (modify xs i f) ≡ count_if p xs
  unfolding count_if
  count_if-modify_same p f [] i same = refl
  count_if-modify_same p f (x ∷ xs) zero same = rw (same x)
  count_if-modify_same p f (x ∷ xs) (suc i) same =
      ground (arith, count_if-modify_same p f xs i same)

  pub count_if-append :
      (p : A → Bool) (xs ys : List A) → count_if p (xs ++ ys) ≡ count_if p xs + count_if p ys
  unfolding count_if
  count_if-append p [] ys = omega arith
  count_if-append p (x ∷ xs) ys = ground (arith, count_if-append p xs ys)

  pub count_if-le : (p : A → Bool) (xs : List A) → count_if p xs ≤ length xs
  unfolding count_if
  count_if-le p [] = omega arith
  count_if-le p (x ∷ xs) = ground (arith, count_if-le p xs)

  pub count_if-replicate :
      (p : A → Bool) (n : ℕ) (a : A) → p a ≡ false → count_if p (replicate n a) ≡ 0
  unfolding count_if
  count_if-replicate p zero a h = refl
  count_if-replicate p (suc n) a h = ground (arith, count_if-replicate p n a h)

  -- A hit is an element of the array that passes the test.
  pub find_index_hit :
      (p : A → Bool) (xs : List A) (i : ℕ)
      → find_index p xs ≡ some i
      → (a : A) × (get_elem? xs i ≡ some a) × (p a ≡ true)
  unfolding find_index
  find_index_hit p [] i h = absurd (ground arith)
  find_index_hit p (x ∷ xs) zero h = (x, refl, ground arith)
  find_index_hit p (x ∷ xs) (suc i) h = find_index_hit p xs i (ground arith)

  -- A miss says that nothing in the array passes.
  pub find_index_miss : (p : A → Bool) (xs : List A) → find_index p xs ≡ none → count_if p xs ≡ 0
  unfolding find_index count_if
  find_index_miss p [] h = refl
  find_index_miss p (x ∷ xs) h = ground (arith, find_index_miss p xs)

  -- The first-match loop returns the index of an element exactly when one passes.
  pub find_index-count_if :
      (p : A → Bool) (xs : List A) → is_some (find_index p xs) ≡ ltb 0 (count_if p xs)
  unfolding find_index count_if
  find_index-count_if p [] = refl
  find_index-count_if p (x ∷ xs) = ground (arith, find_index-count_if p xs)

  pub find_first-find_index :
      (p : A → Bool) (xs : List A) → is_some (find_first p xs) ≡ is_some (find_index p xs)
  unfolding find_index find_first
  find_first-find_index p [] = refl
  find_first-find_index p (x ∷ xs) = ground (arith, find_first-find_index p xs)

  pub count_if-not :
      (p : A → Bool) (xs : List A) → count_if p xs + count_if (λ a. not (p a)) xs ≡ length xs
  unfolding count_if
  count_if-not p [] = refl
  count_if-not p (x ∷ xs) = ground (arith, count_if-not p xs)

  -- Where nothing passes, no element does.
  pub count_if-zero :
      (p : A → Bool) (xs : List A) (i : ℕ) (a : A)
      → count_if p xs ≡ 0
      → get_elem? xs i ≡ some a
      → p a ≡ false
  unfolding count_if
  count_if-zero p [] i a z h = absurd (ground arith)
  count_if-zero p (x ∷ xs) zero a z h = ground arith
  count_if-zero p (x ∷ xs) (suc i) a z h = ground (arith, count_if-zero p xs i a)

  pub count_if-pos :
      (p : A → Bool) (xs : List A) (i : ℕ) (a : A)
      → get_elem? xs i ≡ some a
      → p a ≡ true
      → 1 ≤ count_if p xs
  unfolding count_if
  count_if-pos p [] i a h t = absurd (ground arith)
  count_if-pos p (x ∷ xs) zero a h t = ground arith
  count_if-pos p (x ∷ xs) (suc i) a h t = ground (arith, count_if-pos p xs i a)

  pub count_if-map :
      (p : A → Bool) (f : A → A) (xs : List A) → count_if p (map f xs) ≡ count_if (λ a. p (f a)) xs
  unfolding count_if
  count_if-map p f [] = refl
  count_if-map p f (x ∷ xs) = ground (arith, count_if-map p f xs)

  pub count_if-congr :
      (p q : A → Bool) (xs : List A) → ((a : A) → p a ≡ q a) → count_if p xs ≡ count_if q xs
  unfolding count_if
  count_if-congr p q [] h = refl
  count_if-congr p q (x ∷ xs) h = ground (arith, h x, count_if-congr p q xs h)

  -- Two changes that agree on the element change the array alike.
  pub modify_at :
      (f h : A → A) (xs : List A) (i : ℕ) (a : A)
      → get_elem? xs i ≡ some a
      → f a ≡ h a
      → modify xs i f ≡ modify xs i h
  modify_at f h [] i a at same = refl
  modify_at f h (x ∷ xs) zero a at same = ground arith
  modify_at f h (x ∷ xs) (suc i) a at same = ap (λ ys. x ∷ ys) (modify_at f h xs i a at same)

  pub modify_id : (xs : List A) (i : ℕ) → modify xs i (λ a. a) ≡ xs
  modify_id [] i = refl
  modify_id (x ∷ xs) zero = refl
  modify_id (x ∷ xs) (suc i) = ap (λ ys. x ∷ ys) (modify_id xs i)

  pub modify_out : (f : A → A) (xs : List A) (i : ℕ) → get_elem? xs i ≡ none → modify xs i f ≡ xs
  modify_out f [] i out = refl
  modify_out f (x ∷ xs) zero out = absurd (ground arith)
  modify_out f (x ∷ xs) (suc i) out = ap (λ ys. x ∷ ys) (modify_out f xs i out)

  -- `for (k = i; k < i + n; k++) a[k] = f(a[k])`.
  unfoldable pub rounds : (A → A) → ℕ → ℕ → List A → List A
  rounds f zero i xs = xs
  rounds f (suc n) i xs = rounds f n (suc i) (modify xs i f)

  rounds-cons :
      (f : A → A) (n i : ℕ) (x : A) (xs : List A)
      → rounds f n (suc i) (x ∷ xs) ≡ x ∷ rounds f n i xs
  unfolding rounds
  rounds-cons f zero i x xs = refl
  rounds-cons f (suc n) i x xs = rounds-cons f n (suc i) x (modify xs i f)

  -- Over the whole array the loop maps.
  pub rounds-map : (f : A → A) (xs : List A) → rounds f (length xs) 0 xs ≡ map f xs
  unfolding rounds
  rounds-map f [] = refl
  rounds-map f (x ∷ xs) =
      rounds-cons f (length xs) 0 (f x) xs ∙ ap (λ ys. f x ∷ ys) (rounds-map f xs)

  pub count_if-none : (p : A → Bool) (xs : List A) → ((a : A) → p a ≡ false) → count_if p xs ≡ 0
  unfolding count_if
  count_if-none p [] h = refl
  count_if-none p (x ∷ xs) h = ground (arith, h x, count_if-none p xs h)
