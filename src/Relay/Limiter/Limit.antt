-- ===== src/Relay/Limiter/Limit.antt =====
-- components/wisp_relay/rate_limiter.c: the limit of a connection, through rate_limiter_check.
use tollgate_esp.Prelude.{
  ℕ, suc, ◌%◌, ◌<◌, ◌≡◌, refl, sym, ap, ◌∙◌, Bool, true, none, some, List, [], ◌∷◌, if◌then◌else◌,
  get_elem?, modify, find_index, arith, count_if, length, get_elem?-modify_self, find_index_hit,
  find_index_miss, count_if-pos, find_index-modify_same, find_index-modify_new, Option-cases, inl,
  inr, ◌⊎◌,
}
use tollgate_esp.Relay.Limiter.{
  RateType, event, req, RateConfig, RateBucket, RateLimiter, is_of, is_unused, taken, renewed,
  counted, admit, check, check_at, get_bucket, get_found, take_unused, seconds,
}
use tollgate_esp.Relay.Limiter.Window.{admitted, in_window, limit_of, min, admitted_lem}

-- The checks of one kind for a connection, at these times: the limiter, and how many were allowed.
pub checks : ℕ → RateType → List ℕ → RateLimiter → RateLimiter × ℕ
checks fd type [] rl = (rl, 0)
checks fd type (s ∷ times) rl =
    let rest = checks fd type times (check fd type s rl).0 in
    (rest.0, if (check fd type s rl).1 then suc rest.1 else rest.1)

-- The limiter after a check of the bucket at i.
admitted_at : RateType → ℕ → ℕ → RateLimiter → RateLimiter
admitted_at type i now rl = record rl {
  buckets = modify rl.buckets i (λ b. (admit rl.config type now b).0);
}

get_bucket-known :
    (fd now i : ℕ) (rl : RateLimiter)
    → find_index (is_of fd) rl.buckets ≡ some i
    → get_bucket fd now rl ≡ (rl, some i)
unfolding get_bucket get_found
get_bucket-known fd now i rl found = rw (found, get_found) refl

check_at-known :
    (type : RateType) (now i : ℕ) (b : RateBucket) (rl : RateLimiter)
    → get_elem? rl.buckets i ≡ some b
    → check_at type now (rl, some i) ≡ (admitted_at type i now rl, (admit rl.config type now b).1)
unfolding check_at admitted_at
check_at-known type now i b rl at = rw (at, check_at) refl

check-known :
    (fd i s : ℕ) (type : RateType) (b : RateBucket) (rl : RateLimiter)
    → find_index (is_of fd) rl.buckets ≡ some i
    → get_elem? rl.buckets i ≡ some b
    → s < 4294967296
    → check fd type s rl ≡ (admitted_at type i s rl, (admit rl.config type s b).1)
unfolding check seconds
check-known fd i s type b rl found at small =
    let same : s % 4294967296 ≡ s = omega arith in
    ap (λ n. check_at type n (get_bucket fd n rl)) same
    ∙ ap (check_at type s) (get_bucket-known fd s i rl found)
    ∙ check_at-known type s i b rl at

is_of-admit :
    (fd : ℕ) (config : RateConfig) (type : RateType) (now : ℕ) (b : RateBucket)
    → is_of fd (admit config type now b).0 ≡ is_of fd b
unfolding is_of admit renewed counted
is_of-admit fd config event now b = ground arith
is_of-admit fd config req now b = ground arith

-- The checks of a connection with a bucket are those of its bucket.
checks-known :
    (type : RateType) (times : List ℕ) (fd start i : ℕ) (b : RateBucket) (rl : RateLimiter)
    → find_index (is_of fd) rl.buckets ≡ some i
    → get_elem? rl.buckets i ≡ some b
    → start < 4294967236
    → in_window start times ≡ true
    → (checks fd type times rl).1 ≡ (admitted rl.config type times b).1
unfolding checks admitted in_window admitted_at
checks-known type [] fd start i b rl found at early inside = refl
checks-known type (s ∷ times) fd start i b rl found at early inside =
    let step = check-known fd i s type b rl found at (ground arith) in
    let rest =
      checks-known type times fd start i (admit rl.config type s b).0 (admitted_at type i s rl)
        (find_index-modify_same (is_of fd) (λ b. (admit rl.config type s b).0) rl.buckets i
            (is_of-admit fd rl.config type s)
          ∙ found)
        (get_elem?-modify_self rl.buckets i (λ b. (admit rl.config type s b).0) ∙ rw at refl) early
        (ground arith) in
    rw (step, rest) refl

in_window-start :
    (start : ℕ) (times : List ℕ)
    → in_window start times ≡ true
    → in_window start (start ∷ times) ≡ true
unfolding in_window
in_window-start start times inside = ground (arith, inside)

taken-is_of : (fd now : ℕ) (b : RateBucket) → is_of fd (taken fd now b) ≡ true
unfolding is_of taken
taken-is_of fd now b = ground arith

-- The first check takes the unused bucket, and is then one of a connection that has it.
checks-first :
    (fd start : ℕ) (type : RateType) (times : List ℕ) (j : ℕ) (b : RateBucket) (rl : RateLimiter)
    → find_index (is_of fd) rl.buckets ≡ none
    → find_index is_unused rl.buckets ≡ some j
    → get_elem? rl.buckets j ≡ some b
    → start < 4294967236
    → in_window start times ≡ true
    → (checks fd type (start ∷ times) rl).1
      ≡ (admitted rl.config type (start ∷ times) (taken fd start b)).1
unfolding checks check seconds get_bucket
checks-first fd start type times j b rl miss hit at early inside =
    let given = record rl { buckets = modify rl.buckets j (taken fd start) } in
    let has =
      find_index-modify_new (is_of fd) (taken fd start) rl.buckets j b miss at
        (taken-is_of fd start b) in
    let small : start % 4294967296 ≡ start = omega arith in
    let got : get_bucket fd start rl ≡ (given, some j) =
      rw (miss, get_found) (rw (hit, take_unused) refl) in
    let first : check fd type start rl ≡ check fd type start given =
      ap (λ n. check_at type n (get_bucket fd n rl)) small
      ∙ ap (check_at type start) got
      ∙ sym (ap (check_at type start) (get_bucket-known fd start j given has))
      ∙ sym (ap (λ n. check_at type n (get_bucket fd n given)) small) in
    ap
      (λ (r : RateLimiter × Bool).
        if r.1 then suc (checks fd type times r.0).1 else (checks fd type times r.0).1)
      first
    ∙ checks-known type (start ∷ times) fd start j (taken fd start b) given has
        (get_elem?-modify_self rl.buckets j (taken fd start) ∙ rw at refl) early
        (in_window-start start times inside)

-- A connection that has no bucket, while one is unused, is allowed in the 60 seconds from its first
-- request as many requests of one kind as it makes, up to the configured limit; the clock stays
-- within 32 bits.
pub checks_lem :
    (fd start : ℕ) (type : RateType) (times : List ℕ) (rl : RateLimiter)
    → limit_of rl.config type < 65536
    → start < 4294967236
    → in_window start times ≡ true
    → count_if (is_of fd) rl.buckets ≡ 0
    → 0 < count_if is_unused rl.buckets
    → (checks fd type (start ∷ times) rl).1 ≡ min (suc (length times)) (limit_of rl.config type)
checks_lem fd start type times rl word early inside new room =
    found (Option-cases (find_index (is_of fd) rl.buckets))
      (Option-cases (find_index is_unused rl.buckets))
  where
    found :
        (find_index (is_of fd) rl.buckets ≡ none)
          ⊎ ((i : ℕ) × (find_index (is_of fd) rl.buckets ≡ some i))
        → (find_index is_unused rl.buckets ≡ none)
          ⊎ ((i : ℕ) × (find_index is_unused rl.buckets ≡ some i))
        → (checks fd type (start ∷ times) rl).1 ≡ min (suc (length times)) (limit_of rl.config type)
    found (inr (i, hit)) o =
        let (b, at, its) = find_index_hit (is_of fd) rl.buckets i hit in
        absurd (omega (arith, new, count_if-pos (is_of fd) rl.buckets i b at its))
    found (inl miss) (inl full) =
        absurd (omega (arith, room, find_index_miss is_unused rl.buckets full))
    found (inl miss) (inr (j, hit)) =
        let (b, at, unused) = find_index_hit is_unused rl.buckets j hit in
        checks-first fd start type times j b rl miss hit at early inside
        ∙ admitted_lem rl.config type fd start (start ∷ times) b word early
            (in_window-start start times inside)
