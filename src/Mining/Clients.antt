-- ===== src/Mining/Clients.antt =====
-- components/tollgate_core/src/tollgate_core_mining.c: the table of the miners.
use tollgate_esp.Prelude.{
  ℕ, zero, suc, ◌+◌, ◌%◌, ◌^◌, if◌then◌else◌, ◌≤◌, ◌≡◌, refl, sym, ap, ◌∙◌, Bool, true, false,
  Option, none, some, List, [], ◌∷◌, leb, if-cases, if_yes, if_no, Bool-cases, inl, inr,
  find_first-find_index, modify, find_index, find_index_hit, find_index_miss, find_first, is_some,
  length, length-modify, length-append, count_if, count_if-modify, count_if-modify_same,
  count_if-append, arith,
}
use tollgate_esp.Mining.{
  Doubles, ClientStats, Mining, create_client, get_client_stats, get_or_create_client, is_client,
  is_stale, mining_init, new_client, reuse, count_share, update_at, update_hashrate, updated_stats,
}

module _ (F : Doubles) where
  -- At most ten miners, each once.
  pub record IsTable (m : Mining F) : Type 0 where
    pub at_most_ten : length m.clients ≤ 10
    pub once : (k : ℕ) → count_if (is_client F k) m.clients ≤ 1

  reuse-IsTable :
      (client_ip now : ℕ) (o : Option ℕ) (m : Mining F)
      → find_index (is_stale F now) m.clients ≡ o
      → count_if (is_client F client_ip) m.clients ≡ 0
      → IsTable m
      → IsTable (reuse F client_ip now o m).0
  unfolding reuse new_client is_client
  reuse-IsTable client_ip now none m h new w = w
  reuse-IsTable client_ip now (some i) m h new w =
      let (old, here, stale) = find_index_hit (is_stale F now) m.clients i h in
      let f = λ (c : ClientStats F). new_client F client_ip now in
      record {
        at_most_ten = omega (arith, length-modify m.clients i f, w.at_most_ten);
        once = λ k.
            ground (arith, count_if-modify (is_client F k) m.clients i f old here, w.once k, new);
      }

  create_client-IsTable :
      (client_ip now : ℕ) (o : Option ℕ) (m : Mining F)
      → find_index (is_client F client_ip) m.clients ≡ o
      → IsTable m
      → IsTable (create_client F client_ip now o m).0
  unfolding create_client new_client is_client count_if
  create_client-IsTable client_ip now (some i) m h w = w
  create_client-IsTable client_ip now none m h w =
      let new = find_index_miss (is_client F client_ip) m.clients h in
      let c = new_client F client_ip now in
      if-cases (λ (r : Mining F × Option ℕ). IsTable (r.0)) (leb 10 (length m.clients)) _ _
        (λ full. reuse-IsTable client_ip now _ m refl new w)
        (λ room. record {
          at_most_ten = ground (arith, length-append m.clients (c ∷ []), room);
          once = λ k.
              ground (arith, count_if-append (is_client F k) m.clients (c ∷ []), w.once k, new);
        })

  same_client :
      (k difficulty : ℕ) (accepted : Bool) (now : ℕ) (c : ClientStats F)
      → is_client F k (updated_stats F difficulty accepted now c) ≡ is_client F k c
  unfolding is_client updated_stats count_share
  same_client k difficulty true now c = refl
  same_client k difficulty false now c = refl

  update_at-IsTable :
      (accepted : Bool) (now : ℕ) (r : Mining F × Option ℕ)
      → IsTable (r.0)
      → IsTable (update_at F accepted now r)
  unfolding update_at
  update_at-IsTable accepted now (m, none) w = w
  update_at-IsTable accepted now (m, some i) w =
      let f = updated_stats F m.current_difficulty accepted now in
      record {
        at_most_ten = omega (arith, length-modify m.clients i f, w.at_most_ten);
        once = λ k. omega (
          arith,
          w.once k,
          count_if-modify_same (is_client F k) f m.clients i
              (same_client k m.current_difficulty accepted now),
        );
      }

  -- The miners' shares: the address, whether it was accepted, and the time.
  unfoldable pub after_shares : List (ℕ × Bool × ℕ) → Mining F → Mining F
  after_shares [] m = m
  after_shares ((client_ip, accepted, now) ∷ shares) m =
      after_shares shares (update_hashrate F client_ip accepted now m)

  after_shares_from :
      (shares : List (ℕ × Bool × ℕ)) (m : Mining F) → IsTable m → IsTable (after_shares shares m)
  unfolding after_shares update_hashrate get_or_create_client
  after_shares_from [] m w = w
  after_shares_from ((client_ip, accepted, now) ∷ shares) m w =
      after_shares_from shares _
        (update_at-IsTable accepted now _ (create_client-IsTable client_ip now _ m refl w))

  mining_init-IsTable : IsTable (mining_init F)
  unfolding mining_init count_if
  mining_init-IsTable = record { at_most_ten = omega arith; once = λ k. omega arith }

  find_first-modify :
      (p : ClientStats F → Bool) (f : ClientStats F → ClientStats F) (xs : List (ClientStats F))
      (i : ℕ) (c : ClientStats F)
      → ((a : ClientStats F) → p (f a) ≡ p a)
      → find_index p xs ≡ some i
      → find_first p xs ≡ some c
      → find_first p (modify xs i f) ≡ some (f c)
  unfolding find_first find_index
  find_first-modify p f [] i c same h g = absurd (ground arith)
  find_first-modify p f (x ∷ xs) zero c same h g = elim (Bool-cases (p x)) [
    | inl t ↦
        if_yes (p (f x)) (some (f x)) (find_first p xs) (same x ∙ t)
        ∙ ap (λ a. some (f a)) (ground (arith, g, t))
    | inr n ↦ absurd (ground (arith, h, n))
  ]
  find_first-modify p f (x ∷ xs) (suc i) c same h g = elim (Bool-cases (p x)) [
    | inl t ↦ absurd (ground (arith, h, t))
    | inr n ↦
        if_no (p x) (some x) (find_first p (modify xs i f)) n
        ∙ find_first-modify p f xs i c same (ground (arith, h, n))
            (sym (if_no (p x) (some x) (find_first p xs) n) ∙ g)
  ]

  count_share_lem :
      (client_ip : ℕ) (accepted : Bool) (now : ℕ) (m : Mining F) (c : ClientStats F) (o : Option ℕ)
      → find_index (is_client F client_ip) m.clients ≡ o
      → get_client_stats F client_ip m ≡ some c
      → get_client_stats F client_ip (update_at F accepted now (create_client F client_ip now o m))
        ≡ some (updated_stats F m.current_difficulty accepted now c)
  unfolding get_client_stats update_at create_client
  count_share_lem client_ip accepted now m c none h g =
      let agree = find_first-find_index (is_client F client_ip) m.clients in
      let clash : true ≡ false = sym (ap is_some g) ∙ agree ∙ ap is_some h in
      absurd (ground (arith, clash))
  count_share_lem client_ip accepted now m c (some i) h g =
      find_first-modify (is_client F client_ip) (updated_stats F m.current_difficulty accepted now)
        m.clients i c (same_client client_ip m.current_difficulty accepted now) h g

  -- One more of the two numbers of shares, by the answer to the share.
  abbrev pub HasCounted : Bool → ℕ → ClientStats F → ClientStats F → Type 0
  HasCounted accepted now c s =
      (s.shares_accepted
        ≡ (if accepted then (c.shares_accepted + 1) % 2 ^ 64 else c.shares_accepted))
      × (s.shares_rejected
          ≡ (if accepted then c.shares_rejected else (c.shares_rejected + 1) % 2 ^ 64))
      × (s.last_share_time_ms ≡ now)
      × (s.first_share_time_ms ≡ c.first_share_time_ms)
      × (s.ip ≡ c.ip)

  updated_stats-HasCounted :
      (difficulty : ℕ) (accepted : Bool) (now : ℕ) (c : ClientStats F)
      → HasCounted accepted now c (updated_stats F difficulty accepted now c)
  unfolding updated_stats count_share
  updated_stats-HasCounted difficulty true now c = (refl, refl, refl, refl, refl)
  updated_stats-HasCounted difficulty false now c = (refl, refl, refl, refl, refl)

  -- After any shares since the start the table of the miners has at most ten entries and none for an
  -- address twice. The next share of a miner that the table has adds one, on 64 bits, to its accepted
  -- or to its rejected shares and leaves the other number, and sets the time of its last share.
  pub after_shares-IsTable :
      (shares : List (ℕ × Bool × ℕ)) (client_ip : ℕ) (accepted : Bool) (now : ℕ) (c : ClientStats F)
      → get_client_stats F client_ip (after_shares shares (mining_init F)) ≡ some c
      → IsTable (after_shares shares (mining_init F))
        × ((s : ClientStats F) × (get_client_stats F client_ip
                (update_hashrate F client_ip accepted now (after_shares shares (mining_init F)))
              ≡ some s)
            × HasCounted accepted now c s)
  unfolding update_hashrate get_or_create_client
  after_shares-IsTable shares client_ip accepted now c known =
      let m = after_shares shares (mining_init F) in
      (
        after_shares_from shares (mining_init F) mining_init-IsTable,
        (
          updated_stats F m.current_difficulty accepted now c,
          count_share_lem client_ip accepted now m c _ refl known,
          updated_stats-HasCounted m.current_difficulty accepted now c,
        ),
      )
