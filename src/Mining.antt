-- ===== src/Mining.antt =====
-- components/tollgate_core/src/tollgate_core_mining.c: the miners' shares and the price of hashes.
use tollgate_esp.Prelude.{
  ℕ, zero, suc, ◌+◌, ◌-◌, ◌*◌, ◌/◌, ◌%◌, ◌^◌, Bool, true, false, ◌||◌, Option, none, some, List, [],
  ◌∷◌, ◌++◌, leb, ltb, ◌==◌, if◌then◌else◌, get_elem?, modify, find_index, find_first, length,
  ◌>>=◌,
}
pub mod Difficulty
pub mod Clients

-- MINING_MAX_CLIENTS.
abbrev pub max_miners : ℕ
max_miners = 10

-- MINING_SHARE_WINDOW_S.
abbrev pub share_window_s : ℕ
share_window_s = 30

abbrev pub uint64_max : ℕ
uint64_max = 2 ^ 64 - 1

-- What a machine makes of a shift of a uint64_t to the left by 64 bits and more, which the language
-- leaves undefined.
pub record Machine : Type 0 where
  pub over_shifted : ℕ → ℕ → ℕ

-- `value << n` on a uint64_t.
unfoldable pub shift_left : Machine → ℕ → ℕ → ℕ
shift_left M value n = (if ltb n 64 then value * 2 ^ n else Machine.over_shifted M value n) % 2 ^ 64

-- The part of nbits_to_difficulty for exponents from 4.
unfoldable pub of_target : ℕ → ℕ
of_target target =
    if target == 0
    then uint64_max
    else let diff = 0xFFFF0000 / target in if diff == 0 then 1 else diff

unfoldable pub by_mantissa : ℕ → ℕ
by_mantissa mantissa = if mantissa == 0 then uint64_max else 0xFFFF0000 / mantissa

-- tollgate_core_mining_nbits_to_difficulty.
unfoldable pub nbits_to_difficulty : Machine → ℕ → ℕ
unfolding by_mantissa of_target shift_left
nbits_to_difficulty M nbits =
    let exponent = nbits / 2 ^ 24 % 256 in
    let mantissa = nbits % 2 ^ 23 in
    if nbits == 0
    then uint64_max
    else if leb exponent 3
    then by_mantissa (mantissa / 2 ^ (8 * (3 - exponent)))
    else of_target (shift_left M mantissa (8 * (exponent - 3)))

-- double, and the two computations on it: the price of a difficulty, and the rate of a number of
-- shares in a number of milliseconds at a difficulty.
pub record Doubles : Type 1 where
  pub Double : Type 0
  pub no_double : Double
  pub price_at : ℕ → Double
  pub rate : ℕ → ℕ → ℕ → Double

module _ (F : Doubles) where
  -- tollgate_mining_client_stats_t.
  pub record ClientStats : Type 0 where
    pub ip : ℕ
    pub shares_accepted : ℕ
    pub shares_rejected : ℕ
    pub first_share_time_ms : ℕ
    pub last_share_time_ms : ℕ
    pub hashrate_ghs : Doubles.Double F

  -- The state of the module; `clients` is the entries below s_client_count.
  pub record Mining : Type 0 where
    pub clients : List ClientStats
    pub current_hashprice : Doubles.Double F
    pub current_nbits : ℕ
    pub current_difficulty : ℕ

  -- tollgate_core_mining_init.
  unfoldable pub mining_init : Mining
  mining_init = record {
    clients = [];
    current_hashprice = F.no_double;
    current_nbits = 0;
    current_difficulty = 1;
  }

  -- tollgate_core_mining_calc_hashprice.
  unfoldable pub calc_hashprice : Machine → ℕ → Doubles.Double F
  calc_hashprice M nbits =
      let diff = nbits_to_difficulty M nbits in
      if diff == 0 || diff == uint64_max then F.no_double else F.price_at diff

  -- tollgate_core_mining_set_current_nbits.
  unfoldable pub set_current_nbits : Machine → ℕ → Mining → Mining
  unfolding calc_hashprice
  set_current_nbits M nbits m = record m {
    current_nbits = nbits;
    current_difficulty = nbits_to_difficulty M nbits;
    current_hashprice = calc_hashprice M nbits;
  }

  -- An entry after memset, with its address and the time.
  unfoldable pub new_client : ℕ → ℕ → ClientStats
  new_client client_ip now = record {
    ip = client_ip;
    shares_accepted = 0;
    shares_rejected = 0;
    first_share_time_ms = now;
    last_share_time_ms = 0;
    hashrate_ghs = F.no_double;
  }

  unfoldable pub is_client : ℕ → ClientStats → Bool
  is_client client_ip c = c.ip == client_ip

  -- `age > MINING_SHARE_WINDOW_S * 2000`.
  unfoldable pub is_stale : ℕ → ClientStats → Bool
  is_stale now c = ltb (c.last_share_time_ms + share_window_s * 2000) now

  unfoldable pub reuse : ℕ → ℕ → Option ℕ → Mining → Mining × Option ℕ
  unfolding new_client
  reuse client_ip now none m = (m, none)
  reuse client_ip now (some i) m =
      (record m { clients = modify m.clients i (λ c. new_client client_ip now) }, some i)

  unfoldable pub create_client : ℕ → ℕ → Option ℕ → Mining → Mining × Option ℕ
  unfolding reuse is_stale
  create_client client_ip now (some i) m = (m, some i)
  create_client client_ip now none m =
      if leb max_miners (length m.clients)
      then reuse client_ip now (find_index (is_stale now) m.clients) m
      else (
        record m { clients = m.clients ++ new_client client_ip now ∷ [] },
        some (length m.clients),
      )

  -- tollgate_core_mining_get_or_create_client, with the index of the entry.
  unfoldable pub get_or_create_client : ℕ → ℕ → Mining → Mining × Option ℕ
  unfolding create_client is_client
  get_or_create_client client_ip now m =
      create_client client_ip now (find_index (is_client client_ip) m.clients) m

  unfoldable pub count_share : Bool → ClientStats → ClientStats
  count_share true c = record c { shares_accepted = (c.shares_accepted + 1) % 2 ^ 64 }
  count_share false c = record c { shares_rejected = (c.shares_rejected + 1) % 2 ^ 64 }

  -- `window_ms`, which is at least 1000.
  unfoldable pub window_ms : ℕ → ℕ → ℕ
  window_ms first now = if ltb now (first + 1000) then 1000 else now - first

  -- The fields that update_hashrate sets.
  unfoldable pub updated_stats : ℕ → Bool → ℕ → ClientStats → ClientStats
  unfolding count_share window_ms
  updated_stats difficulty accepted now c =
      let d = count_share accepted c in
      record d {
        last_share_time_ms = now;
        hashrate_ghs =
            F.rate d.shares_accepted (window_ms c.first_share_time_ms now)
              (if ltb 0 difficulty then difficulty else 1);
      }

  unfoldable pub update_at : Bool → ℕ → Mining × Option ℕ → Mining
  unfolding updated_stats
  update_at accepted now (m, none) = m
  update_at accepted now (m, some i) = record m {
    clients = modify m.clients i (updated_stats m.current_difficulty accepted now);
  }

  -- tollgate_core_mining_update_hashrate.
  unfoldable pub update_hashrate : ℕ → Bool → ℕ → Mining → Mining
  unfolding update_at get_or_create_client
  update_hashrate client_ip accepted now m =
      update_at accepted now (get_or_create_client client_ip now m)

  -- tollgate_core_mining_get_client_stats.
  unfoldable pub get_client_stats : ℕ → Mining → Option ClientStats
  unfolding is_client
  get_client_stats client_ip m = find_first (is_client client_ip) m.clients
