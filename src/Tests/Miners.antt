-- ===== src/Tests/Miners.antt =====
-- The theorems on the miners at concrete inputs.
use tollgate_esp.Prelude.{
  ℕ, ◌*◌, ◌/◌, ◌%◌, ◌^◌, ◌≤◌, ◌<◌, ◌≡◌, refl, Bool, true, false, some, List, [], ◌∷◌, find_first,
  find_index,
}
use tollgate_esp.Mining.{
  Doubles, Machine, uint64_max, ClientStats, get_client_stats, mining_init, nbits_to_difficulty,
  new_client, update_hashrate, updated_stats, update_at,
}
use tollgate_esp.Mining.Difficulty.{nbits_to_difficulty-bounds}
use tollgate_esp.Mining.Clients.{HasCounted, IsTable, after_shares, after_shares-IsTable}

-- A shift by n modulo 64, as the host that runs the unit tests makes it.
abbrev host : Machine
host = record { over_shifted = λ value n. value * 2 ^ (n % 64) }

-- A shift by 64 bits and more that leaves nothing.
abbrev clearing : Machine
clearing = record { over_shifted = λ value n. 0 }

-- The assertion of tests/unit/test_mining_payment.c, on the host.
genesis_difficulty : nbits_to_difficulty host 0x1d00ffff ≡ 1
unfolding nbits_to_difficulty
genesis_difficulty = refl

-- The same word on the other machine.
genesis_difficulty_cleared : nbits_to_difficulty clearing 0x1d00ffff ≡ uint64_max
unfolding nbits_to_difficulty
genesis_difficulty_cleared = refl

nbits_to_difficulty-bounds_example :
    (1 ≤ nbits_to_difficulty host 0x0400ffff)
    × (nbits_to_difficulty host 0x0400ffff < 2 ^ 64)
    × ((N : Machine)
        → 0x0400ffff / 2 ^ 24 % 256 < 11
        → nbits_to_difficulty host 0x0400ffff ≡ nbits_to_difficulty N 0x0400ffff)
nbits_to_difficulty-bounds_example = nbits_to_difficulty-bounds host 0x0400ffff

-- Whole numbers in the place of doubles.
abbrev whole : Doubles
whole = record {
  Double = ℕ;
  no_double = 0;
  price_at = λ difficulty. 450 / difficulty;
  rate = λ shares window difficulty. shares;
}

abbrev shares : List (ℕ × Bool × ℕ)
shares = (7, true, 1000) ∷ (9, false, 2000) ∷ []

abbrev one_share : ClientStats whole
one_share = updated_stats whole 1 true 1000 (new_client whole 7 1000)

known : get_client_stats whole 7 (after_shares whole shares (mining_init whole)) ≡ some one_share
unfolding after_shares update_hashrate get_client_stats mining_init update_at updated_stats
    find_first find_index
known = refl

after_shares-IsTable_example :
    IsTable whole (after_shares whole shares (mining_init whole))
    × ((s : ClientStats whole) × (get_client_stats whole 7
            (update_hashrate whole 7 true 5000 (after_shares whole shares (mining_init whole)))
          ≡ some s)
        × HasCounted whole true 5000 one_share s)
after_shares-IsTable_example = after_shares-IsTable whole shares 7 true 5000 one_share known
