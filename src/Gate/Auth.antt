-- ===== src/Gate/Auth.antt =====
-- The list of authenticated addresses in tollgate_core_dns.c.
use tollgate_esp.Prelude.{
  ℕ, ◌≡◌, Bool, true, false, [], ◌∷◌, ◌++◌, arith, ltb, ◌==◌, if◌then◌else◌, length, is_some,
  find_index, find_index-count_if, occ, occ-count_if, remove_key,
}
use tollgate_esp.Gate.State.{Gate, max_auth_ips}

-- is_authenticated.
unfoldable pub is_authenticated : ℕ → Gate → Bool
is_authenticated ip g = is_some (find_index (λ a. a == ip) g.auth)

-- tollgate_core_dns_set_authenticated.
unfoldable pub dns_set_authenticated : ℕ → Bool → Gate → Gate
dns_set_authenticated ip true g =
    if is_authenticated ip g
    then g
    else if ltb (length g.auth) max_auth_ips
    then record g { auth = g.auth ++ ip ∷ [] }
    else g
dns_set_authenticated ip false g = record g { auth = remove_key (λ a. a) ip g.auth }

pub is_authenticated-occ :
    (ip : ℕ) (g : Gate) → is_authenticated ip g ≡ ltb 0 (occ (λ a. a) ip g.auth)
unfolding is_authenticated
is_authenticated-occ ip g =
    ground (arith, find_index-count_if (λ a. a == ip) g.auth, occ-count_if (λ a. a) ip g.auth)
