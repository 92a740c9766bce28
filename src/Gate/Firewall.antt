-- ===== src/Gate/Firewall.antt =====
-- The client table of tollgate_core_firewall.c: grant, revoke and lookup, and the MAC lookup.
use mathlib.Core.Option
use tollgate_esp.Prelude.{
  ℕ, ◌/◌, ◌%◌, ◌≡◌, Bool, true, false, not, ◌&&◌, Option, none, some, List, [], ◌∷◌, ◌++◌, arith,
  ltb, leb, ◌==◌, ◌>>=◌, if◌then◌else◌, length, is_some, find_index, find_first,
  find_index-count_if, occ, occ-count_if, remove_key, Text, text_eq, is_empty, hex_digit,
}
use tollgate_esp.Gate.State.{Gate, FwClient, Station, Env, max_clients}
use tollgate_esp.Gate.Auth.{dns_set_authenticated}

-- snprintf(mac_out, …, "%02x:%02x:%02x:%02x:%02x:%02x", …); 17 characters, which fit.
unfoldable pub format_mac : List ℕ → Text
unfolding hex_digit
format_mac [] = []
format_mac (b ∷ []) = hex_digit (b / 16) ∷ hex_digit (b % 16) ∷ []
format_mac (b ∷ (c ∷ bs)) = hex_digit (b / 16) ∷ hex_digit (b % 16) ∷ b':' ∷ format_mac (c ∷ bs)

station_mac : ℕ → List Station → Option Text
unfolding format_mac
station_mac ip l = Option.map (λ s. format_mac s.eth) (find_first (λ s. s.addr == ip) l)

-- tollgate_core_fw_get_mac_for_ip: the station list first, then the ARP table.
unfoldable pub fw_get_mac_for_ip : Env → ℕ → Option Text
unfolding station_mac
fw_get_mac_for_ip e ip = elim (e.sta_list >>= station_mac ip) [
  | some m ↦ some m
  | none ↦ station_mac ip e.arp
]

-- find_client_by_ip.
unfoldable pub find_client_by_ip : ℕ → Gate → Option ℕ
find_client_by_ip ip g = find_index (λ c. c.ip == ip) g.clients

-- find_client_by_mac.
find_client_by_mac : Text → Gate → Option ℕ
find_client_by_mac m g = find_index (λ c. not (is_empty c.mac) && text_eq c.mac m) g.clients

-- tollgate_core_fw_is_allowed.
unfoldable pub fw_is_allowed : ℕ → Gate → Bool
unfolding find_client_by_ip
fw_is_allowed ip g = is_some (find_client_by_ip ip g)

-- tollgate_core_fw_is_mac_allowed.
fw_is_mac_allowed : Text → Gate → Bool
unfolding find_client_by_mac
fw_is_mac_allowed m g = is_some (find_client_by_mac m g)

-- client->mac[0] = '\0', then the lookup, which leaves it so where it fails.
abbrev mac_or_empty : Option Text → Text
mac_or_empty none = []
mac_or_empty (some m) = m

unfoldable pub new_client : Env → ℕ → FwClient
new_client e ip = record { ip = ip; mac = mac_or_empty (fw_get_mac_for_ip e ip) }

-- tollgate_core_fw_grant. The client that is there already is written with its own address.
unfoldable pub fw_grant : Env → ℕ → Gate → Gate
unfolding find_client_by_ip new_client
fw_grant e ip g =
    if is_some (find_client_by_ip ip g)
    then g
    else if leb max_clients (length g.clients)
    then g
    else dns_set_authenticated ip true (record g { clients = g.clients ++ new_client e ip ∷ [] })

-- tollgate_core_fw_revoke.
unfoldable pub fw_revoke : ℕ → Gate → Gate
unfolding find_client_by_ip
fw_revoke ip g =
    if is_some (find_client_by_ip ip g)
    then dns_set_authenticated ip false (record g { clients = remove_key (λ c. c.ip) ip g.clients })
    else g

-- The loop of tollgate_core_fw_revoke_all.
unfoldable pub revoke_each : List FwClient → Gate → Gate
revoke_each [] g = g
revoke_each (c ∷ cs) g = revoke_each cs (dns_set_authenticated c.ip false g)

-- tollgate_core_fw_revoke_all.
unfoldable pub fw_revoke_all : Gate → Gate
unfolding revoke_each
fw_revoke_all g = let h = revoke_each g.clients g in record h { clients = [] }

-- tollgate_core_fw_init; switching NAPT on is the network stack's.
unfoldable pub fw_init : ℕ → Gate → Gate
fw_init ap g = record g { ap_ip = ap; clients = [] }

pub fw_is_allowed-occ :
    (ip : ℕ) (g : Gate) → fw_is_allowed ip g ≡ ltb 0 (occ (λ c. c.ip) ip g.clients)
unfolding fw_is_allowed
fw_is_allowed-occ ip g =
    ground (
      arith,
      find_index-count_if (λ c. c.ip == ip) g.clients,
      occ-count_if (λ c. c.ip) ip g.clients,
    )
