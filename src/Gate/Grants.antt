-- ===== src/Gate/Grants.antt =====
-- What granting and revoking do to the two lists of addresses.
use tollgate_esp.Prelude.{
  ℕ, suc, ◌-◌, ◌≡◌, [], ◌∷◌, arith, ltb, leb, ◌==◌, ◌||◌, if◌then◌else◌, length, length-append,
  is_some, occ-snoc, occ-remove_key, length-remove_key,
}
use tollgate_esp.Gate.State.{Gate, FwClient, Env, max_clients, max_auth_ips}
use tollgate_esp.Gate.Auth.{dns_set_authenticated, is_authenticated, is_authenticated-occ}
use tollgate_esp.Gate.Firewall.{
  fw_grant, fw_revoke, find_client_by_ip, new_client, fw_is_allowed, fw_is_allowed-occ,
}
use tollgate_esp.Gate.Invariant.{grants, listed, InStep}

-- Nothing but the two lists changes.
pub record SameRest (g h : Gate) : Type 0 where
  pub sessions_same : h.sessions ≡ g.sessions
  pub count_same : h.session_count ≡ g.session_count
  pub platform_same : h.platform_set ≡ g.platform_set
  pub ap_same : h.ap_ip ≡ g.ap_ip
  pub port_same : h.mining_port ≡ g.mining_port

pub fw_grant-SameRest : (e : Env) (ip : ℕ) (g : Gate) → SameRest g (fw_grant e ip g)
unfolding fw_grant dns_set_authenticated
fw_grant-SameRest e ip g = ground arith

pub fw_revoke-SameRest : (ip : ℕ) (g : Gate) → SameRest g (fw_revoke ip g)
unfolding fw_revoke dns_set_authenticated
fw_revoke-SameRest ip g = ground arith

known-grants : (ip : ℕ) (g : Gate) → is_some (find_client_by_ip ip g) ≡ ltb 0 (grants ip g)
unfolding fw_is_allowed
known-grants ip g = fw_is_allowed-occ ip g

-- A grant adds the address at the end, unless it is there or the table is full.
pub grants-fw_grant :
    (e : Env) (ip j : ℕ) (g : Gate)
    → grants j (fw_grant e ip g) ≡ (
        if ltb 0 (grants ip g) || leb max_clients (length g.clients)
        then grants j g
        else if ip == j
        then suc (grants j g)
        else grants j g)
unfolding fw_grant dns_set_authenticated
grants-fw_grant e ip j g =
    ground
      (arith, known-grants ip g, occ-snoc (λ (c : FwClient). c.ip) j g.clients (new_client e ip))

pub length-fw_grant :
    (e : Env) (ip : ℕ) (g : Gate)
    → length (fw_grant e ip g).clients ≡ (
        if ltb 0 (grants ip g) || leb max_clients (length g.clients)
        then length g.clients
        else suc (length g.clients))
unfolding fw_grant dns_set_authenticated
length-fw_grant e ip g =
    ground (arith, known-grants ip g, length-append g.clients (new_client e ip ∷ []))

pub grants-fw_revoke :
    (ip j : ℕ) (g : Gate)
    → grants j (fw_revoke ip g) ≡ (if ip == j then grants j g - 1 else grants j g)
unfolding fw_revoke dns_set_authenticated
grants-fw_revoke ip j g =
    ground (arith, known-grants ip g, occ-remove_key (λ (c : FwClient). c.ip) ip j g.clients)

pub length-fw_revoke :
    (ip : ℕ) (g : Gate)
    → length (fw_revoke ip g).clients
      ≡ (if ltb 0 (grants ip g) then length g.clients - 1 else length g.clients)
unfolding fw_revoke dns_set_authenticated
length-fw_revoke ip g =
    ground (arith, known-grants ip g, length-remove_key (λ (c : FwClient). c.ip) ip g.clients)

listed-fw_grant :
    (e : Env) (ip j : ℕ) (g : Gate)
    → listed j (fw_grant e ip g) ≡ (
        if ltb 0 (grants ip g) || leb max_clients (length g.clients)
        then listed j g
        else if ltb 0 (listed ip g) || leb max_auth_ips (length g.auth)
        then listed j g
        else if ip == j
        then suc (listed j g)
        else listed j g)
unfolding fw_grant dns_set_authenticated is_authenticated
listed-fw_grant e ip j g =
    ground
      (arith, known-grants ip g, is_authenticated-occ ip g, occ-snoc (λ (a : ℕ). a) j g.auth ip)

-- With the lists in step, the resolver's list changes with the firewall's.
pub fw_grant-InStep : (e : Env) (ip : ℕ) (g : Gate) → InStep g → InStep (fw_grant e ip g)
unfolding fw_grant dns_set_authenticated is_authenticated
fw_grant-InStep e ip g v = record {
  fits = ground (arith, known-grants ip g, length-append g.clients (new_client e ip ∷ []));
  lengths = ground (
    arith,
    known-grants ip g,
    is_authenticated-occ ip g,
    v.agree ip,
    length-append g.auth (ip ∷ []),
    length-append g.clients (new_client e ip ∷ []),
  );
  agree = λ j.
      ground (arith, listed-fw_grant e ip j g, grants-fw_grant e ip j g, v.agree ip, v.agree j);
  once = λ j. ground (arith, grants-fw_grant e ip j g, v.once j);
}

pub fw_revoke-InStep : (ip : ℕ) (g : Gate) → InStep g → InStep (fw_revoke ip g)
unfolding fw_revoke dns_set_authenticated
fw_revoke-InStep ip g v = record {
  fits = ground (arith, known-grants ip g, length-remove_key (λ (c : FwClient). c.ip) ip g.clients);
  lengths = ground (
    arith,
    known-grants ip g,
    v.agree ip,
    length-remove_key (λ (c : FwClient). c.ip) ip g.clients,
    length-remove_key (λ (a : ℕ). a) ip g.auth,
  );
  agree = λ j. ground (
    arith,
    known-grants ip g,
    v.agree j,
    occ-remove_key (λ (c : FwClient). c.ip) ip j g.clients,
    occ-remove_key (λ (a : ℕ). a) ip j g.auth,
  );
  once = λ j. ground (arith, v.once j, occ-remove_key (λ (c : FwClient). c.ip) ip j g.clients);
}
