-- ===== src/Gate/Invariant.antt =====
-- What holds of the gate's tables between two calls.
use tollgate_esp.Prelude.{ℕ, ◌≤◌, ◌≡◌, length, count_if, occ}
use tollgate_esp.Gate.State.{Gate, session_max_clients, max_clients}
use tollgate_esp.Gate.Session.{serves, active_count}

-- How many active sessions an address has.
abbrev pub holders : ℕ → Gate → ℕ
holders ip g = count_if (serves ip) g.sessions

-- How often an address stands in the client table of the firewall, and in the list of the resolver.
abbrev pub grants : ℕ → Gate → ℕ
grants ip g = occ (λ c. c.ip) ip g.clients

abbrev pub listed : ℕ → Gate → ℕ
listed ip g = occ (λ a. a) ip g.auth

-- The two lists of addresses agree with one another, hold an address once, and fit their arrays.
pub record InStep (g : Gate) : Type 0 where
  pub fits : length g.clients ≤ max_clients
  pub lengths : length g.auth ≡ length g.clients
  pub agree : (ip : ℕ) → listed ip g ≡ grants ip g
  pub once : (ip : ℕ) → grants ip g ≤ 1

-- The tables by themselves: ten slots, an exact session counter, at most one active session for an
-- address, and a resolver that knows the clients of the firewall and no others.
pub record IsSound (g : Gate) : Type 0 where
  pub slots : length g.sessions ≡ session_max_clients
  pub counted : g.session_count ≡ active_count g
  pub one_session : (ip : ℕ) → holders ip g ≤ 1
  pub in_step : InStep g

-- The firewall serves exactly the addresses with an active session.
pub record IsPaidOnly (g : Gate) : Type 0 where
  pub sound : IsSound g
  pub exact : (ip : ℕ) → grants ip g ≡ holders ip g
  pub as_many : length g.clients ≡ g.session_count
