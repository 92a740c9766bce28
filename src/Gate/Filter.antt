-- ===== src/Gate/Filter.antt =====
-- The forwarding filter of tollgate_core_firewall.c, which the IP stack asks about each packet.
use tollgate_esp.Prelude.{
  ℕ, ◌+◌, ◌*◌, ◌/◌, ◌%◌, ◌≤◌, ◌<◌, ◌≡◌, ◌≢◌, ◌⊎◌, ◌↔◌, Bool, true, false, ◌&&◌, ◌||◌, arith, ltb,
  leb, ◌==◌, if◌then◌else◌, count_if,
}
use tollgate_esp.Gate.State.{Gate, Env}
use tollgate_esp.Gate.Firewall.{fw_is_allowed}
use tollgate_esp.Gate.Session.{session_tick}
use tollgate_esp.Gate.Invariant.{IsPaidOnly}
use tollgate_esp.Gate.Tick.{current, session_tick-allowed, session_tick-ap_ip}

-- What the filter reads of a packet: its length, the addresses as they stand in memory, the
-- protocol, and the destination port in host order, which stands there from 40 bytes on.
pub record Packet : Type 0 where
  pub len : ℕ
  pub src : ℕ
  pub dest : ℕ
  pub proto : ℕ
  pub tcp_dest : ℕ

-- lwip_ntohl on a little-endian machine: the four bytes in reverse.
unfoldable pub ntohl : ℕ → ℕ
ntohl x = x % 256 * 16777216 + x / 256 % 256 * 65536 + x / 65536 % 256 * 256 + x / 16777216 % 256

-- The answers 1, 0 and -1.
pub data Verdict : Type 0 where
  forward drop malformed : Verdict

-- x & 0xFFFFFF00.
unfoldable pub subnet : ℕ → ℕ
subnet x = x / 256 * 256

abbrev open_port : ℕ → ℕ → Bool
open_port mining_port port = port == 80 || (port == 2121 || (port == 4869 || port == mining_port))

-- is_sandbox_allowed.
is_sandbox_allowed : Packet → Gate → Bool
is_sandbox_allowed p g =
    if ltb p.len 20
    then false
    else if ntohl p.dest == ntohl g.ap_ip
    then (p.proto == 6 && open_port g.mining_port (if leb 40 p.len then p.tcp_dest else 0))
      || (p.proto == 17 || p.proto == 1)
    else false

-- tollgate_core_ip4_canforward_filter.
pub canforward_filter : Packet → Gate → Verdict
canforward_filter p g =
    if ltb p.len 20
    then malformed
    else if subnet (ntohl p.src) == subnet (ntohl g.ap_ip)
    then if fw_is_allowed p.src g then forward else if is_sandbox_allowed p g then forward else drop
    else forward

-- A whole packet from a station of the access point.
pub record FromStation (p : Packet) (g : Gate) : Type 0 where
  pub whole : 20 ≤ p.len
  pub local : subnet (ntohl p.src) ≡ subnet (ntohl g.ap_ip)

-- A packet for the access point itself, to a service that is open to everyone.
pub record ForServices (p : Packet) (g : Gate) : Type 0 where
  pub to_gate : ntohl p.dest ≡ ntohl g.ap_ip
  pub service :
      ((p.proto ≡ 6)
        × (((40 ≤ p.len)
              × ((p.tcp_dest ≡ 80)
                  ⊎ (p.tcp_dest ≡ 2121)
                  ⊎ (p.tcp_dest ≡ 4869)
                  ⊎ (p.tcp_dest ≡ g.mining_port)))
            ⊎ ((p.len < 40) × (g.mining_port ≡ 0))))
      ⊎ (p.proto ≡ 17)
      ⊎ (p.proto ≡ 1)

-- A whole packet from a station passes exactly if its sender is let through or it is for an open
-- service of the gate; otherwise it is dropped.
pub filter_passes :
    (p : Packet) (g : Gate)
    → FromStation p g
    → (canforward_filter p g ≡ forward) ↔ ((fw_is_allowed p.src g ≡ true) ⊎ ForServices p g)
unfolding canforward_filter is_sandbox_allowed
filter_passes p g v = (λ h. ground (arith, h), λ h. ground (arith, h))

-- After a tick, a packet from a station to the world is forwarded exactly if its sender had a
-- session that has not run out, where the firewall served the paid sessions only.
pub filter-session_tick :
    (e : Env) (g : Gate) (p : Packet)
    → IsPaidOnly g
    → FromStation p g
    → ntohl p.dest ≢ ntohl g.ap_ip
    → canforward_filter p (session_tick e g)
      ≡ (if ltb 0 (count_if (current e g p.src) g.sessions) then forward else drop)
unfolding canforward_filter is_sandbox_allowed
filter-session_tick e g p v from away =
    rw (session_tick-ap_ip e g)
      (ground (arith, session_tick-ap_ip e g, session_tick-allowed e g p.src v))
