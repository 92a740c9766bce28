-- ===== src/Mints/Probes.antt =====
-- main/mint_health.c: the initial state and the two probe rounds.
use tollgate_esp.Prelude.{
  ℕ, zero, suc, Bool, true, false, not, List, map, if◌then◌else◌, ◌==◌, length, take, get_elem?,
  none, some, Text,
}
use tollgate_esp.Prelude.Int.{ℤ, pos}
use tollgate_esp.Mints.Health.{
  MintStatus, MintHealth, Probe, update, update_initial, count_reachable,
}

-- What the network answers to a probe of an address: the result of probe_mint with the error that
-- it leaves in s_last_probe_err, and the time at which it is read.
pub record Network : Type 0 where
  pub answers : Text → Bool
  pub error_of : Text → ℤ
  pub time_of : Text → ℤ

-- MINT_HEALTH_MAX.
abbrev pub mint_health_max : ℕ
mint_health_max = 8

-- An entry of mint_health_init; strncpy keeps 255 bytes.
fresh : Text → MintStatus
fresh url = record {
  url = take 255 url;
  reachable = false;
  consecutive_successes = 0;
  last_probe_ms = pos 0;
  last_http_status = pos 0;
  last_err = pos 0;
}

-- mint_health_init.
init : List Text → MintHealth
unfolding fresh
init urls = record { mints = map fresh (take mint_health_max urls) }

pub probe_of : Network → MintStatus → Probe
probe_of net m = record {
  ok = net.answers m.url;
  http_status = if net.answers m.url then pos 200 else pos 0;
  err_code = if net.answers m.url then pos 0 else net.error_of m.url;
  time_ms = net.time_of m.url;
}

-- One round of the loop, at index i.
unfoldable pub probe_at :
    (ℤ → Probe → MintHealth → MintHealth) → Network → ℕ → MintHealth → MintHealth
probe_at f net i h = elim (get_elem? h.mints i) [ none ↦ h | some m ↦ f (pos i) (probe_of net m) h ]

unfoldable pub probe_from :
    (ℤ → Probe → MintHealth → MintHealth) → Network → ℕ → ℕ → MintHealth → MintHealth
probe_from f net zero i h = h
probe_from f net (suc n) i h = probe_from f net n (suc i) (probe_at f net i h)

-- run_probes, where the mutex is taken; `true` says that the callbacks are fired.
unfoldable pub run_probes : Network → MintHealth → MintHealth × Bool
unfolding probe_from
run_probes net h =
    let k = probe_from update net (length h.mints) 0 h in
    (k, not (count_reachable h == count_reachable k))

-- run_initial_probes, which always fires them.
run_initial_probes : Network → MintHealth → MintHealth × Bool
unfolding probe_from
run_initial_probes net h = (probe_from update_initial net (length h.mints) 0 h, true)
