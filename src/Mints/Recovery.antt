-- ===== src/Mints/Recovery.antt =====
-- tollgate_core_mint_health.c and main/mint_health.c: sequences and rounds of probes.
use tollgate_esp.Prelude.{
  ℕ, zero, suc, ◌%◌, ◌≡◌, refl, sym, ap, ◌∙◌, inl, inr, false, not, List, [], ◌∷◌, map, leb, ◌==◌,
  if◌then◌else◌, arith, length, modify, modify_at, modify_out, rounds, rounds-map, get_elem?,
  Option-cases,
}
use tollgate_esp.Mints.Health.{
  MintStatus, MintHealth, Probe, updated, update, count_reachable, recovery_threshold,
}
use tollgate_esp.Mints.Probes.{Network, probe_of, probe_at, probe_from, run_probes}

-- The entry after a sequence of probes, the first one first.
pub probed : List Probe → MintStatus → MintStatus
probed [] m = m
probed (p ∷ ps) m = probed ps (updated p m)

-- How many answers in a row there were at the end, n of them before the sequence.
pub streak : ℕ → List Probe → ℕ
streak n [] = n
streak n (p ∷ ps) = streak (if p.ok then suc n else 0) ps

-- The entry knows a streak of n answers.
record Knows (n : ℕ) (m : MintStatus) : Type 0 where
  counter : m.consecutive_successes ≡ n % 256
  trust : m.reachable ≡ leb recovery_threshold n

updated-Knows :
    (p : Probe) (n : ℕ) (m : MintStatus)
    → Knows n m
    → Knows (if p.ok then suc n else 0) (updated p m)
unfolding updated
updated-Knows p n m v = ground arith

probed-Knows :
    (ps : List Probe) (n : ℕ) (m : MintStatus) → Knows n m → Knows (streak n ps) (probed ps m)
unfolding probed streak
probed-Knows [] n m v = v
probed-Knows (p ∷ ps) n m v =
    probed-Knows ps (if p.ok then suc n else 0) (updated p m) (updated-Knows p n m v)

-- From an entry without success, a sequence of probes leaves the mint reachable exactly if its last
-- three or more were answered; the wrap of the counter at 256 changes nothing.
pub probed_reachable :
    (ps : List Probe) (m : MintStatus)
    → m.reachable ≡ false
    → m.consecutive_successes ≡ 0
    → (probed ps m).reachable ≡ leb 3 (streak 0 ps)
probed_reachable ps m down none_yet =
    Knows.trust (probed-Knows ps 0 m (record { counter = none_yet; trust = down }))

-- Mints are probed one by one, so a round settles every entry.
probe_at-mints :
    (net : Network) (i : ℕ) (h : MintHealth)
    → (probe_at update net i h).mints ≡ modify h.mints i (λ m. updated (probe_of net m) m)
unfolding probe_at update
probe_at-mints net i h = elim (Option-cases (get_elem? h.mints i)) [
  | inl out ↦ rw (out, probe_at) (sym (modify_out (λ m. updated (probe_of net m) m) h.mints i out))
  | inr (m, at) ↦
      rw (at, probe_at)
        (modify_at (updated (probe_of net m)) (λ k. updated (probe_of net k) k) h.mints i m at refl)
]

probe_from-mints :
    (net : Network) (n i : ℕ) (h : MintHealth)
    → (probe_from update net n i h).mints ≡ rounds (λ m. updated (probe_of net m) m) n i h.mints
unfolding probe_from rounds
probe_from-mints net zero i h = refl
probe_from-mints net (suc n) i h =
    probe_from-mints net n (suc i) (probe_at update net i h)
    ∙ ap (rounds (λ m. updated (probe_of net m) m) n (suc i)) (probe_at-mints net i h)

-- A round of probes updates each mint by the answer to its own address, and fires the callbacks
-- exactly if the number of reachable mints has changed.
pub run_probes_lem :
    (net : Network) (h : MintHealth)
    → ((run_probes net h).0.mints ≡ map (λ m. updated (probe_of net m) m) h.mints)
      × ((run_probes net h).1 ≡ not (count_reachable h == count_reachable (run_probes net h).0))
unfolding run_probes
run_probes_lem net h = (
  probe_from-mints net (length h.mints) 0 h ∙ rounds-map (λ m. updated (probe_of net m) m) h.mints,
  refl,
)
