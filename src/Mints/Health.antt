-- ===== src/Mints/Health.antt =====
-- tollgate_core_mint_health.c.
use tollgate_esp.Prelude.{
  ℕ, ◌+◌, ◌%◌, Bool, true, false, ◌||◌, Option, none, some, List, [], ◌∷◌, leb, ltb, if◌then◌else◌,
  modify, count_if, find_first, find_index, Text, text_eq,
}
use tollgate_esp.Prelude.Int.{ℤ, pos, negsuc}

-- tollgate_mint_status_t; the counter of successes is a uint8_t.
pub record MintStatus : Type 0 where
  pub url : Text
  pub reachable : Bool
  pub consecutive_successes : ℕ
  pub last_probe_ms : ℤ
  pub last_http_status : ℤ
  pub last_err : ℤ

-- tollgate_mint_health_t: the entries below `count`.
pub record MintHealth : Type 0 where
  pub mints : List MintStatus

-- TG_MINT_HEALTH_RECOVERY_THRESHOLD.
abbrev pub recovery_threshold : ℕ
recovery_threshold = 3

-- The result of one probe.
pub record Probe : Type 0 where
  pub ok : Bool
  pub http_status : ℤ
  pub err_code : ℤ
  pub time_ms : ℤ

stamped : Probe → MintStatus → MintStatus
stamped p m = record m {
  last_probe_ms = p.time_ms;
  last_http_status = if p.ok then p.http_status else pos 0;
  last_err = if p.ok then pos 0 else p.err_code;
}

counted : MintStatus → MintStatus
counted m =
    let n = (m.consecutive_successes + 1) % 256 in
    record m {
      consecutive_successes = n;
      reachable = if leb recovery_threshold n then true else m.reachable;
    }

-- The entry after tollgate_core_mint_health_update.
unfoldable pub updated : Probe → MintStatus → MintStatus
unfolding stamped counted
updated p m =
    if p.ok
    then counted (stamped p m)
    else record (stamped p m) { reachable = false; consecutive_successes = 0 }

-- The entry after tollgate_core_mint_health_update_initial.
updated_initial : Probe → MintStatus → MintStatus
unfolding stamped
updated_initial p m =
    if p.ok
    then record (stamped p m) { consecutive_successes = recovery_threshold; reachable = true }
    else record (stamped p m) { consecutive_successes = 0; reachable = false }

-- Both return at once for an index outside 0 .. count - 1.
at_index : (MintStatus → MintStatus) → ℤ → MintHealth → MintHealth
at_index f (pos i) h = record h { mints = modify h.mints i f }
at_index f (negsuc i) h = h

-- tollgate_core_mint_health_update, for a state that is not NULL.
unfoldable pub update : ℤ → Probe → MintHealth → MintHealth
unfolding at_index
update i p h = at_index (updated p) i h

-- tollgate_core_mint_health_update_initial.
pub update_initial : ℤ → Probe → MintHealth → MintHealth
unfolding at_index
update_initial i p h = at_index (updated_initial p) i h

-- strncmp(s, t, strlen(s)) == 0.
starts : Text → Text → Bool
starts [] t = true
starts (c ∷ s) [] = false
starts (c ∷ s) (d ∷ t) = if ltb c d then false else if ltb d c then false else starts s t

-- strstr(t, s) != NULL.
contains : Text → Text → Bool
unfolding starts
contains [] s = starts s []
contains (c ∷ t) s = starts s (c ∷ t) || contains t s

-- The test of the loops that look an address up.
names_mint : Text → MintStatus → Bool
names_mint url m = text_eq m.url url || contains url m.url

-- tollgate_core_mint_health_is_reachable.
is_reachable : Text → MintHealth → Bool
is_reachable url h = elim (find_first (names_mint url) h.mints) [
  | none ↦ false
  | some m ↦ m.reachable
]

marked : MintStatus → MintStatus
marked m = if m.reachable then record m { reachable = false; consecutive_successes = 0 } else m

mark_found : Option ℕ → MintHealth → MintHealth
unfolding marked
mark_found none h = h
mark_found (some i) h = record h { mints = modify h.mints i marked }

-- tollgate_core_mint_health_mark_unreachable.
mark_unreachable : Text → MintHealth → MintHealth
unfolding mark_found
mark_unreachable url h = mark_found (find_index (names_mint url) h.mints) h

-- tollgate_core_mint_health_count_reachable.
pub count_reachable : MintHealth → ℕ
count_reachable h = count_if (λ m. m.reachable) h.mints
