-- ===== src/Tests/Selectors.antt =====
-- The theorem on the choice of a relay at a concrete input.
use tollgate_esp.Prelude.{true, false, none, [], ◌∷◌, codes}
use tollgate_esp.Selector.{RelayInfo, Selector}

abbrev slow : RelayInfo
slow = record {
  url = codes "wss://a";
  name = [];
  latency_ms = 900;
  supports_nip77 = true;
  alive = true;
  consecutive_failures = 0;
  supported_nips = 77 ∷ [];
}

abbrev fast : RelayInfo
fast = record slow { url = codes "wss://b"; latency_ms = 20; supports_nip77 = false }

abbrev two_relays : Selector
two_relays = record {
  relays = fast ∷ slow ∷ [];
  primary_idx = none;
  fallback_idx = none;
  last_full_probe = 0;
}
