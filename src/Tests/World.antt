-- ===== src/Tests/World.antt =====
-- A gate at 192.168.4.1 with a mint, and the state of its tables after some calls.
use tollgate_esp.Prelude.{
  ℕ, zero, suc, Bool, true, false, Option, none, some, List, [], ◌∷◌, ◌==◌, if◌then◌else◌,
  replicate, Text, text_eq, codes, map,
}
use tollgate_esp.Prelude.Int.{pos}
use tollgate_esp.Gate.State.{Gate, Env, Platform, Session, cashu, boot}
use tollgate_esp.Gate.Owner.{core_init}
use tollgate_esp.Payment.Outside.{Cjson, Services}
use tollgate_esp.System.Calls.{PaidCall, Call, pay, open_time, grant_access, run, paid_run}

-- A document with one token of 42 sats, and the mint's answer: the nodes are numbers.
object_item : ℕ → Text → Option ℕ
object_item n key =
    if n == 0
    then if text_eq key (codes "token") then some 1 else none
    else if n == 2
    then if text_eq key (codes "mint")
      then some 3
      else if text_eq key (codes "proofs")
      then some 4
      else none
    else if n == 5
    then if text_eq key (codes "amount")
      then some 6
      else if text_eq key (codes "id")
      then some 7
      else if text_eq key (codes "secret")
      then some 8
      else if text_eq key (codes "C")
      then some 9
      else none
    else if n == 10
    then if text_eq key (codes "states") then some 11 else none
    else if n == 12
    then if text_eq key (codes "state") then some 13 else none
    else none

array_of : ℕ → Option ℕ
array_of n = if n == 1 then some 2 else if n == 4 then some 5 else if n == 11 then some 12 else none

is_some_array : Option ℕ → Bool
is_some_array none = false
is_some_array (some n) = true

size_of : Option ℕ → ℕ
size_of none = 0
size_of (some n) = 1

first_of : Option ℕ → ℕ → Option ℕ
first_of o zero = o
first_of o (suc i) = none

text_of : ℕ → Option Text
text_of n =
    if n == 3
    then some (codes "https://mint")
    else if n == 7
    then some (codes "00ad")
    else if n == 8
    then some (codes "secret")
    else if n == 9
    then some (codes "02c0")
    else if n == 13
    then some (codes "UNSPENT")
    else none

unfoldable pub json : Cjson
unfolding object_item array_of is_some_array size_of first_of text_of
json = record {
  Node = ℕ;
  parse = λ t. if text_eq t (codes "token") then some 0 else some 10;
  get_object_item = object_item;
  is_array = λ n. is_some_array (array_of n);
  array_size = λ n. size_of (array_of n);
  array_item = λ n i. first_of (array_of n) i;
  number = λ n. if n == 6 then some 42 else none;
  string = text_of;
}

unfoldable pub services : Services
services = record {
  base64_decode = λ n t. some (codes "token");
  sha256 = λ t. replicate 32 171;
  checkstate = λ url ys. some (codes "states");
}

-- 192.168.4.1, .2 and .3 as they stand in memory.
abbrev pub gate_ip : ℕ
gate_ip = 17082560

abbrev pub client_ip : ℕ
client_ip = 33859776

abbrev pub other_ip : ℕ
other_ip = 50636992

abbrev pub platform : Platform
platform = record {
  get_price_sats = some 21;
  get_step_ms = some (pos 60000);
  get_mint_url = some (codes "https://mint");
  get_metric = none;
  get_step_bytes = none;
  get_time_ms = none;
  spend_proofs = some (λ t. true);
}

abbrev pub env_at : ℕ → Env
env_at t = record {
  platform = platform;
  ticks_ms = pos t;
  sta_list = some (record { addr = client_ip; eth = 2 ∷ 0 ∷ 0 ∷ 0 ∷ 0 ∷ 7 ∷ [] } ∷ []);
  arp = [];
}

abbrev pub token : Text
token = codes "cashuAabcd"

abbrev pub started : Gate
started = core_init gate_ip boot

-- A client that paid at second 1.
abbrev pub one_paid : List (Env × PaidCall)
one_paid = (env_at 1000, pay client_ip token) ∷ []

abbrev pub served : Gate
served = paid_run json services one_paid started

-- Ten clients with sessions.
abbrev pub addresses : List ℕ
addresses = 101 ∷ 102 ∷ 103 ∷ 104 ∷ 105 ∷ 106 ∷ 107 ∷ 108 ∷ 109 ∷ 110 ∷ []

abbrev pub ten_sessions : List (Env × PaidCall)
ten_sessions = map (λ a. (env_at 1000, open_time a 60000)) addresses

abbrev pub crowded : Gate
crowded = paid_run json services ten_sessions started

-- Ten clients that asked for a bare grant.
abbrev pub ten_grants : List (Env × Call)
ten_grants = map (λ a. (env_at 1000, grant_access a)) addresses

abbrev pub granted : Gate
granted = run json services ten_grants started

-- Ten sessions of an address, as no call makes them: a table in which nothing can be evicted.
abbrev pub busy_session : Session
busy_session = record {
  client_ip = other_ip;
  mac = [];
  allotment_ms = 60000;
  start_time_ms = pos 1000;
  allotment_bytes = 0;
  bytes_consumed = 0;
  payment_method = cashu;
  active = true;
}

abbrev pub busy : Gate
busy = record boot { platform_set = true; ap_ip = gate_ip; sessions = replicate 10 busy_session }
