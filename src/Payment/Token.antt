-- ===== src/Payment/Token.antt =====
-- tollgate_core_cashu.c: decoding a V3 token, the states of its proofs, and the allotment.
-- Memory that malloc was asked for is taken to be there.
use mathlib.Core.Option
use tollgate_esp.Prelude.{
  ℕ, zero, suc, ◌+◌, ◌-◌, ◌*◌, ◌/◌, ◌%◌, ◌^◌, Bool, false, Option, none, some, List, [], ◌∷◌, ◌++◌,
  ◌>>=◌, ◌>>◌, require, map, ltb, leb, ◌==◌, if◌then◌else◌, length, take, drop, replicate,
  find_index, Text, text_eq, is_empty, codes, to_hex,
}
use tollgate_esp.Payment.Outside.{Cjson, Services}

-- tg_cashu_proof_t.
pub record CashuProof : Type 0 where
  pub amount : ℕ
  pub id : Text
  pub secret : Text
  pub c : Text

-- tg_cashu_token_t; proof_count is the length of `proofs`.
pub record CashuToken : Type 0 where
  pub proofs : List CashuProof
  pub mint_url : Text
  pub total_amount : ℕ

-- tg_cashu_proof_state_t.
pub record ProofState : Type 0 where
  pub y_hex : Text
  pub spent : Bool

-- TG_CASHU_MAX_PROOFS, and V3_PREFIX_LEN.
abbrev pub cashu_max_proofs : ℕ
cashu_max_proofs = 10

abbrev v3_prefix_len : ℕ
v3_prefix_len = 6

-- A C string: the bytes before the first NUL.
unfoldable pub c_str : Text → Text
c_str [] = []
c_str (b ∷ s) = if b == 0 then [] else b ∷ c_str s

-- The replacement loop of b64url_decode.
from_url : ℕ → ℕ
from_url b = if b == b'-' then b'+' else if b == b'_' then b'/' else b

-- Its padding loop: '=' up to a multiple of four.
pad : Text → Text
pad s = s ++ replicate ((4 - length s % 4) % 4) b'='

-- b64url_decode.
b64url_decode : Services → Text → ℕ → Option Text
unfolding from_url pad
b64url_decode sv input out_size = sv.base64_decode out_size (pad (map from_url input))

-- The length that tollgate_core_cashu_decode_token works with: up to the first line end.
line_len : Text → ℕ
line_len s =
    let nl : ℕ = elim (find_index (λ b. b == 10) s) [ none ↦ length s | some i ↦ i ] in
    elim (find_index (λ b. b == 13) s) [ none ↦ nl | some i ↦ if ltb i nl then i else nl ]

module _ (cj : Cjson) where
  open cj use {Node, parse, get_object_item, is_array, array_size, array_item, number, string}

  -- strncpy of a member that is a string into a zeroed buffer of n + 1 bytes.
  copy_member : ℕ → Option Node → Text
  copy_member n o = elim (o >>= string) [ none ↦ [] | some s ↦ take n s ]

  -- One round of the loop of parse_proofs_array.
  parse_proof : Node → Option CashuProof
  unfolding copy_member
  parse_proof proof = elim (get_object_item proof (codes "amount") >>= number) [
    | none ↦ none
    | some amount ↦ some (record {
      amount = amount;
      id = copy_member 67 (get_object_item proof (codes "id"));
      secret = copy_member 127 (get_object_item proof (codes "secret"));
      c = copy_member 127 (get_object_item proof (codes "C"));
    })
  ]

  -- The loop, from element i on, with n rounds left; `total_amount` is a uint64_t.
  parse_loop : Node → ℕ → ℕ → List CashuProof → ℕ → Option (List CashuProof × ℕ)
  unfolding parse_proof
  parse_loop arr zero i done total = some (done, total)
  parse_loop arr (suc n) i done total = elim (array_item arr i >>= parse_proof) [
    | none ↦ none
    | some p ↦ parse_loop arr n (suc i) (done ++ p ∷ []) ((total + p.amount) % 2 ^ 64)
  ]

  -- parse_proofs_array.
  unfoldable pub parse_proofs_array : Node → Option (List CashuProof × ℕ)
  unfolding parse_loop
  parse_proofs_array arr = do
    require (is_array arr)
    require (leb (array_size arr) cashu_max_proofs)
    parse_loop arr (array_size arr) 0 [] 0

  -- The mint and the proofs of the object that holds them.
  decode_entry : Node → Option CashuToken
  unfolding copy_member
  decode_entry entry =
      let url = copy_member 255 (get_object_item entry (codes "mint")) in
      elim (get_object_item entry (codes "proofs")) [
        | none ↦ some (record { proofs = []; mint_url = url; total_amount = 0 })
        | some arr ↦
            Option.map (λ r. record { proofs = r.0; mint_url = url; total_amount = r.1 })
              (parse_proofs_array arr)
      ]

  -- The choice between the V3 envelope and a bare object.
  token_entry : Node → Option Node
  token_entry root = elim (get_object_item root (codes "token")) [
    | none ↦ some root
    | some arr ↦ if is_array arr then array_item arr 0 else some root
  ]

  -- The last test: a token without proofs is refused.
  nonempty : CashuToken → Option CashuToken
  nonempty t = elim t.proofs [ [] ↦ none | p ∷ ps ↦ some t ]

  -- tollgate_core_cashu_decode_token.
  unfoldable pub decode_token : Services → Text → Option CashuToken
  unfolding c_str b64url_decode line_len token_entry decode_entry nonempty
  decode_token sv s = do
    let len = line_len s
    require (ltb v3_prefix_len len)
    require (text_eq (take v3_prefix_len s) (codes "cashuA"))
    let b64_len = len - v3_prefix_len
    json ← b64url_decode sv (take b64_len (drop v3_prefix_len s)) (b64_len * 3 / 4 + 4 - 1)
    root ← parse (c_str json)
    entry ← token_entry root
    t ← decode_entry entry
    nonempty t

  state_at : Node → ℕ → Option Text
  state_at arr i = do s ← array_item arr i; st ← get_object_item s (codes "state"); string st

  -- states[i].spent after the loop of tollgate_core_cashu_check_proof_states.
  spent_at : Node → ℕ → Bool
  unfolding state_at
  spent_at arr i =
      if ltb i (array_size arr)
      then elim (state_at arr i) [ none ↦ false | some t ↦ text_eq t (codes "SPENT") ]
      else false

  states_from : Node → ℕ → List CashuProof → Services → List ProofState
  unfolding spent_at
  states_from arr i [] sv = []
  states_from arr i (p ∷ ps) sv =
      record { y_hex = to_hex (sv.sha256 p.secret); spent = spent_at arr i }
      ∷ states_from arr (suc i) ps sv

  -- tollgate_core_cashu_check_proof_states. The body of ten hashes fits its buffer of 4096 bytes,
  -- and the address of the mint its buffer of 512.
  unfoldable pub check_proof_states : Services → CashuToken → Option (List ProofState)
  unfolding states_from c_str
  check_proof_states sv t = do
    resp ←
        sv.checkstate (t.mint_url ++ codes "/v1/checkstate")
          (map (λ p. to_hex (sv.sha256 p.secret)) t.proofs)
    root ← parse (c_str resp)
    arr ← get_object_item root (codes "states")
    require (is_array arr)
    some (states_from arr 0 t.proofs sv)

-- tollgate_core_cashu_calculate_allotment, over uint64_t.
unfoldable pub calculate_allotment : ℕ → ℕ → ℕ → ℕ
calculate_allotment amount price step = if price == 0 then 0 else (amount / price * step) % 2 ^ 64

-- tollgate_core_cashu_is_mint_accepted.
unfoldable pub is_mint_accepted : Text → Text → Bool
is_mint_accepted url accepted =
    if is_empty url then false else if is_empty accepted then false else text_eq url accepted
