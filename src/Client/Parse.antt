-- ===== src/Client/Parse.antt =====
-- components/tollgate_core/src/tollgate_core_client.c: the announcement of a gate, and its answer to
-- a payment.
use tollgate_esp.Prelude.{
  ℕ, zero, suc, ◌-◌, ◌%◌, Bool, true, false, not, ◌&&◌, Option, none, some, [], ltb, leb, ◌==◌,
  if◌then◌else◌, take, Text, codes, text_eq,
}
use tollgate_esp.Prelude.Int.{ℤ, pos, negsuc}
use tollgate_esp.Prelude.Numbers.{atoi, atoll}

-- cJSON on a parsed tree: `number` is valueint where cJSON_IsNumber holds, `string` is valuestring
-- where cJSON_IsString does, and get_object_item is cJSON_GetObjectItemCaseSensitive.
pub record Json : Type 1 where
  pub Node : Type 0
  pub parse : Text → Option Node
  pub get_object_item : Node → Text → Option Node
  pub is_array : Node → Bool
  pub array_size : Node → ℕ
  pub array_item : Node → ℕ → Option Node
  pub number : Node → Option ℤ
  pub string : Node → Option Text

-- tollgate_discovery_t.
pub record Discovery : Type 0 where
  pub is_tollgate : Bool
  pub price_per_step : ℤ
  pub step_size_ms : ℤ
  pub mint_url : Text
  pub metric : Text
  pub unit : Text
  pub mining_available : Bool
  pub mining_port : ℕ

-- A discovery after memset.
abbrev pub no_discovery : Discovery
no_discovery = record {
  is_tollgate = false;
  price_per_step = pos 0;
  step_size_ms = pos 0;
  mint_url = [];
  metric = [];
  unit = [];
  mining_available = false;
  mining_port = 0;
}

port_of : ℤ → ℕ
port_of (pos n) = n % 65536
port_of (negsuc n) = 65535 - n % 65536

eq_int : Option ℤ → ℕ → Bool
eq_int none n = false
eq_int (some (negsuc m)) n = false
eq_int (some (pos m)) n = m == n

-- A change by a value, where there is one.
changed : Option Text → (Text → Discovery) → Discovery → Discovery
changed none f d = d
changed (some s) f d = f s

module _ (J : Json) where
  text_at : Option (Json.Node J) → Option Text
  text_at none = none
  text_at (some node) = J.string node

  is_text : Option Text → Text → Bool
  is_text none t = false
  is_text (some s) t = text_eq s t

  -- The branch of "price_per_step".
  read_price : Json.Node J → ℕ → Discovery → Discovery
  unfolding text_at is_text port_of changed
  read_price tag tag_len d =
      let payment_type = text_at (J.array_item tag 1) in
      let port = text_at (J.array_item tag 2) in
      if is_text payment_type (codes "mining") && leb 3 tag_len
      then (let mining = record d { mining_available = true } in
          changed port (λ s. record mining { mining_port = port_of (atoi s) }) mining)
      else if is_text payment_type (codes "cashu") && leb 6 tag_len
      then (let priced = changed port (λ s. record d { price_per_step = atoi s }) d in
          let in_unit =
            changed (text_at (J.array_item tag 3)) (λ s. record priced { unit = take 15 s })
              priced in
          changed (text_at (J.array_item tag 4)) (λ s. record in_unit { mint_url = take 255 s })
            in_unit)
      else d

  -- The body of the loop on the tags, on an array with a name.
  read_named : Json.Node J → ℕ → Text → Discovery → Discovery
  unfolding text_at changed read_price
  read_named tag tag_len name d =
      let value = text_at (J.array_item tag 1) in
      if text_eq name (codes "metric")
      then changed value (λ s. record d { metric = take 31 s }) d
      else if text_eq name (codes "step_size")
      then changed value (λ s. record d { step_size_ms = atoi s }) d
      else if text_eq name (codes "price_per_step") && leb 3 tag_len
      then read_price tag tag_len d
      else d

  read_tag : Option (Json.Node J) → Discovery → Discovery
  unfolding text_at read_named
  read_tag none d = d
  read_tag (some tag) d =
      if not (J.is_array tag)
      then d
      else if ltb (J.array_size tag) 2
      then d
      else elim (text_at (J.array_item tag 0)) [
        | none ↦ d
        | some name ↦ read_named tag (J.array_size tag) name d
      ]

  read_tags : Json.Node J → ℕ → ℕ → Discovery → Discovery
  unfolding read_tag
  read_tags tags zero i d = d
  read_tags tags (suc n) i d = read_tags tags n (suc i) (read_tag (J.array_item tags i) d)

  array_tags : Json.Node J → Option (Json.Node J)
  array_tags root = elim (J.get_object_item root (codes "tags")) [
    | none ↦ none
    | some tags ↦ if J.is_array tags then some tags else none
  ]

  kind_is : Json.Node J → ℕ → Bool
  unfolding eq_int
  kind_is root n = elim (J.get_object_item root (codes "kind")) [
    | none ↦ false
    | some node ↦ eq_int (J.number node) n
  ]

  -- tollgate_core_client_parse_discovery, `none` for false.
  pub parse_discovery : Text → Option Discovery
  unfolding read_tags array_tags kind_is
  parse_discovery json = elim (J.parse json) [
    | none ↦ none
    | some root ↦
        if not (kind_is root 10021)
        then none
        else (let found = record no_discovery { is_tollgate = true; unit = codes "sat" } in
            elim (array_tags root) [
              | none ↦ some found
              | some tags ↦ some (read_tags tags (J.array_size tags) 0 found)
            ])
  ]

  read_allotment : Option (Json.Node J) → ℤ → ℤ
  unfolding text_at is_text
  read_allotment none allotment = allotment
  read_allotment (some tag) allotment =
      if not (J.is_array tag)
      then allotment
      else if is_text (text_at (J.array_item tag 0)) (codes "allotment")
      then elim (text_at (J.array_item tag 1)) [ none ↦ allotment | some s ↦ atoll s ]
      else allotment

  read_allotments : Json.Node J → ℕ → ℕ → ℤ → ℤ
  unfolding read_allotment
  read_allotments tags zero i allotment = allotment
  read_allotments tags (suc n) i allotment =
      read_allotments tags n (suc i) (read_allotment (J.array_item tags i) allotment)

  -- tollgate_core_client_parse_session, `none` for false; the caller's allotment is 0 before.
  pub parse_session : Text → Option ℤ
  unfolding read_allotments array_tags kind_is
  parse_session json = elim (J.parse json) [
    | none ↦ none
    | some root ↦ if not (kind_is root 1022) then none else elim (array_tags root) [
      | none ↦ some (pos 0)
      | some tags ↦ some (read_allotments tags (J.array_size tags) 0 (pos 0))
    ]
  ]
