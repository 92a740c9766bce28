-- ===== src/Panel/Keyboard.antt =====
-- main/keyboard.c: the keys, the hit test and the input line.
use tollgate_esp.Prelude.{
  ℕ, suc, ◌+◌, ◌-◌, ◌/◌, Bool, false, ◌&&◌, ◌||◌, Option, none, some, List, [], ◌∷◌, ◌++◌, leb, ltb,
  ◌==◌, if◌then◌else◌, replicate, modify, length, get_elem?, Text, codes,
}
use tollgate_esp.Prelude.Int.{ℤ, pos, negsuc, ◌+ℤ◌, ◌-ℤ◌, ◌*ℤ◌, ltb_ℤ, leb_ℤ}

-- kb_layer_t.
pub data Layer : Type 0 where
  alpha_lower : Layer
  alpha_upper : Layer
  numsym : Layer

-- kb_action_t.
pub data Action : Type 0 where
  no_action : Action
  char : Action
  shift : Action
  backspace : Action
  finish : Action
  layer : Action
  space : Action

-- kb_result_t.
pub record KbResult : Type 0 where
  pub action : Action
  pub ch : ℕ

-- kb_layout_t.
pub record Layout : Type 0 where
  pub key_w : ℤ
  pub key_h : ℤ
  pub key_gap : ℤ
  pub start_y : ℤ
  pub screen_w : ℤ
  pub row_count : ℕ

-- s_layout before a call of kb_set_layout.
abbrev pub default_layout : Layout
default_layout = record {
  key_w = pos 28;
  key_h = pos 36;
  key_gap = pos 2;
  start_y = pos 70;
  screen_w = pos 320;
  row_count = 4;
}

-- get_layer: the strings of s_alpha_lower, s_alpha_upper and s_numsym. The third row of the last
-- ends in a backslash and the letter b, as its literal in the source does.
unfoldable pub rows_of : Layer → List Text
rows_of alpha_lower =
    codes "qwertyuiop"
    ∷ codes "asdfghjkl"
    ∷ (1 ∷ codes "zxcvbnm" ++ (8 ∷ []))
    ∷ (2 ∷ 3 ∷ 4 ∷ [])
    ∷ []
rows_of alpha_upper =
    codes "QWERTYUIOP"
    ∷ codes "ASDFGHJKL"
    ∷ (1 ∷ codes "ZXCVBNM" ++ (8 ∷ []))
    ∷ (2 ∷ 3 ∷ 4 ∷ [])
    ∷ []
rows_of numsym =
    codes "1234567890"
    ∷ (codes "-/:;()$&@" ++ (34 ∷ []))
    ∷ (1 ∷ codes ".,?!'" ++ (92 ∷ b'b' ∷ []))
    ∷ (2 ∷ 3 ∷ 4 ∷ [])
    ∷ []

unfoldable pub keys_or_none : Option Text → Text
keys_or_none none = []
keys_or_none (some keys) = keys

-- kb_get_row_keys, for a layout of at most the four rows that there are; no keys is length 0.
unfoldable pub get_row_keys : Layout → ℕ → Layer → Text
unfolding rows_of keys_or_none
get_row_keys l row ly =
    if leb l.row_count row then [] else keys_or_none (get_elem? (rows_of ly) row)

-- Division of an int by a constant, which rounds towards 0.
quot : ℤ → ℕ → ℤ
quot (pos n) d = pos (n / d)
quot (negsuc n) d = pos 0 -ℤ pos (suc n / d)

-- row_x_offset.
pub row_x_offset : Layout → ℕ → ℕ → ℤ
unfolding quot
row_x_offset l row total_keys =
    let total_w = pos total_keys *ℤ l.key_w +ℤ (pos total_keys -ℤ pos 1) *ℤ l.key_gap in
    let half = quot (l.screen_w -ℤ total_w) 2 in
    let margin = if ltb_ℤ half (pos 2) then pos 2 else half in
    if row == 1 then margin +ℤ quot l.key_w 2 else if row == 2 then margin +ℤ l.key_w else margin

-- key_width_at.
pub key_width_at : Layout → ℕ → ℕ → ℕ → ℤ
unfolding quot row_x_offset
key_width_at l row col total_keys =
    let available = l.screen_w -ℤ row_x_offset l 3 total_keys *ℤ pos 2 in
    let side_w = quot (available -ℤ l.key_gap) 4 in
    if row == 3
    then if col == 0 || suc col == total_keys
      then side_w
      else available -ℤ side_w *ℤ pos 2 -ℤ l.key_gap *ℤ pos 2
    else l.key_w

-- The result for the key of a character.
unfoldable pub result_of : ℕ → KbResult
result_of c =
    if c == 1
    then record { action = shift; ch = 0 }
    else if c == 2
    then record { action = layer; ch = 0 }
    else if c == 3
    then record { action = space; ch = 32 }
    else if c == 4
    then record { action = finish; ch = 0 }
    else if c == 8
    then record { action = backspace; ch = 0 }
    else record { action = char; ch = c }

abbrev pub no_key : KbResult
no_key = record { action = no_action; ch = 0 }

-- The loop of kb_hit_test over the keys from `col`, whose left edge is at cx.
unfoldable pub hit_from : Layout → ℤ → ℕ → ℕ → Text → ℕ → ℤ → KbResult
unfolding result_of key_width_at
hit_from l tx row total_keys [] col cx = no_key
hit_from l tx row total_keys (c ∷ keys) col cx =
    let key_w = key_width_at l row col total_keys in
    let rest = hit_from l tx row total_keys keys (suc col) (cx +ℤ (key_w +ℤ l.key_gap)) in
    if leb_ℤ cx tx && ltb_ℤ tx (cx +ℤ key_w) then result_of c else rest

-- The row of a height in the keys: the quotient of two positive numbers there.
pub row_at : ℤ → ℤ → ℕ
row_at (pos d) (pos h) = d / h
row_at _ _ = 0

-- kb_hit_test, for a layout whose rows have a height.
unfoldable pub hit_test : Layout → ℤ → ℤ → Layer → KbResult
unfolding hit_from get_row_keys row_x_offset row_at
hit_test l tx ty ly =
    let pitch = l.key_h +ℤ l.key_gap in
    let row = row_at (ty -ℤ l.start_y) pitch in
    let keys = get_row_keys l row ly in
    if ltb_ℤ ty l.start_y || leb_ℤ (l.start_y +ℤ pos l.row_count *ℤ pitch) ty
    then no_key
    else hit_from l tx row (length keys) keys 0 (row_x_offset l row (length keys))

-- kb_state_t; the whole input array, of KB_INPUT_MAX + 1 bytes.
pub record KbState : Type 0 where
  pub input : List ℕ
  pub cursor : ℕ
  pub reveal : Bool
  pub layer_of : Layer

-- kb_state_init.
unfoldable pub init : KbState
init = record { input = replicate 65 0; cursor = 0; reveal = false; layer_of = alpha_lower }

-- Writes of a byte at the cursor, and of the NUL behind it.
unfoldable pub put_char : ℕ → KbState → KbState
put_char c st =
    if ltb st.cursor 64
    then record st {
      input = modify (modify st.input st.cursor (λ b. c)) (st.cursor + 1) (λ b. 0);
      cursor = st.cursor + 1;
    }
    else st

unfoldable pub erase : KbState → KbState
erase st =
    if ltb 0 st.cursor
    then record st { input = modify st.input (st.cursor - 1) (λ b. 0); cursor = st.cursor - 1 }
    else st

shifted : Layer → Layer
shifted alpha_lower = alpha_upper
shifted alpha_upper = alpha_lower
shifted numsym = numsym

switched : Layer → Layer
switched numsym = alpha_lower
switched _ = numsym

unfoldable pub apply_action : Action → ℕ → KbState → KbState
unfolding put_char erase shifted switched
apply_action no_action c st = st
apply_action char c st = put_char c st
apply_action backspace c st = erase st
apply_action shift c st = record st { layer_of = shifted st.layer_of }
apply_action layer c st = record st { layer_of = switched st.layer_of }
apply_action space c st = put_char 32 st
apply_action finish c st = st

-- kb_apply.
unfoldable pub apply : KbState → KbResult → KbState
unfolding apply_action
apply st result = apply_action result.action result.ch st
