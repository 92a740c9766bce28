-- ===== src/Panel/Typing.antt =====
-- main/keyboard.c: sequences of keys, and the input line.
use tollgate_esp.Prelude.{
  ℕ, zero, suc, ◌+◌, ◌-◌, ◌≡◌, refl, sym, ap, ◌∙◌, Bool, true, false, ◌||◌, some, List, [], ◌∷◌,
  ◌++◌, ltb, ◌==◌, if◌then◌else◌, modify, length, get_elem?, take, Text, arith, length-modify,
  take-modify_ge, take-modify_at, take-take, length-take, get_elem?-exists, get_elem?-modify_self,
  get_elem?-lt, length-append, Bool-cases, inl, inr, subst,
}
use tollgate_esp.Prelude.Int.{ℤ, pos, ◌+ℤ◌, ◌-ℤ◌, ◌*ℤ◌, ltb_ℤ, leb_ℤ}
use tollgate_esp.Panel.Keyboard.{
  numsym, Action, no_action, char, shift, backspace, finish, layer, space, KbResult, Layout,
  rows_of, get_row_keys, keys_or_none, result_of, hit_from, hit_test, key_width_at, row_x_offset,
  row_at, KbState, init, put_char, erase, apply_action, apply,
}

-- What the actions make of a text of at most 64 bytes.
typed_char : ℕ → Text → Text
typed_char c t = if ltb (length t) 64 then t ++ (c ∷ []) else t

typed_action : Action → ℕ → Text → Text
unfolding typed_char
typed_action char c t = typed_char c t
typed_action space c t = typed_char 32 t
typed_action backspace c t = take (length t - 1) t
typed_action _ c t = t

pub typed : List KbResult → Text → Text
unfolding typed_action
typed [] t = t
typed (r ∷ rs) t = typed rs (typed_action r.action r.ch t)

pub applied : List KbResult → KbState → KbState
applied [] st = st
applied (r ∷ rs) st = applied rs (apply st r)

-- The line holds the text, with the NUL behind it.
pub record Shows (st : KbState) (t : Text) : Type 0 where
  pub room : length st.input ≡ 65
  pub place : st.cursor ≡ length t
  pub text : take st.cursor st.input ≡ t
  pub ended : get_elem? st.input st.cursor ≡ some 0

put_char-Shows :
    (c : ℕ) (st : KbState) (t : Text) → Shows st t → Shows (put_char c st) (typed_char c t)
unfolding put_char typed_char
put_char-Shows c st t v = elim (Bool-cases (ltb st.cursor 64)) [
  | inl lt ↦
      let once = modify st.input st.cursor (λ b. c) in
      let len = length-modify st.input st.cursor (λ b. c) in
      let (old, there) =
        get_elem?-exists once (st.cursor + 1) (ground (arith, len, Shows.room v)) in
      let fits = ap (λ n. ltb n 64) (sym (Shows.place v)) ∙ lt in
      rw (lt, fits)
        (record {
          room = length-modify once (st.cursor + 1) (λ b. 0) ∙ len ∙ Shows.room v;
          place = omega (arith, length-append t (c ∷ []), Shows.place v);
          text =
              take-modify_ge (st.cursor + 1) once (st.cursor + 1) (λ b. 0) (omega arith)
              ∙ take-modify_at (st.cursor + 1) st.input st.cursor c refl
                  (ground (arith, Shows.room v))
              ∙ ap (λ s. s ++ (c ∷ [])) (Shows.text v);
          ended = get_elem?-modify_self once (st.cursor + 1) (λ b. 0) ∙ rw there refl;
        })
  | inr full ↦ let over = ap (λ n. ltb n 64) (sym (Shows.place v)) ∙ full in rw (full, over) v
]

nothing_left : (t : Text) → length t ≡ 0 → take (length t - 1) t ≡ t
nothing_left [] h = refl
nothing_left (c ∷ t) h = absurd (omega arith)

erase-Shows : (st : KbState) (t : Text) → Shows st t → Shows (erase st) (take (length t - 1) t)
unfolding erase
erase-Shows st t v = elim (Bool-cases (ltb 0 st.cursor)) [
  | inl more ↦
      let k = st.cursor - 1 in
      let (old, there) =
        get_elem?-exists st.input k
          (ground (arith, Shows.room v, get_elem?-lt st.input st.cursor 0 (Shows.ended v))) in
      rw more (record {
        room = length-modify st.input k (λ b. 0) ∙ Shows.room v;
        place = ap (λ n. n - 1) (Shows.place v) ∙ sym (length-take (length t - 1) t (omega arith));
        text =
            take-modify_ge k st.input k (λ b. 0) (omega arith)
            ∙ sym (take-take k st.cursor st.input (omega arith))
            ∙ ap (take k) (Shows.text v)
            ∙ ap (λ n. take (n - 1) t) (Shows.place v);
        ended = get_elem?-modify_self st.input k (λ b. 0) ∙ rw there refl;
      })
  | inr empty ↦
      rw empty (subst (Shows st) (sym (nothing_left t (ground (arith, empty, Shows.place v)))) v)
]

apply-Shows :
    (a : Action) (c : ℕ) (st : KbState) (t : Text)
    → Shows st t
    → Shows (apply_action a c st) (typed_action a c t)
unfolding apply_action typed_action
apply-Shows no_action c st t v = v
apply-Shows char c st t v = put_char-Shows c st t v
apply-Shows shift c st t v = record {
  room = Shows.room v;
  place = Shows.place v;
  text = Shows.text v;
  ended = Shows.ended v;
}
apply-Shows backspace c st t v = erase-Shows st t v
apply-Shows finish c st t v = v
apply-Shows layer c st t v = record {
  room = Shows.room v;
  place = Shows.place v;
  text = Shows.text v;
  ended = Shows.ended v;
}
apply-Shows space c st t v = put_char-Shows 32 st t v

applied-from :
    (rs : List KbResult) (st : KbState) (t : Text) → Shows st t → Shows (applied rs st) (typed rs t)
unfolding applied typed apply
applied-from [] st t v = v
applied-from (r ∷ rs) st t v =
    applied-from rs (apply st r) (typed_action r.action r.ch t) (apply-Shows r.action r.ch st t v)

-- After any sequence of keys from the start, the array still has its 65 bytes, the bytes before the
-- cursor are the text that the keys make when each character is appended up to a length of 64 and
-- each backspace drops the last one, and a NUL follows them.
pub applied-Shows : (rs : List KbResult) → Shows (applied rs init) (typed rs [])
unfolding init
applied-Shows rs =
    applied-from rs init [] (record { room = refl; place = refl; text = refl; ended = refl })

pub is_backspace : Action → Bool
is_backspace backspace = true
is_backspace _ = false

has_backspace : Text → Bool
has_backspace [] = false
has_backspace (c ∷ keys) = if c == 8 then true else has_backspace keys

hit_from-none :
    (l : Layout) (tx : ℤ) (row total : ℕ) (keys : Text) (col : ℕ) (cx : ℤ)
    → has_backspace keys ≡ false
    → is_backspace (hit_from l tx row total keys col cx).action ≡ false
unfolding hit_from is_backspace has_backspace result_of
hit_from-none l tx row total [] col cx h = refl
hit_from-none l tx row total (c ∷ keys) col cx h = ground (
  arith,
  hit_from-none l tx row total keys (suc col) (cx +ℤ (key_width_at l row col total +ℤ l.key_gap)),
)

numsym_rows : (row : ℕ) → has_backspace (keys_or_none (get_elem? (rows_of numsym) row)) ≡ false
unfolding has_backspace keys_or_none rows_of
numsym_rows zero = refl
numsym_rows (suc zero) = refl
numsym_rows (suc (suc zero)) = refl
numsym_rows (suc (suc (suc zero))) = refl
numsym_rows (suc (suc (suc (suc n)))) = refl

numsym_keys : (l : Layout) (row : ℕ) → has_backspace (get_row_keys l row numsym) ≡ false
unfolding get_row_keys has_backspace
numsym_keys l row = ground (arith, numsym_rows row)

-- On the layer of digits and symbols no touch, in no layout, is a backspace.
pub numsym_no_backspace :
    (l : Layout) (tx ty : ℤ) → is_backspace (hit_test l tx ty numsym).action ≡ false
unfolding hit_test is_backspace
numsym_no_backspace l tx ty =
    let row = row_at (ty -ℤ l.start_y) (l.key_h +ℤ l.key_gap) in
    let keys = get_row_keys l row numsym in
    elim (Bool-cases
      (ltb_ℤ ty l.start_y || leb_ℤ (l.start_y +ℤ pos l.row_count *ℤ (l.key_h +ℤ l.key_gap)) ty)) [
        | inl out ↦ rw out refl
        | inr inside ↦ rw inside (
            hit_from-none l tx row (length keys) keys 0 (row_x_offset l row (length keys))
              (numsym_keys l row))
      ]
