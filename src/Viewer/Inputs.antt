-- ===== src/Viewer/Inputs.antt =====
-- menu/input: BaseInput.py, TextInput.py and NumberInput.py, the text fields of the menu. A text is its code points; drawing is left out.
pub mod Editing
use v3xctrl.Base.{
  ℕ, zero, suc, ◌+◌, ◌-◌, ◌*◌, ◌/◌, ◌%◌, min, max, Bool, true, false, not, ◌&&◌, ◌||◌, Option, none,
  some, List, [], ◌∷◌, ◌++◌, length, take, drop, ltb, leb, all, nat_beq, if◌then◌else◌,
}

abbrev pub Text : Type 0
Text = List ℕ

pub data Key : Type 0 where
  v backspace left right up down enter other : Key

-- A KEYDOWN: the key, whether Ctrl is held, the text in the clipboard if it can be read, which is not
-- empty then, and `event.unicode` if there is one.
pub record KeyDown : Type 0 where
  pub key : Key
  pub ctrl : Bool
  pub clipboard : Option Text
  pub unicode : Option Text

pub record Input : Type 0 where
  pub value : Text
  pub cursor_pos : ℕ
  pub focused : Bool
  pub hovered : Bool
  -- the arguments of on_change, which may be missing
  pub has_on_change : Bool
  pub changes : List Text

unfoldable pub same_text : Text → Text → Bool
same_text [] [] = true
same_text (a ∷ s) (b ∷ t) = nat_beq a b && same_text s t
same_text _ _ = false

-- `if self.on_change: self.on_change(self.value)`
unfoldable pub changed : Input → Input
changed i = if i.has_on_change then record i { changes = i.changes ++ (i.value ∷ []) } else i

unfoldable pub paste : Option Text → Input → Input
unfolding changed
paste none i = i
paste (some text) i = changed (record i { value = text; cursor_pos = length text })

-- self.value[: cursor_pos - 1] + self.value[cursor_pos :], for a cursor that is not at the start
unfoldable pub erase : Input → Input
unfolding changed
erase i = changed (record i {
  value = take (i.cursor_pos - 1) i.value ++ drop i.cursor_pos i.value;
  cursor_pos = i.cursor_pos - 1;
})

-- BaseInput._handle_keydown
unfoldable pub handle_key : KeyDown → Input → Input
unfolding paste erase
handle_key e i = elim e.key [
  | v ↦ if e.ctrl then paste e.clipboard i else i
  | backspace ↦ if ltb 0 i.cursor_pos then erase i else i
  | left ↦ record i { cursor_pos = i.cursor_pos - 1 }
  | right ↦ record i { cursor_pos = min (length i.value) (i.cursor_pos + 1) }
  | _ ↦ i
]

-- self.value[: cursor_pos] + text + self.value[cursor_pos :]
unfoldable pub inserted : Text → Input → Text
inserted text i = take i.cursor_pos i.value ++ (text ++ drop i.cursor_pos i.value)

-- TextInput._handle_keydown; `printable` is str.isprintable.
unfoldable pub type_text : (Text → Bool) → ℕ → KeyDown → Input → Input
unfolding changed inserted
type_text printable max_length e i = elim e.unicode [
  | none ↦ i
  | some [] ↦ i
  | some (c ∷ cs) ↦
      if printable (c ∷ cs) && ltb (length i.value) max_length
      then changed (record i { value = inserted (c ∷ cs) i; cursor_pos = i.cursor_pos + 1 })
      else i
]

unfoldable pub handle_text_key : (Text → Bool) → ℕ → KeyDown → Input → Input
unfolding handle_key type_text changed
handle_text_key printable max_length e i =
    let i' = handle_key e i in
    elim e.key [ enter ↦ changed i' | _ ↦ type_text printable max_length e i' ]

-- str.isdigit and int for ASCII digits
unfoldable pub is_digit : ℕ → Bool
is_digit c = leb 48 c && leb c 57

unfoldable pub is_number : Text → Bool
unfolding is_digit
is_number [] = false
is_number (c ∷ cs) = all is_digit (c ∷ cs)

-- int(text), for digits after `acc`
unfoldable pub int_from : ℕ → Text → ℕ
int_from acc [] = acc
int_from acc (c ∷ cs) = int_from (acc * 10 + (c - 48)) cs

abbrev pub int : Text → ℕ
int text = int_from 0 text

-- str(n), in front of `text`; a number has at most `fuel` digits.
unfoldable pub str_onto : ℕ → ℕ → Text → Text
str_onto zero n text = text
str_onto (suc fuel) n text =
    let longer = (48 + n % 10) ∷ text in
    let rest = str_onto fuel (n / 10) longer in if ltb n 10 then longer else rest

unfoldable pub str : ℕ → Text
unfolding str_onto
str n = str_onto (suc n) n []

-- The value after an arrow key, if it is another.
unfoldable pub replace : Text → Input → Input
unfolding changed same_text
replace text i =
    if same_text text i.value
    then i
    else changed (record i { value = text; cursor_pos = length text })

-- A digit that is typed, of at most five. `read` is int(text) where that is a natural number; for any
-- other text it is out of range or raises a ValueError, and nothing changes.
unfoldable pub type_digit : (Text → Option ℕ) → ℕ → ℕ → Text → Input → Input
unfolding inserted changed is_number
type_digit read min_val max_val text i =
    if is_number text && ltb (length i.value) 5
    then (elim (read (inserted text i)) [
      | none ↦ i
      | some n ↦
          if leb min_val n && leb n max_val
          then changed (record i { value = inserted text i; cursor_pos = i.cursor_pos + 1 })
          else i
    ])
    else i

-- NumberInput._handle_keydown, for natural bounds
unfoldable pub handle_number_key : (Text → Option ℕ) → ℕ → ℕ → KeyDown → Input → Input
unfolding handle_key is_number str replace type_digit
handle_number_key read min_val max_val e i =
    let i' = handle_key e i in
    elim e.key [
      | up ↦ if is_number i'.value then replace (str (min max_val (int i'.value + 1))) i' else i'
      | down ↦ if is_number i'.value then replace (str (max min_val (int i'.value - 1))) i' else i'
      | _ ↦ elim e.unicode [ none ↦ i' | some text ↦ type_digit read min_val max_val text i' ]
    ]

-- _handle_mouse: the first place at which the text in front of it is as wide as the click is far;
-- `reaches` stands for the font.
unfoldable pub place : (Text → Bool) → Text → ℕ → ℕ → ℕ
place reaches value zero j = j
place reaches value (suc n) j =
    let further = place reaches value n (suc j) in if reaches (take j value) then j else further

unfoldable pub handle_mouse : (Text → Bool) → Input → Input
unfolding place
handle_mouse reaches i = record i { cursor_pos = place reaches i.value (length i.value) 0 }

pub data Event : Type 0 where
  -- whether the pointer is in the field
  motion : Bool → Event
  pressed : Bool → (Text → Bool) → Event
  key_down : KeyDown → Event

-- BaseInput.handle_event, with the class's own handler of keys: the field, and whether the event was
-- consumed.
unfoldable pub handle_event : (KeyDown → Input → Input) → Event → Input → Input × Bool
unfolding handle_mouse
handle_event on_key (motion inside) i = (record i { hovered = inside }, inside)
handle_event on_key (pressed inside reaches) i =
    if inside
    then (handle_mouse reaches (record i { focused = true }), true)
    else (record i { focused = false }, false)
handle_event on_key (key_down e) i = if i.focused then (on_key e i, true) else (i, false)
