-- ===== src/Viewer/Inputs/Editing.antt =====
-- The cursor of a text field stays in its text, and numbers in their range.
use v3xctrl.Base.{
  ℕ, zero, suc, ◌+◌, ◌-◌, ◌≤◌, ◌<◌, ◌/◌, ◌%◌, min, max, ◌≡◌, refl, Bool, true, false, Option, none,
  some, List, [], ◌∷◌, ◌++◌, length, take, drop, length-append, length-take, length-drop, arith,
  Option-cases, inl, inr,
}
use v3xctrl.Viewer.Inputs.{
  Text, up, down, KeyDown, Input, changed, paste, erase, is_number, handle_key, inserted, type_text,
  handle_text_key, replace, same_text, type_digit, handle_number_key, str, str_onto, int, int_from,
  place, handle_mouse, Event, motion, pressed, key_down, handle_event,
}

pub IsWithin : Input → Type 0
IsWithin i = i.cursor_pos ≤ length i.value

changed-IsWithin : (i : Input) → IsWithin i → IsWithin (changed i)
unfolding IsWithin changed
changed-IsWithin i h = ground arith

length-inserted :
    (text : Text) (i : Input) → IsWithin i → length (inserted text i) ≡ length i.value + length text
unfolding inserted IsWithin
length-inserted text i h = omega (
  arith,
  length-append (take i.cursor_pos i.value) (text ++ drop i.cursor_pos i.value),
  length-append text (drop i.cursor_pos i.value),
  length-take i.cursor_pos i.value,
  length-drop i.cursor_pos i.value,
)

erase-IsWithin : (i : Input) → IsWithin i → IsWithin (erase i)
unfolding erase IsWithin
erase-IsWithin i h =
    let shorter = record i {
      value = take (i.cursor_pos - 1) i.value ++ drop i.cursor_pos i.value;
      cursor_pos = i.cursor_pos - 1;
    } in
    changed-IsWithin shorter (
      omega (
        arith,
        length-append (take (i.cursor_pos - 1) i.value) (drop i.cursor_pos i.value),
        length-take (i.cursor_pos - 1) i.value,
        length-drop i.cursor_pos i.value,
      ))

paste-IsWithin : (text : Option Text) (i : Input) → IsWithin i → IsWithin (paste text i)
unfolding paste
paste-IsWithin none i h = h
paste-IsWithin (some text) i h =
    changed-IsWithin (record i { value = text; cursor_pos = length text })
      (unfold IsWithin in omega arith)

handle_key-IsWithin : (e : KeyDown) (i : Input) → IsWithin i → IsWithin (handle_key e i)
unfolding handle_key IsWithin
handle_key-IsWithin e i h = ground (arith, erase-IsWithin i h, paste-IsWithin e.clipboard i h)

insert-IsWithin :
    (c : ℕ) (cs : Text) (i : Input)
    → IsWithin i
    → IsWithin (changed (record i { value = inserted (c ∷ cs) i; cursor_pos = i.cursor_pos + 1 }))
unfolding IsWithin
insert-IsWithin c cs i h =
    changed-IsWithin (record i { value = inserted (c ∷ cs) i; cursor_pos = i.cursor_pos + 1 })
      (omega (arith, length-inserted (c ∷ cs) i h))

type_text-IsWithin :
    (printable : Text → Bool) (max_length : ℕ) (e : KeyDown) (i : Input)
    → IsWithin i
    → IsWithin (type_text printable max_length e i)
unfolding type_text
type_text-IsWithin printable max_length e i h = elim (Option-cases e.unicode) [
  | inl u ↦ rw (u, type_text) h
  | inr ([], u) ↦ rw (u, type_text) h
  | inr (c ∷ cs, u) ↦ rw (u, type_text) (ground (arith, h, insert-IsWithin c cs i h))
]

handle_text_key-IsWithin :
    (printable : Text → Bool) (max_length : ℕ) (e : KeyDown) (i : Input)
    → IsWithin i
    → IsWithin (handle_text_key printable max_length e i)
unfolding handle_text_key
handle_text_key-IsWithin printable max_length e i h =
    let within = handle_key-IsWithin e i h in
    ground (
      arith,
      changed-IsWithin (handle_key e i) within,
      type_text-IsWithin printable max_length e (handle_key e i) within,
    )

replace-IsWithin : (text : Text) (i : Input) → IsWithin i → IsWithin (replace text i)
unfolding replace
replace-IsWithin text i h = ground (
  arith,
  changed-IsWithin (record i { value = text; cursor_pos = length text })
      (unfold IsWithin in omega arith),
)

type_digit-IsWithin :
    (read : Text → Option ℕ) (min_val max_val : ℕ) (text : Text) (i : Input)
    → IsWithin i
    → IsWithin (type_digit read min_val max_val text i)
unfolding type_digit is_number
type_digit-IsWithin read min_val max_val [] i h = ground arith
type_digit-IsWithin read min_val max_val (c ∷ cs) i h = ground (arith, insert-IsWithin c cs i h)

typed-IsWithin :
    (read : Text → Option ℕ) (min_val max_val : ℕ) (u : Option Text) (i : Input)
    → IsWithin i
    → IsWithin (elim u [ none ↦ i | some text ↦ type_digit read min_val max_val text i ])
typed-IsWithin read min_val max_val none i h = h
typed-IsWithin read min_val max_val (some text) i h =
    type_digit-IsWithin read min_val max_val text i h

handle_number_key-IsWithin :
    (read : Text → Option ℕ) (min_val max_val : ℕ) (e : KeyDown) (i : Input)
    → IsWithin i
    → IsWithin (handle_number_key read min_val max_val e i)
unfolding handle_number_key
handle_number_key-IsWithin read min_val max_val e i h =
    let within = handle_key-IsWithin e i h in
    let i' = handle_key e i in
    ground (
      arith,
      within,
      replace-IsWithin (str (min max_val (int i'.value + 1))) i' within,
      replace-IsWithin (str (max min_val (int i'.value - 1))) i' within,
      typed-IsWithin read min_val max_val e.unicode i' within,
    )

place-le : (reaches : Text → Bool) (value : Text) (n j : ℕ) → place reaches value n j ≤ j + n
unfolding place
place-le reaches value zero j = omega arith
place-le reaches value (suc n) j = ground (arith, place-le reaches value n (suc j))

handle_mouse-IsWithin : (reaches : Text → Bool) (i : Input) → IsWithin (handle_mouse reaches i)
unfolding handle_mouse IsWithin
handle_mouse-IsWithin reaches i = omega (arith, place-le reaches i.value (length i.value) 0)

-- The two classes of text fields: TextInput with its length, NumberInput with its bounds.
pub data Field : Type 0 where
  text_input : (Text → Bool) → ℕ → Field
  number_input : (Text → Option ℕ) → ℕ → ℕ → Field

pub on_key : Field → KeyDown → Input → Input
on_key (text_input printable max_length) e i = handle_text_key printable max_length e i
on_key (number_input read min_val max_val) e i = handle_number_key read min_val max_val e i

on_key-IsWithin : (f : Field) (e : KeyDown) (i : Input) → IsWithin i → IsWithin (on_key f e i)
unfolding on_key
on_key-IsWithin (text_input printable max_length) e i h =
    handle_text_key-IsWithin printable max_length e i h
on_key-IsWithin (number_input read min_val max_val) e i h =
    handle_number_key-IsWithin read min_val max_val e i h

handle_event-IsWithin :
    (f : Field) (x : Event) (i : Input) → IsWithin i → IsWithin (handle_event (on_key f) x i).0
unfolding handle_event
handle_event-IsWithin f (motion inside) i h = unfold IsWithin in h
handle_event-IsWithin f (pressed true reaches) i h =
    handle_mouse-IsWithin reaches (record i { focused = true })
handle_event-IsWithin f (pressed false reaches) i h = unfold IsWithin in h
handle_event-IsWithin f (key_down e) i h = ground (arith, on_key-IsWithin f e i h)

pub handle_all : Field → List Event → Input → Input
handle_all f [] i = i
handle_all f (x ∷ xs) i = handle_all f xs (handle_event (on_key f) x i).0

-- In a text field and in a number field, whatever the mouse, the keys and the clipboard do: a cursor
-- that is in the value, its end included, is in the value after all events.
pub handle_all-cursor_pos :
    (f : Field) (xs : List Event) (i : Input)
    → i.cursor_pos ≤ length i.value
    → (handle_all f xs i).cursor_pos ≤ length (handle_all f xs i).value
unfolding handle_all
handle_all-cursor_pos f [] i h = h
handle_all-cursor_pos f (x ∷ xs) i h =
    handle_all-cursor_pos f xs (handle_event (on_key f) x i).0
      (unfold IsWithin in handle_event-IsWithin f x i h)

int-str_onto :
    (fuel n : ℕ) (text : Text) → n < fuel → int_from 0 (str_onto fuel n text) ≡ int_from n text
unfolding str_onto int_from
int-str_onto zero n text h = absurd (omega arith)
int-str_onto (suc fuel) n text h = ground (arith, int-str_onto fuel (n / 10) ((48 + n % 10) ∷ text))

-- What str writes, int reads.
pub int-str : (n : ℕ) → int (str n) ≡ n
unfolding str int_from
int-str n = int-str_onto (suc n) n [] (omega arith)

same_text_eq : (s t : Text) → same_text s t ≡ true → s ≡ t
unfolding same_text
same_text_eq [] [] h = refl
same_text_eq [] (b ∷ t) h = cc
same_text_eq (a ∷ s) [] h = cc
same_text_eq (a ∷ s) (b ∷ t) h = ground (arith, same_text_eq s t)

replace-value : (text : Text) (i : Input) → (replace text i).value ≡ text
unfolding replace changed
replace-value text i = ground (arith, same_text_eq text i.value)

-- In a number field that holds digits, the key up leaves a value that reads as the number after it,
-- at most the maximum, and the key down one that reads as the number before it, at least the minimum.
pub handle_number_key-arrows :
    (read : Text → Option ℕ) (min_val max_val : ℕ) (e : KeyDown) (i : Input)
    → is_number i.value ≡ true
    → (int (handle_number_key read min_val max_val (record e { key = up }) i).value
        ≡ min max_val (int i.value + 1))
      × (int (handle_number_key read min_val max_val (record e { key = down }) i).value
          ≡ max min_val (int i.value - 1))
unfolding handle_number_key handle_key
handle_number_key-arrows read min_val max_val e i h =
    (rw (h, replace-value, int-str) refl, rw (h, replace-value, int-str) refl)
