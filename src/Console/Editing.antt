-- ===== src/Console/Editing.antt =====
-- The line editor against a cursor between two lists of characters.
use minecraft_os.Prelude.{
  ℕ, ◌+◌, ◌≤◌, ◌<◌, ◌≡◌, Bool, true, false, not, ◌&&◌, Option, none, some, List, [], ◌∷◌, ltb,
  if◌then◌else◌, length,
}
use minecraft_os.Console.{
  return_key, backspace, escape, arrow_left, arrow_right, other_key, KeyboardEvent, Console,
  is_control, max_input_len, update_text, process_event,
}
use minecraft_os.Console.Strings.{around, IsAscii}

-- What the user edits: the characters before the cursor, the nearest first, and those behind it.
abbrev pub Line : Type 0
Line = List ℕ × List ℕ

abbrev pub text_of : Line → List ℕ
text_of (before, after) = around before after

-- ASCII, and no longer than the limit.
abbrev pub IsLine : Line → Type 0
IsLine (before, after) =
    IsAscii before × IsAscii after × (length before + length after ≤ max_input_len)

abbrev pub move_left : Line → Line
move_left ([], after) = ([], after)
move_left (x ∷ before, after) = (before, x ∷ after)

abbrev pub move_right : Line → Line
move_right (before, []) = (before, [])
move_right (before, x ∷ after) = (x ∷ before, after)

abbrev pub erase : Line → Line
erase ([], after) = ([], after)
erase (x ∷ before, after) = (before, after)

abbrev pub type_character : Line → Option ℕ → Line
type_character l none = l
type_character (before, after) (some ch) =
    if not (is_control ch) && ltb (length before + length after) max_input_len
    then (ch ∷ before, after)
    else (before, after)

-- The line after a key, whether the console stays active, and the command that is handed out.
abbrev pub edit : Line → KeyboardEvent → Line × Bool × Option (List ℕ)
edit l event = elim event.code [
  | return_key ↦ (([], []), false, some (text_of l))
  | backspace ↦ (erase l, true, none)
  | escape ↦ (l, false, none)
  | arrow_left ↦ (move_left l, true, none)
  | arrow_right ↦ (move_right l, true, none)
  | other_key ↦ (type_character l event.character, true, none)
]

abbrev pub IsAsciiKey : KeyboardEvent → Type 0
IsAsciiKey event = elim event.character [ none ↦ 0 ≤ 0 | some ch ↦ ch < 0x80 ]

module _ (placeholder_text : List ℕ) where
  -- The console that holds a line and shows it, with the cursor behind the prompt and the characters
  -- before it.
  abbrev pub showing : Bool → Bool → Line → Console
  showing active visible (before, after) = update_text placeholder_text (record {
    input = around before after;
    cursor_pos = length before;
    active = active;
    visible = visible;
    text = [];
    cursor_idx = none;
  })

  abbrev IsEdited : Bool → Line → KeyboardEvent → Type 0
  IsEdited visible l event =
      let (l', active, command) = edit l event in
      (process_event placeholder_text (showing true visible l) event
        ≡ some (showing active visible l', command))
      × IsLine l'
