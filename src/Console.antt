-- ===== src/Console.antt =====
-- The line editor of kernel/src/console.rs. A `String` is its UTF-8 bytes; what the text box gets by
-- `set_text` and `set_cursor_index` is kept as `text` and `cursor_idx`.
pub mod Strings
pub mod Editing
mod Tests
use package.minecraft_os.Prelude.{
  ℕ, ◌+◌, ◌-◌, ◌/◌, ◌%◌, ◌≤◌, Bool, true, false, not, ◌&&◌, ◌||◌, Option, none, some, List, [], ◌∷◌,
  ◌++◌, ltb, leb, ◌==◌, if◌then◌else◌, length, get_or, take, drop,
}
use package.minecraft_os.Rendering.Color.{Color, fg}

-- `char::is_control`
unfoldable pub is_control : ℕ → Bool
is_control ch = ltb ch 0x20 || leb 0x7f ch && leb ch 0x9f

-- The UTF-8 bytes of a `char`.
unfoldable pub utf8 : ℕ → List ℕ
utf8 ch =
    if ltb ch 0x80
    then ch ∷ []
    else if ltb ch 0x800
    then (0xc0 + ch / 64) ∷ (0x80 + ch % 64) ∷ []
    else if ltb ch 0x10000
    then (0xe0 + ch / 4096) ∷ (0x80 + ch / 64 % 64) ∷ (0x80 + ch % 64) ∷ []
    else (0xf0 + ch / 262144)
      ∷ (0x80 + ch / 4096 % 64)
      ∷ (0x80 + ch / 64 % 64)
      ∷ (0x80 + ch % 64)
      ∷ []

-- `str::is_char_boundary`
unfoldable pub is_char_boundary : ℕ → List ℕ → Bool
is_char_boundary i s =
    if ltb i (length s)
    then not (leb 0x80 (get_or s i 0) && ltb (get_or s i 0) 0xc0)
    else i == length s

-- `String::insert`; `none` is its panic.
unfoldable pub string_insert : List ℕ → ℕ → ℕ → Option (List ℕ)
string_insert s i ch =
    if is_char_boundary i s then some (take i s ++ (utf8 ch ++ drop i s)) else none

-- The length of the character that begins with a byte.
unfoldable pub char_width : ℕ → ℕ
char_width b = if ltb b 0x80 then 1 else if ltb b 0xe0 then 2 else if ltb b 0xf0 then 3 else 4

-- `String::remove`, which panics off a boundary and at the end.
unfoldable pub string_remove : List ℕ → ℕ → Option (List ℕ)
string_remove s i =
    if is_char_boundary i s && ltb i (length s)
    then some (take i s ++ drop (i + char_width (get_or s i 0)) s)
    else none

-- The keys that `process_event` tells apart.
pub data Key : Type 0 where
  return_key backspace escape arrow_left arrow_right other_key : Key

pub record KeyboardEvent : Type 0 where
  pub code : Key
  pub character : Option ℕ

-- "> "
abbrev pub prompt : List ℕ
prompt = b'>' ∷ b' ' ∷ []

abbrev pub max_input_len : ℕ
max_input_len = 96

abbrev light_gray : Color
light_gray = record { red = 180; green = 180; blue = 180 }

abbrev white : Color
white = record { red = 255; green = 255; blue = 255 }

pub record Console : Type 0 where
  pub input : List ℕ
  pub cursor_pos : ℕ
  pub active : Bool
  pub visible : Bool
  pub text : List ℕ
  pub cursor_idx : Option ℕ

abbrev pub is_empty : List ℕ → Bool
is_empty [] = true
is_empty (b ∷ bs) = false

abbrev same : Bool → Bool → Bool
same true b = b
same false b = not b

abbrev pub Processed : Type 0
Processed = Option (Console × Option (List ℕ))

-- The placeholder's text is an argument: nothing depends on its words.
module _ (placeholder_text : List ℕ) where
  unfoldable pub content : List ℕ → Bool → List ℕ
  content input active =
      if is_empty input && not active
      then prompt ++ (fg light_gray ++ (placeholder_text ++ fg white))
      else prompt ++ input

  unfoldable pub update_text : Console → Console
  update_text c = record c {
    text = content c.input c.active;
    cursor_idx = if c.active then some (length prompt + c.cursor_pos) else none;
  }

  unfoldable pub new_console : Console
  new_console = update_text (record {
    input = [];
    cursor_pos = 0;
    active = false;
    visible = true;
    text = [];
    cursor_idx = none;
  })

  unfoldable pub toggle : Console → Console
  toggle c =
      let toggled : Console = record c { active = not c.active } in
      if not c.active then update_text toggled else toggled

  unfoldable pub set_active : Console → Bool → Console
  set_active c active =
      if same c.active active
      then c
      else update_text (record c {
        active = active;
        cursor_pos = if active then length c.input else c.cursor_pos;
      })

  unfoldable pub set_visible : Console → Bool → Console
  set_visible c visible = record c { visible = visible }

  unfoldable pub toggle_visible : Console → Console
  toggle_visible c = record c { visible = not c.visible }

  unfoldable pub press_return : Console → Processed
  press_return c =
      some (set_active (update_text (record c { input = []; cursor_pos = 0 })) false, some c.input)

  unfoldable pub press_backspace : Console → Processed
  press_backspace c =
      if ltb 0 c.cursor_pos
      then elim (string_remove c.input (c.cursor_pos - 1)) [
        | none ↦ none
        | some input ↦
            some (update_text (record c { input = input; cursor_pos = c.cursor_pos - 1 }), none)
      ]
      else some (c, none)

  unfoldable pub press_left : Console → Processed
  press_left c = some (update_text (record c { cursor_pos = c.cursor_pos - 1 }), none)

  unfoldable pub press_right : Console → Processed
  press_right c =
      if ltb c.cursor_pos (length c.input)
      then some (update_text (record c { cursor_pos = c.cursor_pos + 1 }), none)
      else some (c, none)

  unfoldable pub press_character : Console → Option ℕ → Processed
  press_character c none = some (c, none)
  press_character c (some ch) =
      if not (is_control ch) && ltb (length c.input) max_input_len
      then elim (string_insert c.input c.cursor_pos ch) [
        | none ↦ none
        | some input ↦
            some (update_text (record c { input = input; cursor_pos = c.cursor_pos + 1 }), none)
      ]
      else some (c, none)

  unfoldable pub press : Console → KeyboardEvent → Processed
  press c event = elim event.code [
    | return_key ↦ press_return c
    | backspace ↦ press_backspace c
    | escape ↦ some (set_active c false, none)
    | arrow_left ↦ press_left c
    | arrow_right ↦ press_right c
    | other_key ↦ press_character c event.character
  ]

  unfoldable pub process_event : Console → KeyboardEvent → Processed
  process_event c event = if c.active then press c event else some (c, none)
