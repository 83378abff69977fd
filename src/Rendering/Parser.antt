-- ===== src/Rendering/Parser.antt =====
-- The text parser of kernel-core/src/rendering/text_box.rs, which filters the command sequences
-- ESC ~ <command> BEL out of the bytes and pushes the printable ones as glyphs.
pub mod Commands
pub mod Text
use package.minecraft_os.Prelude.{
  ℕ, ◌+◌, ◌≤◌, Bool, true, false, ◌&&◌, Option, none, some, List, [], ◌∷◌, ◌++◌, leb, ◌==◌,
  if◌then◌else◌,
}
use package.minecraft_os.Rendering.Color.{Color, parse_hex}

pub record Style : Type 0 where
  pub color_text : Color

pub record Glyph : Type 0 where
  pub b : ℕ
  pub style : Style

abbrev pub LogicalLine : Type 0
LogicalLine = List Glyph

-- The lines of the text box, of which the last is the one that grows.
abbrev pub Buffer : Type 0
Buffer = List LogicalLine

abbrev pub esc : ℕ
esc = 0x1b

abbrev pub leader : ℕ
leader = b'~'

abbrev pub bel : ℕ
bel = 0x07

abbrev pub newline : ℕ
newline = 0x0a

pub data ParserState : Type 0 where
  text escape command : ParserState

pub data ParserResult : Type 0 where
  pushed_glyph : Glyph → ParserResult
  new_logical_line no_new_glyph : ParserResult

pub record Parser : Type 0 where
  pub state : ParserState
  pub current_style : Style
  pub cmd_buffer : List ℕ

unfoldable pub new_parser : Style → Parser
new_parser style = record { state = text; current_style = style; cmd_buffer = [] }

unfoldable pub is_printable : ℕ → Bool
is_printable b = leb 0x20 b && leb b 0x7e

-- `buffer.last_mut().unwrap().push(glyph)`, where an empty buffer has got a line first.
unfoldable pub push_glyph : Glyph → Buffer → Buffer
push_glyph g [] = (g ∷ []) ∷ []
push_glyph g (line ∷ []) = (line ++ (g ∷ [])) ∷ []
push_glyph g (line ∷ next ∷ lines) = line ∷ push_glyph g (next ∷ lines)

abbrev pub Pushed : Type 0
Pushed = Parser × Buffer × ParserResult

unfoldable pub push_text : Parser → ℕ → Buffer → Pushed
push_text p b buffer =
    let glyph : Glyph = record { b = b; style = p.current_style } in
    if is_printable b
    then (p, push_glyph glyph buffer, pushed_glyph glyph)
    else (p, buffer, no_new_glyph)

-- A command that is not two bytes `FG` and a colour changes nothing but the buffer of the command:
-- the source only logs it. Bytes that are not UTF-8 hold one from 128 on, which no colour has.
unfoldable pub style_after : List ℕ → Style → Style
style_after [] style = style
style_after (k ∷ []) style = style
style_after (k ∷ l ∷ args) style =
    let colored : Style = elim (parse_hex args) [
      | none ↦ style
      | some c ↦ record { color_text = c }
    ] in
    if k == b'F' && l == b'G' then colored else style

unfoldable pub exec_cmd : Parser → Parser
exec_cmd p = record p { current_style = style_after p.cmd_buffer p.current_style; cmd_buffer = [] }

-- `push_byte` in the state `Text`.
unfoldable pub push_in_text : Parser → ℕ → Buffer → Pushed
push_in_text p b buffer =
    if b == esc
    then (record p { state = escape }, buffer, no_new_glyph)
    else if b == newline
    then (p, buffer ++ ([] ∷ []), new_logical_line)
    else push_text p b buffer

unfoldable pub push_in_command : Parser → ℕ → Buffer → Pushed
push_in_command p b buffer =
    if b == bel
    then (exec_cmd (record p { state = text }), buffer, no_new_glyph)
    else (record p { cmd_buffer = p.cmd_buffer ++ (b ∷ []) }, buffer, no_new_glyph)

unfoldable pub push_byte : Parser → ℕ → Buffer → Pushed
push_byte p b buffer = elim p.state [
  | text ↦ push_in_text p b buffer
  | escape ↦
      if b == leader
      then (record p { state = command }, buffer, no_new_glyph)
      else push_in_text (record p { state = text }) b buffer
  | command ↦ push_in_command p b buffer
]

unfoldable pub push_all : Parser → List ℕ → Buffer → Parser × Buffer
push_all p [] buffer = (p, buffer)
push_all p (b ∷ bs) buffer =
    let (p', buffer', result) = push_byte p b buffer in push_all p' bs buffer'
