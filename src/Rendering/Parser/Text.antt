-- ===== src/Rendering/Parser/Text.antt =====
-- Text, line breaks and colours in any order, against lines of coloured glyphs.
use minecraft_os.Prelude.{ℕ, ◌≡◌, refl, ap, ◌∙◌, arith, true, List, [], ◌∷◌, ◌++◌, All}
use minecraft_os.Rendering.Color.{Color, IsColor, fg}
use minecraft_os.Rendering.Parser.{
  Buffer, LogicalLine, Glyph, Style, newline, push_byte, push_all, push_in_text, push_text,
  push_glyph, is_printable, new_parser, pushed_glyph, new_logical_line,
}
use minecraft_os.Rendering.Parser.Commands.{push_all-fg, push_all-step}
use mathlib.Core.List.{append_assoc, append-nil}

-- What a caller prints.
pub data Item : Type 0 where
  glyph : ℕ → Item
  line_break : Item
  color : Color → Item

abbrev pub encode : Item → List ℕ
encode (glyph b) = b ∷ []
encode line_break = newline ∷ []
encode (color c) = fg c

abbrev pub IsItem : Item → Type 0
IsItem (glyph b) = is_printable b ≡ true
IsItem line_break = Unit
IsItem (color c) = IsColor c

abbrev pub encode_all : List Item → List ℕ
encode_all [] = []
encode_all (item ∷ items) = encode item ++ encode_all items

-- The lines that the items mean: the first one, and those behind it.
abbrev pub lines_of : Style → List Item → LogicalLine × Buffer
lines_of style [] = ([], [])
lines_of style (glyph b ∷ items) =
    let (line, lines) = lines_of style items in (record { b = b; style = style } ∷ line, lines)
lines_of style (line_break ∷ items) = let (line, lines) = lines_of style items in ([], line ∷ lines)
lines_of style (color c ∷ items) = lines_of (record { color_text = c }) items

abbrev pub last_style : Style → List Item → Style
last_style style [] = style
last_style style (glyph b ∷ items) = last_style style items
last_style style (line_break ∷ items) = last_style style items
last_style style (color c ∷ items) = last_style (record { color_text = c }) items

pub push_glyph-append :
    (g : Glyph) (lines : Buffer) (line : LogicalLine)
    → push_glyph g (lines ++ (line ∷ [])) ≡ lines ++ ((line ++ (g ∷ [])) ∷ [])
unfolding push_glyph
push_glyph-append g [] line = refl
push_glyph-append g (l ∷ []) line = refl
push_glyph-append g (l ∷ m ∷ lines) line =
    ap (λ (t : Buffer). l ∷ t) (push_glyph-append g (m ∷ lines) line)

push_byte-printable :
    (style : Style) (b : ℕ) (buffer : Buffer)
    → is_printable b ≡ true
    → let g : Glyph = record { b = b; style = style } in
      push_byte (new_parser style) b buffer
      ≡ (new_parser style, push_glyph g buffer, pushed_glyph g)
unfolding push_byte push_in_text push_text is_printable new_parser
push_byte-printable style b buffer h = ground arith

push_byte-newline :
    (style : Style) (buffer : Buffer)
    → push_byte (new_parser style) newline buffer
      ≡ (new_parser style, buffer ++ ([] ∷ []), new_logical_line)
unfolding push_byte push_in_text new_parser
push_byte-newline style buffer = refl

push_all-items :
    (items : List Item) (style : Style) (lines : Buffer) (line : LogicalLine)
    → All IsItem items
    → let (first, others) = lines_of style items in
      push_all (new_parser style) (encode_all items) (lines ++ (line ∷ []))
      ≡ (new_parser (last_style style items), lines ++ ((line ++ first) ∷ others))
unfolding push_all
push_all-items [] style lines line h = rw (append-nil line) refl
push_all-items (glyph b ∷ items) style lines line (p, h) =
    let g : Glyph = record { b = b; style = style } in
    let ih = push_all-items items style lines (line ++ (g ∷ [])) h in
    let pushed = push_byte-printable style b (lines ++ (line ∷ [])) p in
    push_all-step _ _ b (encode_all items) (lines ++ (line ∷ [])) _ _ pushed
    ∙ ap (push_all (new_parser style) (encode_all items)) (push_glyph-append g lines line)
    ∙ ih
    ∙ rw (append_assoc line (g ∷ []) (lines_of style items).0) refl
push_all-items (line_break ∷ items) style lines line (p, h) =
    let ih = push_all-items items style (lines ++ (line ∷ [])) [] h in
    push_all-step _ _ newline (encode_all items) (lines ++ (line ∷ [])) _ _
      (push_byte-newline style (lines ++ (line ∷ [])))
    ∙ ih
    ∙ rw
        (
          append_assoc lines (line ∷ []) ((lines_of style items).0 ∷ (lines_of style items).1),
          append-nil line,
        )
        refl
push_all-items (color c ∷ items) style lines line (p, h) =
    push_all-fg c style (encode_all items) (lines ++ (line ∷ [])) p
    ∙ push_all-items items (record { color_text = c }) lines line h

-- Printable bytes, line breaks and printed colours, in any order, come out as the lines of glyphs
-- that they mean, each glyph in the colour set last before it, and the parser ends ready for text.
pub push_all_lem :
    (items : List Item) (style : Style)
    → All IsItem items
    → let (first, others) = lines_of style items in
      push_all (new_parser style) (encode_all items) ([] ∷ [])
      ≡ (new_parser (last_style style items), first ∷ others)
push_all_lem items style h = push_all-items items style [] [] h
