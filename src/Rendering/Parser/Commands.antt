-- ===== src/Rendering/Parser/Commands.antt =====
-- A colour command.
use minecraft_os.Prelude.{
  ℕ, ◌/◌, ◌%◌, ◌≡◌, refl, ap, ◌∙◌, arith, false, List, [], ◌∷◌, ◌++◌, ◌==◌, All,
}
use minecraft_os.Rendering.Color.{Color, IsColor, fg, upper_digit}
use minecraft_os.Rendering.Color.Hex.{hex_text, parse_hex-hex_text}
use minecraft_os.Rendering.Parser.{
  Parser, Buffer, Style, command, bel, push_byte, push_all, push_in_text, push_in_command, exec_cmd,
  style_after, new_parser, no_new_glyph, ParserResult, Pushed,
}
use mathlib.Core.List.{append_assoc, append-nil}

-- The parser inside a command, with the bytes that it has collected.
abbrev collecting : Style → List ℕ → Parser
collecting style cmd = record { state = command; current_style = style; cmd_buffer = cmd }

push_byte-collecting :
    (b : ℕ) (style : Style) (cmd : List ℕ) (buffer : Buffer)
    → (b == bel) ≡ false
    → push_byte (collecting style cmd) b buffer
      ≡ (collecting style (cmd ++ (b ∷ [])), buffer, no_new_glyph)
unfolding push_byte push_in_command
push_byte-collecting b style cmd buffer h = rw h refl

pub push_all-step :
    (p p' : Parser) (b : ℕ) (bs : List ℕ) (buffer buffer' : Buffer) (result : ParserResult)
    → push_byte p b buffer ≡ (p', buffer', result)
    → push_all p (b ∷ bs) buffer ≡ push_all p' bs buffer'
unfolding push_all
push_all-step p p' b bs buffer buffer' result e = ap (λ (r : Pushed). push_all r.0 bs r.1) e

push_all-collecting :
    (bs : List ℕ) (style : Style) (cmd rest : List ℕ) (buffer : Buffer)
    → All (λ b. (b == bel) ≡ false) bs
    → push_all (collecting style cmd) (bs ++ rest) buffer
      ≡ push_all (collecting style (cmd ++ bs)) rest buffer
unfolding push_all
push_all-collecting [] style cmd rest buffer h = rw (append-nil cmd) refl
push_all-collecting (b ∷ bs) style cmd rest buffer (e, h) =
    let ih = push_all-collecting bs style (cmd ++ (b ∷ [])) rest buffer h in
    push_all-step _ _ b (bs ++ rest) buffer buffer no_new_glyph
      (push_byte-collecting b style cmd buffer e)
    ∙ (ih ∙ ap (λ t. push_all (collecting style t) rest buffer) (append_assoc cmd (b ∷ []) bs))

digit-no_bel : (d : ℕ) → (upper_digit d == bel) ≡ false
digit-no_bel d = ground arith

style_after-hex_text :
    (c : Color) (style : Style)
    → IsColor c
    → style_after (b'F' ∷ b'G' ∷ hex_text c) style ≡ record { color_text = c }
unfolding style_after
style_after-hex_text c style h = rw (parse_hex-hex_text c h) refl

-- A printed colour sets the colour of what follows, shows nothing, and leaves the parser ready for
-- text, whatever the style and the lines were before.
pub push_all-fg :
    (c : Color) (style : Style) (rest : List ℕ) (buffer : Buffer)
    → IsColor c
    → push_all (new_parser style) (fg c ++ rest) buffer
      ≡ push_all (new_parser (record { color_text = c })) rest buffer
unfolding push_all push_byte push_in_text push_in_command exec_cmd new_parser fg
push_all-fg c style rest buffer h =
    push_all-collecting (b'F' ∷ b'G' ∷ hex_text c) style [] (bel ∷ rest) buffer (
      refl,
      (
        refl,
        (
          refl,
          (
            digit-no_bel (c.red / 16),
            (
              digit-no_bel (c.red % 16),
              (
                digit-no_bel (c.green / 16),
                (
                  digit-no_bel (c.green % 16),
                  (digit-no_bel (c.blue / 16), (digit-no_bel (c.blue % 16), _)),
                ),
              ),
            ),
          ),
        ),
      ),
    )
    ∙ rw (style_after-hex_text c style h) refl
