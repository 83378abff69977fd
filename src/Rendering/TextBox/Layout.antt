-- ===== src/Rendering/TextBox/Layout.antt =====
-- Any text that is written to a text box is laid out without a panic.
use minecraft_os.Prelude.{
  ℕ, ◌+◌, ◌-◌, ◌≡◌, inl, inr, refl, ap, ◌∙◌, arith, Option, some, List, [], ◌∷◌, ◌++◌, ◌==◌, length,
  get_or, drop, length-append, Bool-cases, All,
}
use minecraft_os.Rendering.Parser.{
  Glyph, Buffer, LogicalLine, Style, Parser, ParserState, text, escape, command, push_glyph,
  push_in_text, push_in_command, push_text, pushed_glyph, new_logical_line, no_new_glyph,
  ParserResult, is_printable, esc, newline, leader, bel,
}
use minecraft_os.Rendering.Parser
use minecraft_os.Rendering.Parser.Text.{push_glyph-append}
use minecraft_os.Rendering.TextBox.{
  VisualLine, visual_line_slice, TextBox, last, reset_content, wrap_line, extend_line,
  update_last_line_layout, push_byte, write_str, default_visual_line, add_i32, calc_advance, gt_i32,
  sub_i32, apply_result,
}
use minecraft_os.Rendering.TextBox.Tiling.{
  Tiling, extended, wrapped, broken, last-append, update_last-append, shown, flat, shown-append,
  flat-append, take_all, get_or-last, All-append, IsInside,
}

-- What one byte does to the buffer, by the result that the parser returns.
abbrev IsOutcome : Buffer → Parser.Pushed → Type 0
IsOutcome buffer (p, after, pushed_glyph g) = after ≡ push_glyph g buffer
IsOutcome buffer (p, after, new_logical_line) = after ≡ buffer ++ ([] ∷ [])
IsOutcome buffer (p, after, no_new_glyph) = after ≡ buffer

push_in_text-IsOutcome :
    (p : Parser) (b : ℕ) (buffer : Buffer) → IsOutcome buffer (push_in_text p b buffer)
unfolding push_in_text push_text
push_in_text-IsOutcome p b buffer = elim (Bool-cases (b == esc)) [
  | inl e ↦ rw (push_in_text, e) refl
  | inr e ↦ elim (Bool-cases (b == newline)) [
    | inl f ↦ rw (push_in_text, e, f) refl
    | inr f ↦ elim (Bool-cases (is_printable b)) [
      | inl g ↦ rw (push_in_text, push_text, e, f, g) refl
      | inr g ↦ rw (push_in_text, push_text, e, f, g) refl
    ]
  ]
]

push_byte-IsOutcome :
    (p : Parser) (b : ℕ) (buffer : Buffer) → IsOutcome buffer (Parser.push_byte p b buffer)
unfolding Parser.push_byte push_in_command
push_byte-IsOutcome p b buffer = by_state p.state refl
  where
    by_state : (s : ParserState) → p.state ≡ s → IsOutcome buffer (Parser.push_byte p b buffer)
    by_state text h = rw (Parser.push_byte, h) (push_in_text-IsOutcome p b buffer)
    by_state escape h = elim (Bool-cases (b == leader)) [
      | inl e ↦ rw (Parser.push_byte, h, e) refl
      | inr e ↦
          rw (Parser.push_byte, h, e) (push_in_text-IsOutcome (record p { state = text }) b buffer)
    ]
    by_state command h = elim (Bool-cases (b == bel)) [
      | inl e ↦ rw (Parser.push_byte, h, push_in_command, e) refl
      | inr e ↦ rw (Parser.push_byte, h, push_in_command, e) refl
    ]

-- The buffer ends in a line, the visual lines in the one that shows the end of it.
abbrev pub IsTiled : Buffer → List VisualLine → Type 0
IsTiled buffer visual =
    (lines : Buffer) × (line : LogicalLine) × (ws : List VisualLine) × (w : VisualLine) × (buffer
      ≡ lines ++ (line ∷ []))
    × (visual ≡ ws ++ (w ∷ []))
    × Tiling lines line ws w

module _ (advance_width : ℕ → ℕ) where
  -- The outcome of an operation is no panic, and the lines are tiled.
  abbrev IsGood : Option TextBox → Type 0
  IsGood o = (t : TextBox) × (o ≡ some t) × IsTiled t.buffer t.visual_lines

  extend_line-IsGood :
      (t : TextBox) (x : ℕ) (lines : Buffer) (line : LogicalLine) (g : Glyph) (ws : List VisualLine)
      (w : VisualLine)
      → t.buffer ≡ lines ++ ((line ++ (g ∷ [])) ∷ [])
      → t.visual_lines ≡ ws ++ (w ∷ [])
      → Tiling lines line ws w
      → IsGood (extend_line advance_width t x)
  unfolding extend_line
  extend_line-IsGood t x lines line g ws w b v h = (
    record t { visual_lines = ws ++ (record w { end = w.end + 1 } ∷ []); cursor_x = x },
    rw (extend_line, v, update_last-append (λ (w : VisualLine). record w { end = w.end + 1 }) ws w)
        refl,
    (
      lines,
      line ++ (g ∷ []),
      ws,
      record w { end = w.end + 1 },
      b,
      refl,
      extended lines line ws w g h,
    ),
  )

  wrap_line-IsGood :
      (t : TextBox) (advance : ℕ) (lines : Buffer) (line : LogicalLine) (g : Glyph)
      (ws : List VisualLine) (w : VisualLine)
      → t.buffer ≡ lines ++ ((line ++ (g ∷ [])) ∷ [])
      → t.visual_lines ≡ ws ++ (w ∷ [])
      → Tiling lines line ws w
      → IsGood (wrap_line advance_width t advance (length (line ++ (g ∷ [])) - 1))
  unfolding wrap_line
  wrap_line-IsGood t advance lines line g ws w b v h =
      let i = length (line ++ (g ∷ [])) - 1 in
      let index : i ≡ length line = omega (arith, length-append line (g ∷ [])) in
      let k : length t.buffer - 1 ≡ length lines =
        rw b (omega (arith, length-append lines ((line ++ (g ∷ [])) ∷ []))) in
      (
        record t {
          visual_lines =
              (ws ++ (record w { end = i } ∷ []))
              ++ (record { line_idx = length t.buffer - 1; start = i; end = i + 1 } ∷ []);
          cursor_x = add_i32 t.padding_left advance;
        },
        rw (wrap_line, v, update_last-append (λ (w : VisualLine). record w { end = i }) ws w) refl,
        (
          lines,
          line ++ (g ∷ []),
          ws ++ (record w { end = i } ∷ []),
          _,
          b,
          refl,
          wrapped lines line ws w g (length t.buffer - 1) i k index h,
        ),
      )

  layout-IsGood :
      (t : TextBox) (g : Glyph) (lines : Buffer) (line : LogicalLine) (ws : List VisualLine)
      (w : VisualLine)
      → t.buffer ≡ lines ++ ((line ++ (g ∷ [])) ∷ [])
      → t.visual_lines ≡ ws ++ (w ∷ [])
      → Tiling lines line ws w
      → IsGood (update_last_line_layout advance_width t g)
  unfolding update_last_line_layout
  layout-IsGood t g lines line ws w b v h =
      let x = add_i32 t.cursor_x (calc_advance advance_width t g) in
      let line_end = sub_i32 (sub_i32 t.size_x t.padding_right) t.padding_left in
      let ended : last t.buffer ≡ some (line ++ (g ∷ [])) =
        rw b (last-append lines (line ++ (g ∷ []))) in
      elim (Bool-cases (gt_i32 x line_end)) [
        | inl over ↦
            rw (update_last_line_layout, over, ended)
              (wrap_line-IsGood t (calc_advance advance_width t g) lines line g ws w b v h)
        | inr within ↦
            rw (update_last_line_layout, within) (extend_line-IsGood t x lines line g ws w b v h)
      ]

  apply_result-IsGood :
      (t : TextBox) (r : Parser.Pushed)
      → IsTiled t.buffer t.visual_lines
      → IsOutcome t.buffer r
      → IsGood (apply_result advance_width t r)
  unfolding apply_result
  apply_result-IsGood t (p, after, pushed_glyph g) (lines, line, ws, w, whole, visual, v) o =
      layout-IsGood (record t { parser = p; buffer = after }) g lines line ws w
        (o ∙ ap (push_glyph g) whole ∙ push_glyph-append g lines line) visual v
  apply_result-IsGood t (p, after, new_logical_line) (lines, line, ws, w, whole, visual, v) o =
      let ended : after ≡ (lines ++ (line ∷ [])) ++ ([] ∷ []) =
        o ∙ ap (λ l. l ++ ([] ∷ [])) whole in
      let k : length after - 1 ≡ length lines + 1 = rw ended (
        omega (
          arith,
          length-append (lines ++ (line ∷ [])) ([] ∷ []),
          length-append lines (line ∷ []),
        )) in
      (
        _,
        refl,
        (
          lines ++ (line ∷ []),
          [],
          ws ++ (w ∷ []),
          record { line_idx = length after - 1; start = 0; end = 0 },
          ended,
          ap (λ l. l ++ (record { line_idx = length after - 1; start = 0; end = 0 } ∷ [])) visual,
          broken lines line ws w (length after - 1) k v,
        ),
      )
  apply_result-IsGood t (p, after, no_new_glyph) (lines, line, ws, w, whole, visual, v) o =
      (record t { parser = p; buffer = after }, refl, (lines, line, ws, w, o ∙ whole, visual, v))

  write_str-step :
      (t t' : TextBox) (b : ℕ) (bs : List ℕ)
      → push_byte advance_width t b ≡ some t'
      → write_str advance_width t (b ∷ bs) ≡ write_str advance_width t' bs
  unfolding write_str
  write_str-step t t' b bs e = rw (write_str, e) refl

  write_str-IsGood :
      (bs : List ℕ) (t : TextBox)
      → IsTiled t.buffer t.visual_lines
      → IsGood (write_str advance_width t bs)
  unfolding write_str push_byte
  write_str-IsGood [] t h = (t, refl, h)
  write_str-IsGood (b ∷ bs) t h =
      let r = Parser.push_byte t.parser b t.buffer in
      let (t', e, h') = apply_result-IsGood t r h (push_byte-IsOutcome t.parser b t.buffer) in
      let (end, f, g) = write_str-IsGood bs t' h' in (end, write_str-step t t' b bs e ∙ f, g)

  shown-IsTiled :
      (buffer : Buffer) (visual : List VisualLine)
      → IsTiled buffer visual
      → (shown buffer visual ≡ flat buffer) × All (IsInside buffer) visual
  unfolding visual_line_slice
  shown-IsTiled buffer visual (lines, line, ws, w, b, e, v) =
      let whole = lines ++ (line ∷ []) in
      let here : get_or whole w.line_idx [] ≡ line =
        ap (λ n. get_or whole n []) v.idx ∙ get_or-last lines line [] in
      let closed : visual_line_slice whole w ≡ drop w.start line =
        rw (here, v.end) (ap (drop w.start) (take_all line)) in
      rw (b, e)
        (
          shown-append whole ws w ∙ rw (closed, flat-append lines line) v.tiles,
          All-append (IsInside whole) ws w v.inside
              (omega (arith, v.start, v.end), rw here (omega (arith, v.end))),
        )

  -- Whatever bytes are written to a text box that has just been reset, whatever the font and the
  -- dimensions: no step panics, each visual line lies within its logical line, and the visual lines
  -- one after the other show every glyph of the buffer once and in order.
  pub write_str_lem :
      (t : TextBox) (style : Style) (bs : List ℕ)
      → (end : TextBox) × (write_str advance_width (reset_content style t) bs ≡ some end)
        × (shown end.buffer end.visual_lines ≡ flat end.buffer)
        × All (IsInside end.buffer) end.visual_lines
  unfolding reset_content
  write_str_lem t style bs =
      let empty : Tiling [] [] [] default_visual_line = record {
        idx = refl;
        end = refl;
        start = omega arith;
        inside = _;
        tiles = refl;
      } in
      let (end, e, h) =
        write_str-IsGood bs (reset_content style t)
          ([], [], [], default_visual_line, refl, refl, empty) in
      let (same, inside) = shown-IsTiled end.buffer end.visual_lines h in (end, e, same, inside)
