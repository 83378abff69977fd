-- ===== src/Rendering/Panel/Window.antt =====
-- The window of a text box is full, however it was written and scrolled.
use minecraft_os.Prelude.{
  ℕ, zero, suc, ◌+◌, ◌-◌, ◌≤◌, ◌≡◌, refl, sym, ap, ◌∙◌, arith, min, true, Bool-cases, Option-cases,
  inl, inr, Option, some, ◌>>=◌, List, [], ◌∷◌, ◌++◌, length, length-append, length-take,
  length-drop, take, drop, leb,
}
use mathlib.Core.List.{append_assoc}
use mathlib.Core.Path.{subst}
use minecraft_os.Prelude.Int.{ℤ, pos, negsuc}
use minecraft_os.Prelude.Post.{Post, Post-then, Post-any, Post-map, Post-self}
use minecraft_os.Rendering.Parser.{Glyph, pushed_glyph, new_logical_line, no_new_glyph}
use minecraft_os.Rendering.Parser
use minecraft_os.Rendering.Rectangle.{Rectangle}
use minecraft_os.Rendering.TextBox
use minecraft_os.Rendering.TextBox.{
  TextBox, VisualLine, update_last, last, wrap_line, extend_line, update_last_line_layout,
  apply_result, gt_i32, add_i32, sub_i32, default_visual_line, calc_advance, reset_content,
}
use minecraft_os.Rendering.Panel.{
  Font, Panel, reset, max_visible_lines, scroll, clear, set_cursor_index, lines_to_render,
  recalculate_metrics, initial, new, set_font_size, push_byte, write_str, set_text,
}

pub take-drop {ℓ} : {A : Type ℓ} (n : ℕ) (xs : List A) → take n xs ++ drop n xs ≡ xs
take-drop zero xs = refl
take-drop (suc n) [] = refl
take-drop (suc n) (x ∷ xs) = ap (λ l. x ∷ l) (take-drop n xs)

split {ℓ} :
    {A : Type ℓ} (xs : List A) (n k : ℕ)
    → xs ≡ take k (take n xs) ++ (drop k (take n xs) ++ drop n xs)
split xs n k = sym (
    sym (append_assoc (take k (take n xs)) (drop k (take n xs)) (drop n xs))
    ∙ ap (λ l. l ++ drop n xs) (take-drop k (take n xs))
    ∙ take-drop n xs)

same_some : (a b : ℕ) → some a ≡ some b → a ≡ b
same_some a b e = cc e

abbrev Grows : TextBox → TextBox → Type 0
Grows t t' = length t.visual_lines ≤ length t'.visual_lines

length-update_last {ℓ} :
    {A : Type ℓ} (f : A → A) (xs : List A) → Post (λ ys. length ys ≡ length xs) (update_last f xs)
unfolding update_last
length-update_last f [] = _
length-update_last f (x ∷ []) = refl
length-update_last f (x ∷ y ∷ xs) = elim (Option-cases (update_last f (y ∷ xs))) [
  | inl e ↦ rw e _
  | inr (zs, e) ↦
      let h : length zs ≡ length (y ∷ xs) =
        subst (Post (λ ws. length ws ≡ length (y ∷ xs))) e (length-update_last f (y ∷ xs)) in
      rw e (ap suc h)
]

updated_length {ℓ} :
    {A : Type ℓ} (f : A → A) (xs ys : List A) → update_last f xs ≡ some ys → length ys ≡ length xs
updated_length f xs ys e = subst (Post (λ ys. length ys ≡ length xs)) e (length-update_last f xs)

wrap_line-Grows :
    (advance_width : ℕ → ℕ) (t : TextBox) (advance i : ℕ)
    → Post (Grows t) (wrap_line advance_width t advance i)
unfolding wrap_line
wrap_line-Grows w t advance i =
    let f = λ (v : VisualLine). record v { end = i } in
    elim (Option-cases (update_last f t.visual_lines)) [
      | inl e ↦ rw (wrap_line, e) _
      | inr (ws, e) ↦
          rw (wrap_line, e) (omega (arith, updated_length f t.visual_lines ws e, length-append {0}))
    ]

extend_line-Grows :
    (advance_width : ℕ → ℕ) (t : TextBox) (x : ℕ) → Post (Grows t) (extend_line advance_width t x)
unfolding extend_line
extend_line-Grows w t x =
    let f = λ (v : VisualLine). record v { end = v.end + 1 } in
    elim (Option-cases (update_last f t.visual_lines)) [
      | inl e ↦ rw (extend_line, e) _
      | inr (ws, e) ↦ rw (extend_line, e) (omega (arith, updated_length f t.visual_lines ws e))
    ]

update_last_line_layout-Grows :
    (advance_width : ℕ → ℕ) (t : TextBox) (g : Glyph)
    → Post (Grows t) (update_last_line_layout advance_width t g)
unfolding update_last_line_layout
update_last_line_layout-Grows w t g =
    let advance = calc_advance w t g in
    let x = add_i32 t.cursor_x advance in
    elim (Bool-cases (gt_i32 x (sub_i32 (sub_i32 t.size_x t.padding_right) t.padding_left))) [
      | inr e ↦ rw e (extend_line-Grows w t x)
      | inl e ↦ elim (Option-cases (last t.buffer)) [
        | inl f ↦ rw (update_last_line_layout, e, f) _
        | inr (line, f) ↦
            rw (update_last_line_layout, e, f) (wrap_line-Grows w t advance (length line - 1))
      ]
    ]

apply_result-Grows :
    (advance_width : ℕ → ℕ) (t : TextBox) (r : Parser.Pushed)
    → Post (Grows t) (apply_result advance_width t r)
unfolding apply_result
apply_result-Grows w t (parser, buffer, pushed_glyph g) =
    update_last_line_layout-Grows w (record t { parser = parser; buffer = buffer }) g
apply_result-Grows w t (parser, buffer, new_logical_line) = omega (arith, length-append {0})
apply_result-Grows w t (parser, buffer, no_new_glyph) = omega arith

-- The text is never scrolled past its first line.
abbrev IsScrolled : Panel → Type 0
IsScrolled p =
    (m : ℕ) → max_visible_lines p ≡ some m → p.scroll_offset ≤ length p.text.visual_lines - m

unscrolled : (p : Panel) → p.scroll_offset ≡ 0 → IsScrolled p
unscrolled p e m h = omega (arith, e)

-- What the rest of the program asks of a text box.
pub data Call : Type 0 where
  write : ℕ → Call
  scroll_by : ℤ → Call
  resize_font : ℕ → Call
  clear_all : Call
  set_to : List ℕ → Call
  point_at : Option ℕ → Call

module _ (font : Font) where
  push_byte-IsScrolled : (p : Panel) (b : ℕ) → IsScrolled p → Post IsScrolled (push_byte font p b)
  unfolding push_byte TextBox.push_byte max_visible_lines
  push_byte-IsScrolled p b v =
      Post-then (Grows p.text) IsScrolled _ _
        (apply_result-Grows _ p.text (Parser.push_byte p.text.parser b p.text.buffer))
        (λ t h m e. omega (arith, v m e, h))

  write_str-IsScrolled :
      (p : Panel) (bs : List ℕ) → IsScrolled p → Post IsScrolled (write_str font p bs)
  unfolding write_str
  write_str-IsScrolled p [] v = v
  write_str-IsScrolled p (b ∷ bs) v =
      Post-then IsScrolled IsScrolled (push_byte font p b) _ (push_byte-IsScrolled p b v)
        (λ p' v'. write_str-IsScrolled p' bs v')

  scroll-IsScrolled : (p : Panel) (delta : ℤ) → IsScrolled p → Post IsScrolled (scroll p delta)
  unfolding scroll max_visible_lines
  scroll-IsScrolled p (negsuc n) v = λ m e. omega (arith, v m e)
  scroll-IsScrolled p (pos n) v =
      Post-then (λ visible. max_visible_lines p ≡ some visible) IsScrolled (max_visible_lines p) _
        (Post-self (max_visible_lines p))
        (λ visible h m e.
          let same : visible ≡ m = same_some visible m (sym h ∙ e) in omega (arith, same))

  unfoldable pub call : Panel → Call → Option Panel
  call p (write b) = push_byte font p b
  call p (scroll_by delta) = scroll p delta
  call p (resize_font size) = set_font_size font p size
  call p clear_all = some (clear p)
  call p (set_to text) = set_text font p text
  call p (point_at index) = some (set_cursor_index p index)

  abbrev pub run_calls : Panel → List Call → Option Panel
  run_calls p [] = some p
  run_calls p (c ∷ cs) = call p c >>= λ p'. run_calls p' cs

  recalculate-unscrolled :
      (p : Panel)
      → p.scroll_offset ≡ 0
      → Post (λ q. q.scroll_offset ≡ 0) (recalculate_metrics font p)
  unfolding recalculate_metrics
  recalculate-unscrolled p e =
      Post-then (λ m. Unit {0}) (λ q. q.scroll_offset ≡ 0)
        (font.horizontal_line_metrics p.font_size) _
        (Post-any (font.horizontal_line_metrics p.font_size)) (λ m h. e)

  reset-IsScrolled : (p : Panel) → IsScrolled (reset p)
  unfolding reset
  reset-IsScrolled p = unscrolled _ refl

  call-IsScrolled : (p : Panel) (c : Call) → IsScrolled p → Post IsScrolled (call p c)
  unfolding call clear set_text set_cursor_index set_font_size max_visible_lines
  call-IsScrolled p (write b) v = push_byte-IsScrolled p b v
  call-IsScrolled p (scroll_by delta) v = scroll-IsScrolled p delta v
  call-IsScrolled p (resize_font size) v =
      Post-map (λ q. q.scroll_offset ≡ 0) IsScrolled (set_font_size font p size) unscrolled
        (recalculate-unscrolled _ refl)
  call-IsScrolled p clear_all v = reset-IsScrolled p
  call-IsScrolled p (set_to text) v = write_str-IsScrolled (reset p) text (reset-IsScrolled p)
  call-IsScrolled p (point_at index) v = v

  run_calls-IsScrolled :
      (p : Panel) (cs : List Call) → IsScrolled p → Post IsScrolled (run_calls p cs)
  run_calls-IsScrolled p [] v = v
  run_calls-IsScrolled p (c ∷ cs) v =
      Post-then IsScrolled IsScrolled (call p c) _ (call-IsScrolled p c v)
        (λ p' v'. run_calls-IsScrolled p' cs v')

  new-IsScrolled : (box : Rectangle) → Post IsScrolled (new font box)
  unfolding new
  new-IsScrolled box =
      Post-then (λ q. Unit {0}) IsScrolled (recalculate_metrics font (initial font box))
        (λ q. some (reset q)) (Post-any (recalculate_metrics font (initial font box)))
        (λ q h. reset-IsScrolled q)

  -- A text box that is set up, and then written to, scrolled, resized and emptied in any order.
  abbrev pub used : Rectangle → List Call → Option Panel
  used box cs = new font box >>= λ p. run_calls p cs

  used-IsScrolled : (box : Rectangle) (cs : List Call) → Post IsScrolled (used box cs)
  used-IsScrolled box cs =
      Post-then IsScrolled IsScrolled (new font box) _ (new-IsScrolled box)
        (λ p v. run_calls-IsScrolled p cs v)

  -- However a new text box was written to, scrolled, resized and emptied, if `m` lines fit in it: the
  -- lines that `render` shows are in range, as many as `m` and the text allow, and all lines but
  -- those before them and the `scroll_offset` last ones.
  pub lines_to_render_lem :
      (box : Rectangle) (cs : List Call) (p : Panel) (m : ℕ)
      → used box cs ≡ some p
      → max_visible_lines p ≡ some m
      → (before : List VisualLine) × (shown : List VisualLine) × (after : List VisualLine)
        × (lines_to_render p ≡ some shown)
        × (p.text.visual_lines ≡ before ++ (shown ++ after))
        × (length after ≡ p.scroll_offset)
        × (length shown ≡ min m (length p.text.visual_lines))
  unfolding lines_to_render
  lines_to_render_lem box cs p m e h =
      let v : IsScrolled p = subst (Post IsScrolled) e (used-IsScrolled box cs) in
      let lines = p.text.visual_lines in
      let end = length lines - p.scroll_offset in
      let top = take end lines in
      let inside : leb p.scroll_offset (length lines) ≡ true = ground (arith, v m h) in
      let n = length-take end lines in
      (
        take (end - m) top,
        drop (end - m) top,
        drop end lines,
        rw (inside, h) refl,
        split lines end (end - m),
        omega (arith, length-drop end lines, v m h),
        omega (arith, length-drop (end - m) top, n, v m h),
      )
