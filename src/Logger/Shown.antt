-- ===== src/Logger/Shown.antt =====
-- What is on the screen once nothing is pending.
use minecraft_os.Prelude.{
  ℕ, ◌≡◌, refl, sym, ◌∙◌, Bool, true, false, Bool-cases, Option-cases, inl, inr, Option, none, some,
  ◌>>=◌, List, [], ◌∷◌, ◌&&◌, ◌==◌, length,
}
use mathlib.Core.Path.{subst}
use minecraft_os.Prelude.Int.{ℤ}
use minecraft_os.Rendering.Rectangle.{Rectangle}
use minecraft_os.Rendering.Renderer.{Info, Renderer}
use minecraft_os.Rendering.Panel
use minecraft_os.Rendering.Panel.{Font, Panel}
use minecraft_os.Prelude.Post.{Post, Post-then, Post-any}
use minecraft_os.Logger.{
  Level, Logger, Situation, default, flush_staging, toggle_visible, set_visible, scroll,
  enable_rendering, render_text_box, render_direct, flushed, flush_text_box, flush, write_text,
  show_text, log, render, log_line,
}

-- If nothing is pending, the text box is as it was last drawn.
abbrev pub IsShown : Logger → Type 0
IsShown l = l.needs_flush ≡ false → (p : Panel) → l.text_box ≡ some p → l.rendered ≡ some p

pending-IsShown : (l : Logger) → l.needs_flush ≡ true → IsShown l
pending-IsShown l e h p k = cc (e, h)

empty-IsShown : (l : Logger) → l.text_box ≡ none → IsShown l
empty-IsShown l e h p k = cc (e, k)

-- The text box is the one given, and drawn.
abbrev pub IsDrawn : Panel → Logger → Type 0
IsDrawn p l = (l.text_box ≡ some p) × (l.rendered ≡ some p)

drawn-IsShown : (p : Panel) (l : Logger) → IsDrawn p l → IsShown l
drawn-IsShown p l d h q k = d.1 ∙ sym d.0 ∙ k

-- What the rest of the kernel asks of the logger; other code draws on the screen in between.
pub data Call : Type 0 where
  enable : Rectangle → Call
  log_at : Situation → Level → List ℕ → Call
  flush_at : Situation → Call
  render_frame : Call
  scroll_at : Situation → ℤ → Call
  toggle : Call
  show : Bool → Call
  draw_others : Renderer → List ℕ → Call

flush_staging-IsDrawn : (p : Panel) (l : Logger) → IsDrawn p l → Post (IsDrawn p) (flush_staging l)
unfolding flush_staging
flush_staging-IsDrawn p l d = elim (Bool-cases (length l.display == length l.staging.framebuffer)) [
  | inl e ↦ rw e d
  | inr e ↦ rw e _
]

flushed-IsShown : (p : Panel) (l : Logger) → IsDrawn p l → IsShown (flushed l)
flushed-IsShown p l d = drawn-IsShown p (flushed l) d

module _ (font : Font) where
  pub render_text_box-IsDrawn :
      (p : Panel) (l : Logger) → l.text_box ≡ some p → Post (IsDrawn p) (render_text_box font l p)
  unfolding render_text_box
  render_text_box-IsDrawn p l e =
      Post-then (λ r. Unit {0}) (IsDrawn p) (Panel.render font p l.staging)
        (λ r. some (record l { staging = r; rendered = some p }))
        (Post-any (Panel.render font p l.staging)) (λ r h. (e, refl))

  render_direct-IsDrawn :
      (p : Panel) (l : Logger) (surface : Info)
      → l.text_box ≡ some p
      → Post (IsDrawn p) (render_direct font l p surface)
  unfolding render_direct
  render_direct-IsDrawn p l surface e =
      let r = Panel.render font p (record { framebuffer = l.display; info = surface }) in
      Post-then (λ r. Unit {0}) (IsDrawn p) r
        (λ r. some (record l { display = r.framebuffer; rendered = some p })) (Post-any r)
        (λ r h. (e, refl))

  flush_text_box-IsShown :
      (s : Situation) (l : Logger) (p : Panel)
      → l.text_box ≡ some p
      → IsShown l
      → Post IsShown (flush_text_box font s l p)
  unfolding flush_text_box
  flush_text_box-IsShown s l p e v = elim (Bool-cases s.renderer_free) [
    | inl f ↦ rw f (
        Post-then (IsDrawn p) IsShown (render_text_box font l p)
          (λ l'. flush_staging l' >>= λ l''. some (flushed l'')) (render_text_box-IsDrawn p l e)
          (λ l' d.
            Post-then (IsDrawn p) IsShown (flush_staging l') (λ l''. some (flushed l''))
              (flush_staging-IsDrawn p l' d) (λ l'' d'. flushed-IsShown p l'' d')))
    | inr f ↦ elim (Bool-cases s.interrupts) [
      | inl i ↦ rw (f, i) (pending-IsShown (record l { needs_flush = true }) refl)
      | inr i ↦ elim (Option-cases l.backup_surface) [
        | inl b ↦ rw (f, i, b) v
        | inr (surface, b) ↦
            rw (f, i, b)
              (Post-then (IsDrawn p) IsShown (render_direct font l p surface)
                (λ l'. some (flushed l')) (render_direct-IsDrawn p l surface e)
                (λ l' d. flushed-IsShown p l' d))
      ]
    ]
  ]

  flush-IsShown : (s : Situation) (l : Logger) → IsShown l → Post IsShown (flush font s l)
  unfolding flush
  flush-IsShown s l v = elim (Bool-cases l.needs_flush) [
    | inr n ↦ rw n (λ h p k. v n p k)
    | inl n ↦ elim (Bool-cases s.text_box_free) [
      | inr f ↦ rw (n, f) (λ h q k. cc h)
      | inl f ↦ elim (Option-cases l.text_box) [
        | inl e ↦ rw (n, f, e) (empty-IsShown (flushed l) e)
        | inr (p, e) ↦ rw (n, f, flush, e) (flush_text_box-IsShown s l p e v)
      ]
    ]
  ]

  write_text-IsShown :
      (s : Situation) (l : Logger) (level : Level) (args : List ℕ)
      → IsShown l
      → Post IsShown (write_text font s l level args)
  unfolding write_text
  write_text-IsShown s l level args v = elim (Bool-cases s.text_box_free) [
    | inr f ↦ rw f v
    | inl f ↦ elim (Option-cases l.text_box) [
      | inl e ↦ rw (f, e) v
      | inr (p, e) ↦
          let written = Panel.write_str font p (log_line p level args) in
          rw (f, write_text, e)
            (Post-then (λ q. Unit {0}) IsShown written
              (λ q. some (record l { text_box = some q; needs_flush = true })) (Post-any written)
              (λ q h. pending-IsShown (record l { text_box = some q; needs_flush = true }) refl))
    ]
  ]

  show_text-IsShown : (s : Situation) (l : Logger) → IsShown l → Post IsShown (show_text font s l)
  unfolding show_text flush
  show_text-IsShown s l v =
      let pending = record l { needs_flush = true } in
      elim (Bool-cases (l.needs_flush && l.visible)) [
        | inr n ↦ rw n v
        | inl n ↦ elim (Bool-cases s.interrupts) [
          | inl i ↦ rw (n, i) (flush-IsShown s pending (pending-IsShown pending refl))
          | inr i ↦ rw (n, i) (pending-IsShown pending refl)
        ]
      ]

  render-IsShown : (l : Logger) → IsShown l → Post IsShown (render font l)
  unfolding render
  render-IsShown l v = elim (Bool-cases l.visible) [
    | inr n ↦ rw n v
    | inl n ↦ elim (Option-cases l.text_box) [
      | inl e ↦ rw (n, e) (empty-IsShown (flushed l) e)
      | inr (p, e) ↦
          rw (n, render, e)
            (Post-then (IsDrawn p) IsShown (render_text_box font l p) (λ l'. some (flushed l'))
              (render_text_box-IsDrawn p l e) (λ l' d. flushed-IsShown p l' d))
    ]
  ]

  scroll-IsShown :
      (s : Situation) (l : Logger) (delta : ℤ)
      → IsShown l
      → Post (λ r. IsShown r.0) (scroll s l delta)
  unfolding scroll
  scroll-IsShown s l delta v = elim (Bool-cases s.text_box_free) [
    | inr f ↦ rw f v
    | inl f ↦ elim (Option-cases l.text_box) [
      | inl e ↦ rw (f, e) v
      | inr (p, e) ↦
          rw (f, scroll, e)
            (Post-then (λ q. Unit {0}) (λ r. IsShown r.0) (Panel.scroll p delta)
              (λ q. some (record l { text_box = some q; needs_flush = true }, true))
              (Post-any (Panel.scroll p delta))
              (λ q h. pending-IsShown (record l { text_box = some q; needs_flush = true }) refl))
    ]
  ]

  enable_rendering-IsShown :
      (l : Logger) (bounds : Rectangle) → Post IsShown (enable_rendering font l bounds)
  unfolding enable_rendering
  enable_rendering-IsShown l bounds =
      let l' = λ (p : Panel). record l {
        text_box = some p;
        backup_surface = some l.staging.info;
        bounds = some bounds;
        needs_flush = true;
      } in
      Post-then (λ q. Unit {0}) IsShown (Panel.new font bounds) (λ p. some (l' p))
        (Post-any (Panel.new font bounds)) (λ p h. pending-IsShown (l' p) refl)

  abbrev pub call : Logger → Call → Option Logger
  call l (enable bounds) = enable_rendering font l bounds
  call l (log_at s level args) = log font s l level args
  call l (flush_at s) = flush font s l
  call l render_frame = render font l
  call l (scroll_at s delta) = scroll s l delta >>= λ r. some r.0
  call l toggle = some (toggle_visible l)
  call l (show visible) = some (set_visible visible l)
  call l (draw_others staging display) = some (record l { staging = staging; display = display })

  abbrev pub run_calls : Logger → List Call → Option Logger
  run_calls l [] = some l
  run_calls l (c ∷ cs) = call l c >>= λ l'. run_calls l' cs

  call-IsShown : (l : Logger) (c : Call) → IsShown l → Post IsShown (call l c)
  unfolding log toggle_visible set_visible
  call-IsShown l (enable bounds) v = enable_rendering-IsShown l bounds
  call-IsShown l (log_at s level args) v =
      Post-then IsShown IsShown (write_text font s l level args) (λ l'. show_text font s l')
        (write_text-IsShown s l level args v) (λ l' v'. show_text-IsShown s l' v')
  call-IsShown l (flush_at s) v = flush-IsShown s l v
  call-IsShown l render_frame v = render-IsShown l v
  call-IsShown l (scroll_at s delta) v =
      Post-then (λ r. IsShown r.0) IsShown (scroll s l delta) (λ r. some r.0)
        (scroll-IsShown s l delta v) (λ r v'. v')
  call-IsShown l toggle v = v
  call-IsShown l (show visible) v = v
  call-IsShown l (draw_others staging display) v = v

  run_calls-IsShown : (l : Logger) (cs : List Call) → IsShown l → Post IsShown (run_calls l cs)
  run_calls-IsShown l [] v = v
  run_calls-IsShown l (c ∷ cs) v =
      Post-then IsShown IsShown (call l c) (λ l'. run_calls l' cs) (call-IsShown l c v)
        (λ l' v'. run_calls-IsShown l' cs v')

  -- Whatever was logged, drawn, scrolled and hidden, with the locks and the interrupts as they may be:
  -- once the logger marks nothing as pending, its text box is as it was last drawn.
  pub run_calls_lem :
      (staging : Renderer) (display : List ℕ) (cs : List Call) (l : Logger) (p : Panel)
      → run_calls (default staging display) cs ≡ some l
      → l.needs_flush ≡ false
      → l.text_box ≡ some p
      → l.rendered ≡ some p
  unfolding default
  run_calls_lem staging display cs l p e n t =
      subst (Post IsShown) e
        (run_calls-IsShown (default staging display) cs
          (empty-IsShown (default staging display) refl))
        n p t
