-- ===== src/Logger/Flushed.antt =====
-- What `log` leaves behind when nothing keeps it from drawing.
use minecraft_os.Prelude.{
  ℕ, ◌≡◌, refl, true, false, Bool-cases, Option-cases, inl, inr, Option, some, ◌>>=◌, List, ◌==◌,
  length,
}
use mathlib.Core.Path.{subst}
use minecraft_os.Rendering.Panel
use minecraft_os.Rendering.Panel.{Font, Panel}
use minecraft_os.Prelude.Post.{Post, Post-then}
use minecraft_os.Logger.{
  Level, Logger, Situation, flush_staging, render_text_box, flushed, flush_text_box, flush,
  write_text, show_text, log, log_line,
}
use minecraft_os.Logger.Shown.{IsDrawn, render_text_box-IsDrawn}

-- Both locks are free and interrupts are enabled.
abbrev pub at_rest : Situation
at_rest = record { text_box_free = true; renderer_free = true; interrupts = true }

module _ (font : Font) where
  -- What `log` is to leave behind when it can draw.
  abbrev pub IsFlushed : Option Panel → Logger → Type 0
  IsFlushed written l =
      (l.needs_flush ≡ false)
      × (l.text_box ≡ written)
      × (l.rendered ≡ written)
      × (l.display ≡ l.staging.framebuffer)

  flush_staging-IsFlushed :
      (p : Panel) (l : Logger)
      → IsDrawn p l
      → Post (IsFlushed (some p)) (flush_staging l >>= λ l'. some (flushed l'))
  unfolding flush_staging
  flush_staging-IsFlushed p l d =
      elim (Bool-cases (length l.display == length l.staging.framebuffer)) [
        | inl e ↦ rw e (refl, d.0, d.1, refl)
        | inr e ↦ rw e _
      ]

  flush-IsFlushed :
      (l : Logger) (p : Panel)
      → l.needs_flush ≡ true
      → l.text_box ≡ some p
      → Post (IsFlushed (some p)) (flush font at_rest l)
  unfolding flush flush_text_box
  flush-IsFlushed l p n t =
      rw (n, flush, t)
        (Post-then (IsDrawn p) (IsFlushed (some p)) (render_text_box font l p)
          (λ l'. flush_staging l' >>= λ l''. some (flushed l''))
          (render_text_box-IsDrawn font p l t) (λ l' d. flush_staging-IsFlushed p l' d))

  log-Post :
      (l : Logger) (p : Panel) (level : Level) (args : List ℕ)
      → l.visible ≡ true
      → l.text_box ≡ some p
      → Post
          (IsFlushed (Panel.write_str font p (log_line p level args)))
          (log font at_rest l level args)
  unfolding log write_text show_text flush
  log-Post l p level args v t =
      elim (Option-cases (Panel.write_str font p (log_line p level args))) [
        | inl w ↦ rw (write_text, t, w) _
        | inr (q, w) ↦
            rw (write_text, t, w, show_text, v)
              (flush-IsFlushed (record l { text_box = some q; needs_flush = true; visible = true })
                q refl refl)
      ]

  -- With the locks free, the interrupts enabled and the logger visible, a line that is logged is in
  -- the text box, the text box is drawn with it, and the display shows the staging buffer.
  pub log-IsFlushed :
      (l l' : Logger) (p : Panel) (level : Level) (args : List ℕ)
      → l.visible ≡ true
      → l.text_box ≡ some p
      → log font at_rest l level args ≡ some l'
      → IsFlushed (Panel.write_str font p (log_line p level args)) l'
  log-IsFlushed l l' p level args v t e =
      subst (Post (IsFlushed (Panel.write_str font p (log_line p level args)))) e
        (log-Post l p level args v t)
