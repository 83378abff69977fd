-- ===== src/Logger.antt =====
-- `TextBoxLogger` of kernel/src/logger.rs with the global renderer of kernel/src/rendering.rs. The
-- two locks and the interrupt flag, which a call finds as it finds them, are an argument; `none` is a
-- panic.
pub mod Shown
pub mod Flushed
mod Tests
use package.minecraft_os.Prelude.{
  ℕ, Bool, true, false, not, ◌&&◌, Option, none, some, ◌>>=◌, List, [], ◌∷◌, ◌++◌, ◌==◌,
  if◌then◌else◌, length,
}
use package.minecraft_os.Prelude.Int.{ℤ}
use package.minecraft_os.Rendering.Color.{Color, white, fg}
use package.minecraft_os.Rendering.Rectangle.{Rectangle}
use package.minecraft_os.Rendering.Renderer.{Info, Renderer}
use package.minecraft_os.Rendering.Panel
use package.minecraft_os.Rendering.Panel.{Font, Panel, get_current_text_color}

-- `log::Level`
pub data Level : Type 0 where
  error : Level
  warn : Level
  info : Level
  debug : Level
  trace : Level

abbrev pub color_of : Level → Color
color_of error = record { red = 255; green = 0; blue = 0 }
color_of warn = record { red = 255; green = 255; blue = 0 }
color_of info = white
color_of debug = record { red = 180; green = 180; blue = 180 }
color_of trace = record { red = 120; green = 120; blue = 120 }

-- `{:5}` of a level
abbrev pub level_text : Level → List ℕ
level_text error = b'E' ∷ b'R' ∷ b'R' ∷ b'O' ∷ b'R' ∷ []
level_text warn = b'W' ∷ b'A' ∷ b'R' ∷ b'N' ∷ b' ' ∷ []
level_text info = b'I' ∷ b'N' ∷ b'F' ∷ b'O' ∷ b' ' ∷ []
level_text debug = b'D' ∷ b'E' ∷ b'B' ∷ b'U' ∷ b'G' ∷ []
level_text trace = b'T' ∷ b'R' ∷ b'A' ∷ b'C' ∷ b'E' ∷ []

-- The logger and the global renderer. The backup surface is the displayed frame buffer, so only its
-- `info` is kept; `rendered` is no field of the code: the text box as it was last drawn.
pub record Logger : Type 0 where
  pub text_box : Option Panel
  pub backup_surface : Option Info
  pub bounds : Option Rectangle
  pub needs_flush : Bool
  pub visible : Bool
  pub staging : Renderer
  pub display : List ℕ
  pub rendered : Option Panel

-- Whether `try_lock` gets the text box and the global renderer, and whether interrupts are enabled.
pub record Situation : Type 0 where
  pub text_box_free : Bool
  pub renderer_free : Bool
  pub interrupts : Bool

unfoldable pub default : Renderer → List ℕ → Logger
default staging display = record {
  text_box = none;
  backup_surface = none;
  bounds = none;
  needs_flush = false;
  visible = true;
  staging = staging;
  display = display;
  rendered = none;
}

-- `GlobalRenderer::flush`, where `copy_from_slice` panics on two lengths.
unfoldable pub flush_staging : Logger → Option Logger
flush_staging l =
    if length l.display == length l.staging.framebuffer
    then some (record l { display = l.staging.framebuffer })
    else none

unfoldable pub toggle_visible : Logger → Logger
toggle_visible l = record l { visible = not l.visible }

unfoldable pub set_visible : Bool → Logger → Logger
set_visible visible l = record l { visible = visible }

abbrev pub is_visible : Logger → Bool
is_visible l = l.visible

-- The line that `log` writes.
abbrev pub log_line : Panel → Level → List ℕ → List ℕ
log_line p level args =
    fg (color_of level)
    ++ (level_text level
        ++ (b':' ∷ b' ' ∷ (args ++ (fg (get_current_text_color p) ++ (b'\n' ∷ [])))))

-- Whether there was a text box to scroll.
unfoldable pub scroll : Situation → Logger → ℤ → Option (Logger × Bool)
scroll s l delta =
    if s.text_box_free
    then elim l.text_box [
      | none ↦ some (l, false)
      | some p ↦ Panel.scroll p delta >>= λ p'.
          some (record l { text_box = some p'; needs_flush = true }, true)
    ]
    else some (l, false)

abbrev pub flushed : Logger → Logger
flushed l = record l { needs_flush = false }

module _ (font : Font) where
  unfoldable pub enable_rendering : Logger → Rectangle → Option Logger
  enable_rendering l bounds = do
    p ← Panel.new font bounds
    some (record l {
      text_box = some p;
      backup_surface = some l.staging.info;
      bounds = some bounds;
      needs_flush = true;
    })

  unfoldable pub render_text_box : Logger → Panel → Option Logger
  render_text_box l p = do
    r ← Panel.render font p l.staging
    some (record l { staging = r; rendered = some p })

  unfoldable pub render_direct : Logger → Panel → Info → Option Logger
  render_direct l p surface = do
    r ← Panel.render font p (record { framebuffer = l.display; info = surface })
    some (record l { display = r.framebuffer; rendered = some p })

  -- The rest of `flush`, with the text box locked.
  unfoldable pub flush_text_box : Situation → Logger → Panel → Option Logger
  flush_text_box s l p =
      if s.renderer_free
      then (do l' ← render_text_box l p; l'' ← flush_staging l'; some (flushed l''))
      else if s.interrupts
      then some (record l { needs_flush = true })
      else elim l.backup_surface [
        | none ↦ some l
        | some surface ↦ render_direct l p surface >>= λ l'. some (flushed l')
      ]

  unfoldable pub flush : Situation → Logger → Option Logger
  flush s l =
      if not l.needs_flush
      then some l
      else if not s.text_box_free
      then some l
      else elim l.text_box [ none ↦ some (flushed l) | some p ↦ flush_text_box s l p ]

  unfoldable pub write_text : Situation → Logger → Level → List ℕ → Option Logger
  write_text s l level args =
      if s.text_box_free
      then elim l.text_box [
        | none ↦ some l
        | some p ↦ Panel.write_str font p (log_line p level args) >>= λ p'.
            some (record l { text_box = some p'; needs_flush = true })
      ]
      else some l

  -- What `log` does once the text is written.
  unfoldable pub show_text : Situation → Logger → Option Logger
  show_text s l =
      let pending = record l { needs_flush = true } in
      if l.needs_flush && l.visible
      then (if s.interrupts then flush s pending else some pending)
      else some l

  unfoldable pub log : Situation → Logger → Level → List ℕ → Option Logger
  log s l level args = do l' ← write_text s l level args; show_text s l'

  -- `render` into the frame of the main loop.
  unfoldable pub render : Logger → Option Logger
  render l = if not l.visible then some l else elim l.text_box [
    | none ↦ some (flushed l)
    | some p ↦ render_text_box l p >>= λ l'. some (flushed l')
  ]
