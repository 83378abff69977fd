-- ===== src/Play.antt =====
-- The main loop of kernel/src/main.rs: commands, keys, and the mouse's clicks. The console is that
-- of Console, and `add` the vector library's `wrapping_add_signed`; the log's text is not kept.
pub mod Words
pub mod Sync
pub mod Rounds
pub mod Aim
pub mod Saving
mod Tests
use package.minecraft_os.Prelude.{
  ℕ, ◌+◌, ◌-◌, Bool, true, false, not, ◌&&◌, ◌||◌, ◌>>=◌, Option, none, some, List, [], ◌∷◌,
  if◌then◌else◌, set, get_or, replicate,
}
use package.minecraft_os.Prelude.Int.{ℤ, pos, negsuc, ◌+ℤ◌}
use package.minecraft_os.Console
use package.minecraft_os.Console.{
  Console, Key, KeyboardEvent, return_key, backspace, escape, arrow_left, arrow_right, other_key,
  set_active, set_visible, process_event, is_empty,
}
use package.minecraft_os.Game.World.{
  World, Block, Face, AddSigned, offset, is_in_bounds, initial_world, block_at,
}
use package.minecraft_os.Game.Mesh.{Triangle, get_world_mesh}
use package.minecraft_os.Game.Voxel
use package.minecraft_os.Game.Voxel.{F32Ops, Search, found, looking_at_solid_block}
use package.minecraft_os.Game.Save
use package.minecraft_os.Game.Save.{Camera, Loaded, serialize, deserialize, bytes_eq}
use package.minecraft_os.Ps2.Mouse.{MouseClicks}
use package.minecraft_os.Storage
use package.minecraft_os.Storage.{
  Backend, Drives, Answers, Transfer, StorageStatus, read_sectors, write_sectors,
}
use package.minecraft_os.Play.Words.{trim, strip_prefix, parse_u64}

pub record Game : Type 0 where
  pub world : World
  pub camera : Camera
  pub mesh : List Triangle
  pub save_lba : Option ℕ
  pub log_fps : Bool
  pub backend : Option (Option Backend)
  pub drives : Drives
  pub console : Console
  pub log_visible : Bool
  pub log_scrolled : ℤ
  pub shutdown_called : Bool

-- The key codes that the loop or the console tell apart.
pub data KeyCode : Type 0 where
  return backspace_key escape_key left_key right_key up_key down_key t_key oem8 other_code : KeyCode

pub record Event : Type 0 where
  pub code : KeyCode
  pub is_down : Bool
  pub character : Option ℕ

abbrev pub console_key : KeyCode → Key
console_key return = return_key
console_key backspace_key = backspace
console_key escape_key = escape
console_key left_key = arrow_left
console_key right_key = arrow_right
console_key up_key = other_key
console_key down_key = other_key
console_key t_key = other_key
console_key oem8 = other_key
console_key other_code = other_key

abbrev pub save_word : List ℕ
save_word = b's' ∷ b'a' ∷ b'v' ∷ b'e' ∷ []

abbrev pub load_word : List ℕ
load_word = b'l' ∷ b'o' ∷ b'a' ∷ b'd' ∷ []

abbrev pub shutdown_word : List ℕ
shutdown_word = b's' ∷ b'h' ∷ b'u' ∷ b't' ∷ b'd' ∷ b'o' ∷ b'w' ∷ b'n' ∷ []

abbrev pub fps_word : List ℕ
fps_word = b'f' ∷ b'p' ∷ b's' ∷ []

-- What a round of the loop gets: the keys, what the mouse and then, after the keys, the pressed keys
-- do to the camera, the block that it looks at, and the clicks.
pub record Frame : Type 0 where
  pub events : List (Event × Answers)
  pub looked : Camera → Camera
  pub moved : Camera → Camera
  pub target : World → Camera → Option (Block × Face)
  pub clicks : MouseClicks

-- `Some` of the block, if there is one; a search that does not end gives none.
abbrev pub of_search : Search → Option (Block × Face)
of_search (found block face) = some (block, face)
of_search Voxel.nothing = none
of_search Voxel.running = none

-- `camera.looking_at_solid_block(&world, 5.0)`
unfoldable pub targeted_block : F32Ops → World → Camera → Option (Block × Face)
targeted_block f32 world camera = of_search (looking_at_solid_block f32 world camera 0x40a0_0000)

module _ (add : AddSigned) where
  -- `WORLD`'s content is replaced and the mesh is built anew.
  unfoldable pub loaded : Game → Loaded → Game
  loaded g (Save.ok world camera) = record g {
    world = world;
    camera = camera;
    mesh = get_world_mesh add world;
  }
  loaded g (Save.err e) = g

  unfoldable pub set_lba : Game → Option ℕ → Game
  set_lba g (some lba) = record g { save_lba = some lba }
  set_lba g none = g

  unfoldable pub save_at : Game → Answers → Option ℕ → Game
  save_at g answers none = g
  save_at g answers (some lba) =
      let out = write_sectors g.backend g.drives answers lba 2 (serialize g.world g.camera) in
      record g { drives = out.drives }

  unfoldable pub save : Game → Answers → Game
  save g answers = save_at g answers g.save_lba

  -- What `load` does with the sectors.
  unfoldable pub finish_load : Game → List ℕ → StorageStatus → Game
  finish_load g buffer Storage.ok = loaded g (deserialize buffer)
  finish_load g buffer (Storage.err e) = g

  unfoldable pub load_at : Game → Answers → Option ℕ → Game
  load_at g answers none = g
  load_at g answers (some lba) =
      let out = read_sectors g.backend g.drives answers lba 2 (replicate 1024 0) in
      finish_load (record g { drives = out.drives }) out.buffer out.status

  unfoldable pub load : Game → Answers → Game
  load g answers = load_at g answers g.save_lba

  -- "help" and an unknown command only write to the log.
  unfoldable pub run_word : Game → Answers → List ℕ → Game
  run_word g answers word =
      if bytes_eq word save_word
      then save g answers
      else if bytes_eq word load_word
      then load g answers
      else if bytes_eq word shutdown_word
      then record g { shutdown_called = true }
      else if bytes_eq word fps_word
      then record g { log_fps = not g.log_fps }
      else g

  -- "set-lba "
  abbrev pub set_lba_prefix : List ℕ
  set_lba_prefix = b's' ∷ b'e' ∷ b't' ∷ b'-' ∷ b'l' ∷ b'b' ∷ b'a' ∷ b' ' ∷ []

  abbrev pub run_trimmed : Game → Answers → List ℕ → Option (List ℕ) → Game
  run_trimmed g answers trimmed (some lba_str) = set_lba g (parse_u64 (trim lba_str))
  run_trimmed g answers trimmed none = run_word g answers trimmed

  unfoldable pub run_command : Game → Answers → List ℕ → Game
  run_command g answers command =
      let trimmed = trim command in
      if is_empty trimmed
      then g
      else run_trimmed g answers trimmed (strip_prefix set_lba_prefix trimmed)

  unfoldable pub toggle_visibility : List ℕ → Game → Game
  toggle_visibility placeholder g =
      let shown = not (g.console.visible && g.log_visible) in
      record g { console = set_visible placeholder g.console shown; log_visible = shown }

  -- What the console makes of a key, `none` being its panic.
  abbrev pub after_console : Game → Answers → Option (Console × Option (List ℕ)) → Option Game
  after_console g answers none = none
  after_console g answers (some (console, none)) = some (record g { console = console })
  after_console g answers (some (console, some command)) =
      some (run_command (record g { console = console }) answers command)

  -- The keys that come before the console's: scrolling, opening the console, hiding the panels.
  -- `typed` is what the console makes of the key.
  unfoldable pub by_code : List ℕ → Game → Bool → Option Game → KeyCode → Option Game
  by_code placeholder g is_down typed up_key =
      if not g.console.active && is_down
      then some (record g { log_scrolled = g.log_scrolled +ℤ pos 1 })
      else typed
  by_code placeholder g is_down typed down_key =
      if not g.console.active && is_down
      then some (record g { log_scrolled = g.log_scrolled +ℤ negsuc 0 })
      else typed
  by_code placeholder g is_down typed t_key =
      if not g.console.active
      then some (record g { console = set_active placeholder g.console true })
      else typed
  by_code placeholder g is_down typed return =
      if not g.console.active
      then some (record g { console = set_active placeholder g.console true })
      else typed
  by_code placeholder g is_down typed oem8 = some (toggle_visibility placeholder g)
  by_code placeholder g is_down typed _ = typed

  unfoldable pub handle_event : List ℕ → Game → Answers → Event → Option Game
  handle_event placeholder g answers event =
      let console_event : KeyboardEvent = record {
        code = console_key event.code;
        character = event.character;
      } in
      let typed = after_console g answers (process_event placeholder g.console console_event) in
      by_code placeholder g event.is_down typed event.code

  -- `for event in keyboard_events`, each with what the drives answer to its command.
  unfoldable pub handle_events : List ℕ → Game → List (Event × Answers) → Option Game
  handle_events placeholder g [] = some g
  handle_events placeholder g ((event, answers) ∷ events) = do
    g' ← handle_event placeholder g answers event
    handle_events placeholder g' events

  -- `world[x][y][z] = solid`, and the mesh is built anew.
  unfoldable pub put_block : Game → Block → Bool → Game
  put_block g b solid =
      let plane = get_or g.world b.x [] in
      let row = get_or plane b.y [] in
      let world = set g.world b.x (set plane b.y (set row b.z solid)) in
      record g { world = world; mesh = get_world_mesh add world }

  -- A left click removes the targeted block.
  unfoldable pub remove_block : Game → Bool → Option (Block × Face) → Game
  remove_block g true (some (block, face)) = put_block g block false
  remove_block g true none = g
  remove_block g false targeted = g

  -- A right click puts one at the targeted face, inside of the world.
  unfoldable pub place_block : Game → Bool → Option (Block × Face) → Game
  place_block g true (some (block, face)) =
      let new = add block (offset face) in if is_in_bounds new then put_block g new true else g
  place_block g true none = g
  place_block g false targeted = g

  unfoldable pub play_frame : List ℕ → Game → Frame → Option Game
  play_frame placeholder g frame = do
    g' ← handle_events placeholder (record g { camera = frame.looked g.camera }) frame.events
    let moved : Game = record g' { camera = frame.moved g'.camera }
    let targeted = frame.target moved.world moved.camera
    some (place_block (remove_block moved frame.clicks.left targeted) frame.clicks.right targeted)

  -- The state before the first round.
  unfoldable pub new_game : Console → Camera → Option (Option Backend) → Drives → Game
  new_game console camera backend drives = record {
    world = initial_world;
    camera = camera;
    mesh = get_world_mesh add initial_world;
    save_lba = none;
    log_fps = false;
    backend = backend;
    drives = drives;
    console = console;
    log_visible = true;
    log_scrolled = pos 0;
    shutdown_called = false;
  }
