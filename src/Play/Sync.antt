-- ===== src/Play/Sync.antt =====
-- The mesh that is drawn is that of the world, whatever the player and the drives do.
use minecraft_os.Prelude.{
  ℕ, ◌≡◌, refl, ◌∙◌, arith, Bool, true, false, not, ◌>>=◌, Option, none, some, List, [], ◌∷◌,
  length, length-set, All, get_or, set, if◌then◌else◌, ◌<◌, zero, suc,
}
use minecraft_os.Console.{Console}
use minecraft_os.Game.World.{
  IsWorld, IsPlane, Block, AddSigned, initial_world, fill_layers, fill_layer, fill_row, empty_world,
  is_in_bounds,
}
use minecraft_os.Game.Mesh.{get_world_mesh}
use minecraft_os.Game.Save
use minecraft_os.Game.Save.{Camera, Loaded, deserialize, bytes_eq}
use minecraft_os.Game.Save.RoundTrip.{deserialize-dimensions}
use minecraft_os.Storage
use minecraft_os.Storage.{Answers, Backend, Drives, StorageStatus}
use minecraft_os.Play
use minecraft_os.Play.{
  Game, Event, Frame, KeyCode, save_word, load_word, shutdown_word, fps_word, loaded, set_lba, save,
  save_at, finish_load, load, load_at, run_word, run_trimmed, run_command, after_console, by_code,
  handle_event, handle_events, toggle_visibility, put_block, remove_block, place_block, play_frame,
  new_game,
}

All-set {ℓ κ} :
    {A : Type ℓ} (P : A → Type κ) (xs : List A) (i : ℕ) (v : A)
    → All P xs
    → P v
    → All P (set xs i v)
All-set P [] i v h p = _
All-set P (x ∷ xs) zero v h p = (p, h.1)
All-set P (x ∷ xs) (suc i) v h p = (h.0, All-set P xs i v h.1 p)

All-get_or {ℓ κ} :
    {A : Type ℓ} (P : A → Type κ) (xs : List A) (i : ℕ) (d : A)
    → i < length xs
    → All P xs
    → P (get_or xs i d)
All-get_or P [] i d l h = absurd (omega arith)
All-get_or P (x ∷ xs) zero d l h = h.0
All-get_or P (x ∷ xs) (suc i) d l h = All-get_or P xs i d (omega arith) h.1

pub initial_world-IsWorld : IsWorld initial_world
unfolding initial_world fill_layers fill_layer fill_row empty_world
initial_world-IsWorld = omega arith

module _ (add : AddSigned) where
  -- The world has its dimensions, and the mesh is the world's.
  pub record IsInSync (g : Game) : Type 0 where
    pub dimensions : IsWorld g.world
    pub mesh : g.mesh ≡ get_world_mesh add g.world

  pub put_block-IsInSync :
      (g : Game) (b : Block) (solid : Bool)
      → is_in_bounds b ≡ true
      → IsInSync g
      → IsInSync (put_block add g b solid)
  unfolding put_block is_in_bounds
  put_block-IsInSync g b solid inside v =
      let x : b.x < 8 = ground (arith, inside) in
      let y : b.y < 8 = ground (arith, inside) in
      let plane = All-get_or IsPlane g.world b.x [] (rw v.dimensions.0 x) v.dimensions.1 in
      let row =
        All-get_or (λ (row : List Bool). length row ≡ 8) (get_or g.world b.x []) b.y []
          (rw plane.0 y) plane.1 in
      record {
        dimensions = (
          length-set g.world b.x _ ∙ v.dimensions.0,
          All-set IsPlane g.world b.x _ v.dimensions.1 (
            length-set (get_or g.world b.x []) b.y _ ∙ plane.0,
            All-set (λ (row : List Bool). length row ≡ 8) (get_or g.world b.x []) b.y _ plane.1
                (length-set (get_or (get_or g.world b.x []) b.y []) b.z solid ∙ row),
          ),
        );
        mesh = refl;
      }

  loaded-IsInSync :
      (g : Game) (buffer : List ℕ) (r : Loaded)
      → deserialize buffer ≡ r
      → IsInSync g
      → IsInSync (loaded add g r)
  unfolding loaded
  loaded-IsInSync g buffer (Save.ok world camera) e v = record {
    dimensions = deserialize-dimensions buffer world camera e;
    mesh = refl;
  }
  loaded-IsInSync g buffer (Save.err x) e v = v

  finish_load-IsInSync :
      (g : Game) (buffer : List ℕ) (status : StorageStatus)
      → IsInSync g
      → IsInSync (finish_load add g buffer status)
  unfolding finish_load
  finish_load-IsInSync g buffer Storage.ok v = loaded-IsInSync g buffer (deserialize buffer) refl v
  finish_load-IsInSync g buffer (Storage.err e) v = v

  load_at-IsInSync :
      (g : Game) (answers : Answers) (lba : Option ℕ)
      → IsInSync g
      → IsInSync (load_at add g answers lba)
  unfolding load_at
  load_at-IsInSync g answers none v = v
  load_at-IsInSync g answers (some lba) v =
      finish_load-IsInSync _ _ _ (record { dimensions = v.dimensions; mesh = v.mesh })

  save_at-IsInSync :
      (g : Game) (answers : Answers) (lba : Option ℕ)
      → IsInSync g
      → IsInSync (save_at add g answers lba)
  unfolding save_at
  save_at-IsInSync g answers none v = v
  save_at-IsInSync g answers (some lba) v = record { dimensions = v.dimensions; mesh = v.mesh }

  set_lba-IsInSync : (g : Game) (lba : Option ℕ) → IsInSync g → IsInSync (set_lba add g lba)
  unfolding set_lba
  set_lba-IsInSync g none v = v
  set_lba-IsInSync g (some lba) v = record { dimensions = v.dimensions; mesh = v.mesh }

  -- A conditional keeps what both of its branches keep.
  either_way : (b : Bool) (g h : Game) → IsInSync g → IsInSync h → IsInSync (if b then g else h)
  either_way true g h v w = v
  either_way false g h v w = w

  run_word-IsInSync :
      (g : Game) (answers : Answers) (word : List ℕ)
      → IsInSync g
      → IsInSync (run_word add g answers word)
  unfolding run_word save load
  run_word-IsInSync g answers word v =
      let off = record g { shutdown_called = true } in
      let fps = record g { log_fps = not g.log_fps } in
      either_way (bytes_eq word save_word) (save add g answers) _
        (save_at-IsInSync g answers g.save_lba v)
        (either_way (bytes_eq word load_word) (load add g answers) _
          (load_at-IsInSync g answers g.save_lba v)
          (either_way (bytes_eq word shutdown_word) off _
            (record { dimensions = v.dimensions; mesh = v.mesh })
            (either_way (bytes_eq word fps_word) fps g
              (record { dimensions = v.dimensions; mesh = v.mesh }) v)))

  run_trimmed-IsInSync :
      (g : Game) (answers : Answers) (word : List ℕ) (lba_str : Option (List ℕ))
      → IsInSync g
      → IsInSync (run_trimmed add g answers word lba_str)
  run_trimmed-IsInSync g answers word none v = run_word-IsInSync g answers word v
  run_trimmed-IsInSync g answers word (some lba_str) v = set_lba-IsInSync g _ v

  run_command-IsInSync :
      (g : Game) (answers : Answers) (command : List ℕ)
      → IsInSync g
      → IsInSync (run_command add g answers command)
  unfolding run_command
  run_command-IsInSync g answers command v =
      either_way _ _ _ v (run_trimmed-IsInSync g answers _ _ v)

  -- If there is no panic, the state that is reached is in sync.
  abbrev pub IsKept : Option Game → Type 0
  IsKept none = Unit
  IsKept (some g) = IsInSync g

  IsKept-either_way :
      (b : Bool) (g : Game) (r : Option Game)
      → IsInSync g
      → IsKept r
      → IsKept (if b then some g else r)
  IsKept-either_way true g r v w = v
  IsKept-either_way false g r v w = w

  after_console-IsKept :
      (g : Game) (answers : Answers) (r : Option (Console × Option (List ℕ)))
      → IsInSync g
      → IsKept (after_console add g answers r)
  after_console-IsKept g answers none v = _
  after_console-IsKept g answers (some (console, none)) v = record {
    dimensions = v.dimensions;
    mesh = v.mesh;
  }
  after_console-IsKept g answers (some (console, some command)) v =
      run_command-IsInSync (record g { console = console }) answers command
        (record { dimensions = v.dimensions; mesh = v.mesh })

  by_code-IsKept :
      (placeholder : List ℕ) (g : Game) (is_down : Bool) (typed : Option Game) (code : KeyCode)
      → IsInSync g
      → IsKept typed
      → IsKept (by_code add placeholder g is_down typed code)
  unfolding by_code toggle_visibility
  by_code-IsKept placeholder g is_down typed Play.up_key v w =
      IsKept-either_way _ _ typed (record { dimensions = v.dimensions; mesh = v.mesh }) w
  by_code-IsKept placeholder g is_down typed Play.down_key v w =
      IsKept-either_way _ _ typed (record { dimensions = v.dimensions; mesh = v.mesh }) w
  by_code-IsKept placeholder g is_down typed Play.t_key v w =
      IsKept-either_way _ _ typed (record { dimensions = v.dimensions; mesh = v.mesh }) w
  by_code-IsKept placeholder g is_down typed Play.return v w =
      IsKept-either_way _ _ typed (record { dimensions = v.dimensions; mesh = v.mesh }) w
  by_code-IsKept placeholder g is_down typed Play.oem8 v w = record {
    dimensions = v.dimensions;
    mesh = v.mesh;
  }
  by_code-IsKept placeholder g is_down typed Play.backspace_key v w = w
  by_code-IsKept placeholder g is_down typed Play.escape_key v w = w
  by_code-IsKept placeholder g is_down typed Play.left_key v w = w
  by_code-IsKept placeholder g is_down typed Play.right_key v w = w
  by_code-IsKept placeholder g is_down typed Play.other_code v w = w

  handle_event-IsKept :
      (placeholder : List ℕ) (g : Game) (answers : Answers) (event : Event)
      → IsInSync g
      → IsKept (handle_event add placeholder g answers event)
  unfolding handle_event
  handle_event-IsKept placeholder g answers event v =
      by_code-IsKept placeholder g event.is_down _ event.code v (after_console-IsKept g answers _ v)

  pub IsKept-then :
      (r : Option Game) (f : Game → Option Game)
      → IsKept r
      → ((g : Game) → IsInSync g → IsKept (f g))
      → IsKept (r >>= f)
  IsKept-then none f v k = _
  IsKept-then (some g) f v k = k g v

  pub handle_events-IsKept :
      (placeholder : List ℕ) (g : Game) (events : List (Event × Answers))
      → IsInSync g
      → IsKept (handle_events add placeholder g events)
  unfolding handle_events
  handle_events-IsKept placeholder g [] v = v
  handle_events-IsKept placeholder g ((event, answers) ∷ events) v =
      IsKept-then (handle_event add placeholder g answers event) _
        (handle_event-IsKept placeholder g answers event v)
        (λ g' v'. handle_events-IsKept placeholder g' events v')
