-- ===== src/Play/Saving.antt =====
-- What "save" and then "load" do to the game.
use minecraft_os.Prelude.{ℕ, ◌≡◌, refl, ap, ◌∙◌, some, List, replicate}
use mathlib.Core.Path.{ap₂}
use minecraft_os.Game.World.{World, IsWorld, AddSigned}
use minecraft_os.Game.Mesh.{get_world_mesh}
use minecraft_os.Game.Save.{Camera, IsCamera, serialize}
use minecraft_os.Game.Save.Layout.{length-serialize}
use minecraft_os.Game.Save.RoundTrip.{deserialize-serialize}
use minecraft_os.Storage
use minecraft_os.Storage.{
  Answers, Backend, Drives, StorageStatus, Transfer, read_sectors, write_sectors,
}
use minecraft_os.Storage.Disk.{Disk, disk_after, dma_of}
use minecraft_os.Storage.Kept.{IsAble, kept}
use minecraft_os.Play.Words.{trim, trim_start, trim_end, space_width, strip_prefix}
use minecraft_os.Play.{
  Game, loaded, save, save_at, finish_load, load, load_at, run_word, run_command, save_word,
  load_word,
}

module _ (add : AddSigned) where
  run_command-save :
      (g : Game) (answers : Answers)
      → run_command add g answers save_word ≡ save_at add g answers g.save_lba
  unfolding run_command run_word save trim trim_start trim_end space_width strip_prefix
  run_command-save g answers = refl

  run_command-load :
      (g : Game) (answers : Answers)
      → run_command add g answers load_word ≡ load_at add g answers g.save_lba
  unfolding run_command run_word load trim trim_start trim_end space_width strip_prefix
  run_command-load g answers = refl

  -- What a transfer that brings a saved game does.
  abbrev Restores : Game → World → Camera → Type 0
  Restores g world camera =
      (g.world ≡ world) × (g.camera ≡ camera) × (g.mesh ≡ get_world_mesh add world)

  finish_load-Restores :
      (g : Game) (world : World) (camera : Camera) (buffer : List ℕ) (status : StorageStatus)
      → IsWorld world
      → IsCamera camera
      → status ≡ Storage.ok
      → buffer ≡ serialize world camera
      → Restores (finish_load add g buffer status) world camera
  unfolding finish_load loaded
  finish_load-Restores g world camera buffer status hw hc e f =
      let path =
        ap₂ (finish_load add g) f e
        ∙ ap (loaded add g) (deserialize-serialize world camera hw hc) in
      (ap (λ h. h.world) path, ap (λ h. h.camera) path, ap (λ h. h.mesh) path)

  -- A game is saved, and later, with the same save address and the same drives and whatever became
  -- of the world meanwhile, "load" is typed. If the drive, NVMe or AHCI, completes a command for the
  -- save and one for the load without an error, with an address that fits its commands and a bounce
  -- buffer of one frame, and leaves in the bounce buffer for every command what this command, decoded,
  -- asks for of the disk as the commands that the drivers issued until then have changed it, then the
  -- world and the camera are those that were saved, for every world, every camera and every earlier
  -- content of the disk, and the mesh is that of this world.
  pub restored :
      (g g' : Game) (saved read : Answers) (lba : ℕ) (backend : Backend) (disk : Disk)
      → IsWorld g.world
      → IsCamera g.camera
      → g.save_lba ≡ some lba
      → g.backend ≡ some (some backend)
      → IsAble g.drives saved read lba backend
      → g'.save_lba ≡ some lba
      → g'.backend ≡ some (some backend)
      → g'.drives ≡ (run_command add g saved save_word).drives
      → read.dma ≡ dma_of (disk_after disk g'.drives.issued)
      → let r = run_command add g' read load_word in
        (r.world ≡ g.world) × (r.camera ≡ g.camera) × (r.mesh ≡ get_world_mesh add g.world)
  unfolding save_at load_at
  restored g g' saved read lba backend disk hw hc at on able at' on' same honest =
      let bytes = serialize g.world g.camera in
      let written = (write_sectors (some (some backend)) g.drives saved lba 2 bytes).drives in
      let stored : g'.drives ≡ written =
        same
        ∙ ap (λ h. h.drives) (run_command-save g saved ∙ ap (save_at add g saved) at)
        ∙ ap (λ b. (write_sectors b g.drives saved lba 2 bytes).drives) on in
      let v =
        kept g.drives saved read lba disk bytes backend (length-serialize g.world g.camera hw) able
          (honest ∙ ap (λ d. dma_of (disk_after disk d.issued)) stored) in
      let out : read_sectors g'.backend g'.drives read lba 2 (replicate 1024 0)
          ≡ read_sectors (some (some backend)) written read lba 2 (replicate 1024 0) =
        ap₂ (λ b d. read_sectors b d read lba 2 (replicate 1024 0)) on' stored in
      let typed = run_command-load g' read ∙ ap (load_at add g' read) at' in
      let (w, c, m) =
        finish_load-Restores _ g.world g.camera _ _ hw hc (ap (λ o. o.status) out ∙ v.read_back)
          (ap (λ o. o.buffer) out ∙ v.same_bytes) in
      (ap (λ h. h.world) typed ∙ w, ap (λ h. h.camera) typed ∙ c, ap (λ h. h.mesh) typed ∙ m)
