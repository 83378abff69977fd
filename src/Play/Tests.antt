-- ===== src/Play/Tests.antt =====
-- A game on an AHCI drive that answers at once.
use minecraft_os.Prelude.{ℕ, ◌≡◌, refl, arith, true, none, some, List, [], ◌∷◌, replicate}
use minecraft_os.Prelude.Int.{wrap64, pos, ◌+ℤ◌}
use minecraft_os.Console.{Console, new_console}
use minecraft_os.Game.World.{AddSigned, empty_world, initial_world}
use minecraft_os.Game.Mesh.{get_world_mesh, at}
use minecraft_os.Game.Save.{Camera}
use minecraft_os.Nvme.Regs.{NvmeCqe}
use minecraft_os.Ahci.Port as AhciSlot
use minecraft_os.Ahci.Port.{issue_command, wait_not_busy, poll_completion}
use minecraft_os.Ahci.Controller.{AhciPort}
use minecraft_os.Storage.{ahci, Drives, Answers, Command}
use minecraft_os.Storage.Disk.{Disk, disk_after, dma_of}
use minecraft_os.Storage.Kept.{by_ahci}
use minecraft_os.Play.{Game, Frame, targeted_block, new_game, run_command, save_word, load_word}
use minecraft_os.Play.Sync.{IsKept, initial_world-IsWorld}
use minecraft_os.Play.Rounds.{play_frames}
use minecraft_os.Play.Aim.{play_frames-IsLookingAhead}
use minecraft_os.Game.Voxel.Whole.{whole}
use minecraft_os.Play.Saving.{restored}

abbrev add : AddSigned
add b o = at (wrap64 (pos b.x +ℤ o.x)) (wrap64 (pos b.y +ℤ o.y)) (wrap64 (pos b.z +ℤ o.z))

abbrev port : AhciPort
port = record {
  port_index = 0;
  offset = 0x1000;
  cmd_list = 0x6000;
  cmd_table_virt = 0x6500;
  dma_buf = replicate 4096 0;
  dma_buf_virt = 0x8000;
  dma_buf_phys = 0x7000;
}

abbrev drives : Drives
drives = record { controller = none; port = some port; issued = [] }

abbrev camera : Camera
camera = record { px = 1; py = 2; pz = 3; yaw = 4; pitch = 5; v_fov = 6 }

abbrev console : Console
console = new_console []

-- The player looks along z, removes the block and puts one in front of it.
abbrev frame : Frame
frame = record {
  events = [];
  looked = λ c. c;
  moved = λ c. c;
  target = targeted_block whole;
  clicks = record { left = true; right = true };
}

play_frames-IsLookingAhead_example : IsKept add (
    play_frames add [] (new_game add console camera (some (some ahci)) drives) (frame ∷ frame ∷ []))
play_frames-IsLookingAhead_example =
    play_frames-IsLookingAhead whole add [] console camera (some (some ahci)) drives
      (frame ∷ frame ∷ []) (refl, (refl, tt))

abbrev at_once : AhciSlot.Answer
at_once = record { idle_tfd = λ t. 0x50; ci = λ t. 0; tfd = λ t. 0x50; final_tfd = 0x50 }

abbrev cqe : NvmeCqe
cqe = record { dw0 = 0; dw1 = 0; sq_head = 0; sq_id = 0; cid = 0; status = 0 }

abbrev answers : (Command → List ℕ) → Answers
answers dma = record { memories = λ t a. cqe; by_port = at_once; dma = dma }

abbrev saved_game : Game
saved_game = record (new_game add console camera (some (some ahci)) drives) { save_lba = some 7 }

-- Another world at the time of the load.
abbrev later : Game
later = record saved_game {
  world = empty_world;
  drives = (run_command add saved_game (answers (λ command. [])) save_word).drives;
}

at_once-ok : (issue_command at_once).1 ≡ AhciSlot.ok
unfolding issue_command wait_not_busy poll_completion
at_once-ok = refl

-- The disk was empty before.
abbrev empty_disk : Disk
empty_disk i = replicate 512 0

abbrev reading : Answers
reading = answers (dma_of (disk_after empty_disk later.drives.issued))

restored_example :
    let r = run_command add later reading load_word in
    (r.world ≡ initial_world) × (r.camera ≡ camera) × (r.mesh ≡ get_world_mesh add initial_world)
unfolding new_game
restored_example =
    restored add saved_game later (answers (λ command. [])) reading 7 ahci empty_disk
      initial_world-IsWorld (omega arith) refl refl
      (by_ahci port refl
        (record { table = omega arith; address = omega arith; frame = omega arith }) (omega arith)
        at_once-ok at_once-ok)
      refl refl refl refl
