-- ===== src/Lib.antt =====
-- A model of minecraft-os, a kernel that boots into a small block world and keeps it on a disk.
--
-- Files and the parts of the program that they model (paths from the repository's root):
--
--   Prelude            names from the libraries, Boolean tests, lists, bit fields of words, signed words
--   Game.World         kernel-core/src/game/world.rs: the array of blocks, `empty_world`
--   Game.Save          kernel-core/src/game/save.rs: `serialize`, `deserialize` and their loops
--   Game.Mesh          kernel-core/src/game/world.rs: `get_world_mesh`, with the faces of game/mod.rs
--   Game.Voxel         kernel-core/src/game/camera.rs: `VoxelTraverser`, `looking_at_solid_block`
--   Nvme.Regs          kernel/src/nvme/regs.rs: queue entries and their bit fields
--   Nvme.Queue         kernel/src/nvme/queue.rs: `submit`, `poll`, `wait`
--   Nvme.Controller    kernel/src/nvme/mod.rs: `read_sectors`, `write_sectors`
--   Ahci.Hba           kernel/src/ahci/hba.rs: the structures in memory and the register bits
--   Ahci.Port          kernel/src/ahci/port.rs: a command on slot 0, `issue_command`, `setup_command`
--   Ahci.Engine        kernel/src/ahci/mod.rs: `wait_cr`, `stop_port`, `start_port`
--   Ahci.Controller    kernel/src/ahci/mod.rs: `AhciPort::read_sectors`, `write_sectors`
--   Ahci.Init          kernel/src/ahci/mod.rs: `init_inner`, which takes the first usable port
--   Storage            kernel/src/storage.rs: the choice of the disk and transfers through it
--   Storage.Disk       no code: a disk that does what the commands, decoded, ask for
--   Play               kernel/src/main.rs: the main loop's keys, commands and clicks
--   Play.Words         what the commands use of `str`: `trim`, `strip_prefix`, `parse`
--   Nvme.Init          kernel/src/nvme/mod.rs: `init_inner`, which creates the queues
--   Pci                kernel/src/pci.rs: configuration words, the scan of the buses, base addresses
--   Ps2.Mouse          kernel/src/ps2/mouse.rs: bytes to packets, motion and clicks
--   Ps2.Keyboard       kernel/src/ps2/keyboard.rs: identification, pressed keys, the ring of events
--   Ps2.Config         kernel/src/ps2/mod.rs: the configuration byte
--   Ps2.Controller     kernel/src/ps2/mod.rs: commands and replies
--   Ps2.Init           kernel/src/ps2/mod.rs: `init`, `init_keyboard`, `init_mouse`
--   Memory             kernel/src/memory.rs: the allocation of physical frames
--   Console            kernel/src/console.rs: the line editor
--   Rendering.Color    kernel-core/src/rendering/color.rs: channels and the hexadecimal text
--   Rendering.Fill     kernel-core/src/rendering/renderer.rs: `fill_slice_48`
--   Rendering.Rectangle  kernel-core/src/rendering/renderer.rs: `Rectangle`
--   Rendering.Renderer kernel-core/src/rendering/renderer.rs: pixels, `fill_solid`, `clear`
--   Rendering.Parser   kernel-core/src/rendering/text_box.rs: `Parser`
--   Rendering.TextBox  kernel-core/src/rendering/text_box.rs: the layout into visual lines
--   Rendering.GlyphCache  kernel-core/src/rendering/text_box.rs: `get_raster`
--   Rendering.Panel    kernel-core/src/rendering/text_box.rs: `TextBox` with scrolling and `render`
--   Rendering.Line     kernel-core/src/rendering/renderer.rs: `Renderer3d::fill_line_thin`
--   Rendering.Clip     kernel-core/src/rendering/geometry.rs: the overlap of a polygon with a rectangle
--   Logger             kernel/src/logger.rs: what is logged, and when it is drawn
--
-- How they interact: the main loop of Play takes keys, motion and clicks from Ps2, saves the world of
-- Game through Storage on a disk driver (Nvme or Ahci, which Pci finds), rebuilds the mesh, and writes
-- text through the parser into the text box. Keys go to the console's line editor first. A click
-- changes the block that Game.Voxel finds ahead of the camera. The logger writes into a text box and
-- draws it on its own or with a frame of the main loop. A file's child modules hold its theorems, and
-- Tests the runs on concrete inputs.
--
-- State and effects: `&mut self` is a record that a function takes and returns. A volatile or port
-- write is a value that the function returns, in program order. A volatile or port read takes what the
-- device holds at that moment, as a function that is an argument: completion memories for each round
-- of `wait`, the configuration word for each address, the registers in each round of a poll, the bytes
-- that the PS/2 controller still sends. Machine words are natural numbers with the wrap-around of a
-- release build written out; an `f32` is its 32 bits. A panic is `none`.
--
-- Bounds: `wait` polls 500 000 000 times, `issue_command` reads the task file up to 1 000 001 times
-- and then polls up to 50 000 001 rounds, `wait_cr` 1 000 000, `wait_ready` 50 000 000, as the source
-- does; `search_ray` takes one step more than the dimensions of the world together and one for the
-- start; `draw_points` takes the fuel that its caller gives, more than the longer side of the line;
-- every other modelled loop is a structural recursion. `poll_all`, which is not code, takes as much
-- fuel as its theorem asks for.
--
-- Parameters: the movement of the camera, the arithmetic of `f32` and the vector operations of a ray,
-- of depths and of polygons, the hash map (hashbrown), the vector library's wrapping addition with its
-- documented law, the scancode decoder (pc_keyboard), the bounded deque (heapless) with its documented
-- laws, the metrics and bitmaps of the font (fontdue), the situation in which the logger is called:
-- its locks and the interrupt flag.
--
-- Not modelled: the movement of the camera, projection and the rasterisation of triangles, which are
-- floating point; ACPI, timers, page tables, interrupt tables and build tools.
pub mod Prelude
pub mod Ahci
pub mod Console
pub mod Game
pub mod Logger
pub mod Memory
pub mod Nvme
pub mod Pci
pub mod Play
pub mod Ps2
pub mod Rendering
pub mod Storage
