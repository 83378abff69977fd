-- ===== src/Memory.antt =====
-- The frame allocator of kernel/src/memory.rs. The memory map comes from the bootloader; a frame is
-- the address of its first byte.
pub mod Frames
mod Tests
use package.minecraft_os.Prelude.{
  ℕ, zero, suc, ◌+◌, ◌-◌, ◌*◌, ◌/◌, Bool, Option, none, some, List, [], ◌∷◌, ◌++◌, get_elem?,
  if◌then◌else◌,
}

-- `bootloader_api::info::MemoryRegion`, with whether its kind is `Usable`.
pub record MemoryRegion : Type 0 where
  pub start : ℕ
  pub end : ℕ
  pub usable : Bool

-- `n` numbers from `start` on, 4096 apart.
unfoldable pub steps : ℕ → ℕ → List ℕ
steps start zero = []
steps start (suc n) = start ∷ steps (start + 4096) n

-- `(start..end).step_by(4096)`
unfoldable pub step_by : ℕ → ℕ → List ℕ
step_by start end = steps start ((end - start + 4095) / 4096)

-- `PhysFrame::containing_address`
abbrev pub containing_address : ℕ → ℕ
containing_address addr = addr / 4096 * 4096

unfoldable pub frames_at : List ℕ → List ℕ
frames_at [] = []
frames_at (addr ∷ addrs) = containing_address addr ∷ frames_at addrs

unfoldable pub usable_frames : List MemoryRegion → List ℕ
usable_frames [] = []
usable_frames (r ∷ regions) =
    let rest = usable_frames regions in
    if r.usable then frames_at (step_by r.start r.end) ++ rest else rest

pub record BootInfoFrameAllocator : Type 0 where
  pub memory_map : List MemoryRegion
  pub next : ℕ

unfoldable pub init : List MemoryRegion → BootInfoFrameAllocator
init memory_map = record { memory_map = memory_map; next = 0 }

unfoldable pub allocate_frame : BootInfoFrameAllocator → BootInfoFrameAllocator × Option ℕ
allocate_frame a = (record a { next = a.next + 1 }, get_elem? (usable_frames a.memory_map) a.next)

-- A physical address in the direct mapping at `offset`.
unfoldable pub translate_addr : ℕ → ℕ → ℕ
translate_addr offset physical_address = offset + physical_address

-- A zeroed frame's two addresses; `none` where `expect` panics.
unfoldable pub alloc_phys_frame :
    ℕ → BootInfoFrameAllocator → BootInfoFrameAllocator × Option (ℕ × ℕ)
alloc_phys_frame offset a =
    let (a', frame) = allocate_frame a in
    (a', elim frame [ some phys ↦ some (translate_addr offset phys, phys) | none ↦ none ])
