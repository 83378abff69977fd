-- ===== src/Memory/Tests.antt =====
-- Two usable regions around a reserved one.
use minecraft_os.Prelude.{◌≡◌, arith, true, false, none, some, List, [], ◌∷◌, All}
use minecraft_os.Memory.{MemoryRegion, usable_frames, init, frames_at, step_by, steps}
use minecraft_os.Memory.Frames.{allocate_all, allocate_all_lem, IsUsable, IsApart}

abbrev regions : List MemoryRegion
regions =
    record { start = 0x1000; end = 0x3000; usable = true }
    ∷ record { start = 0x3000; end = 0x8000; usable = false }
    ∷ record { start = 0x9000; end = 0xa000; usable = true }
    ∷ []

-- Three frames, and then none.
allocate_all_example :
    (allocate_all 4 (init regions) ≡ some 0x1000 ∷ some 0x2000 ∷ some 0x9000 ∷ none ∷ [])
    × All (IsUsable regions) (usable_frames regions)
    × IsApart 0 (usable_frames regions)
unfolding usable_frames frames_at step_by steps
allocate_all_example = allocate_all_lem regions 4 (omega arith)
