-- ===== src/Memory/Frames.antt =====
-- What a run of allocations hands out.
use minecraft_os.Prelude.{All-append, All-map}
use minecraft_os.Prelude.{
  ℕ, zero, suc, ◌+◌, ◌-◌, ◌*◌, ◌/◌, ◌%◌, ◌≤◌, ◌≡◌, ◌⊎◌, inl, inr, refl, ap, arith, true, false,
  Option, List, [], ◌∷◌, ◌++◌, get_elem?, All, Bool-cases,
}
use minecraft_os.Memory.{
  MemoryRegion, steps, step_by, containing_address, frames_at, usable_frames,
  BootInfoFrameAllocator, init, allocate_frame,
}

unfoldable pub allocate_all : ℕ → BootInfoFrameAllocator → List (Option ℕ)
allocate_all zero a = []
allocate_all (suc n) a = let (a', frame) = allocate_frame a in frame ∷ allocate_all n a'

-- Regions as the bootloader reports them: aligned to frames, in order and apart, from `low` on.
abbrev pub IsMap : ℕ → List MemoryRegion → Type 0
IsMap low [] = 0 ≤ low
IsMap low (r ∷ regions) =
    (low ≤ r.start)
    × (r.start ≤ r.end)
    × (r.start % 4096 ≡ 0)
    × (r.end % 4096 ≡ 0)
    × IsMap r.end regions

-- A frame lies within a region that may be used.
abbrev pub IsUsable : List MemoryRegion → ℕ → Type 0
IsUsable [] frame = 1 ≤ 0
IsUsable (r ∷ regions) frame =
    ((r.usable ≡ true) × (r.start ≤ frame) × (frame + 4096 ≤ r.end)) ⊎ IsUsable regions frame

-- Each frame is at least a frame's length above the one before it, so no two overlap.
abbrev pub IsApart : ℕ → List ℕ → Type 0
IsApart low [] = 0 ≤ low
IsApart low (frame ∷ frames) = (low ≤ frame) × IsApart (frame + 4096) frames

-- Frame `k` of the list, for `k` from `n` on.
abbrev pub taken : List ℕ → ℕ → ℕ → List (Option ℕ)
taken frames n zero = []
taken frames n (suc k) = get_elem? frames n ∷ taken frames (n + 1) k

IsApart-weaken : (low mid : ℕ) (xs : List ℕ) → low ≤ mid → IsApart mid xs → IsApart low xs
IsApart-weaken low mid [] l h = omega arith
IsApart-weaken low mid (x ∷ xs) l h = (omega (arith, h.0), h.1)

IsApart-append :
    (low mid : ℕ) (xs ys : List ℕ)
    → IsApart low xs
    → All (λ x. x + 4096 ≤ mid) xs
    → low ≤ mid
    → IsApart mid ys
    → IsApart low (xs ++ ys)
IsApart-append low mid [] ys h a l k = IsApart-weaken low mid ys l k
IsApart-append low mid (x ∷ xs) ys h a l k =
    (h.0, IsApart-append (x + 4096) mid xs ys h.1 a.1 a.0 k)

-- The frames of one region, from an aligned address on.
steps-IsApart : (n start : ℕ) → start % 4096 ≡ 0 → IsApart start (frames_at (steps start n))
unfolding frames_at steps
steps-IsApart zero start h = omega arith
steps-IsApart (suc n) start h =
    let e : containing_address start ≡ start = omega arith in
    (omega arith, rw e (steps-IsApart n (start + 4096) (omega arith)))

steps-within :
    (n start low end : ℕ)
    → start % 4096 ≡ 0
    → low ≤ start
    → start + n * 4096 ≤ end
    → All (λ x. (low ≤ x) × (x + 4096 ≤ end)) (frames_at (steps start n))
unfolding frames_at steps
steps-within zero start low end h l k = _
steps-within (suc n) start low end h l k = (
  (omega arith, omega arith),
  steps-within n (start + 4096) low end (omega arith) (omega arith) (omega arith),
)

region_within :
    (start end : ℕ)
    → start ≤ end
    → start % 4096 ≡ 0
    → end % 4096 ≡ 0
    → All (λ x. (start ≤ x) × (x + 4096 ≤ end)) (frames_at (step_by start end))
unfolding step_by
region_within start end h a b =
    steps-within ((end - start + 4095) / 4096) start start end a (omega arith) (omega arith)

usable_frames-IsApart :
    (regions : List MemoryRegion) (low : ℕ)
    → IsMap low regions
    → IsApart low (usable_frames regions)
unfolding usable_frames step_by
usable_frames-IsApart [] low h = omega arith
usable_frames-IsApart (r ∷ regions) low (l, le, a, b, h) =
    let ih = usable_frames-IsApart regions r.end h in
    elim (Bool-cases r.usable) [
      | inl u ↦ rw u (
          IsApart-append low r.end (frames_at (step_by r.start r.end)) (usable_frames regions)
            (IsApart-weaken low r.start _ l
              (steps-IsApart ((r.end - r.start + 4095) / 4096) r.start a))
            (All-map (λ x. (r.start ≤ x) × (x + 4096 ≤ r.end)) (λ x. x + 4096 ≤ r.end)
              (frames_at (step_by r.start r.end)) (λ x p. p.1) (region_within r.start r.end le a b))
            (omega arith) ih)
      | inr u ↦ rw u (IsApart-weaken low r.end (usable_frames regions) (omega arith) ih)
    ]

usable_frames-usable :
    (r : MemoryRegion) (regions : List MemoryRegion)
    → r.usable ≡ true
    → usable_frames (r ∷ regions) ≡ frames_at (step_by r.start r.end) ++ usable_frames regions
unfolding usable_frames
usable_frames-usable r regions u = rw u refl

usable_frames-reserved :
    (r : MemoryRegion) (regions : List MemoryRegion)
    → r.usable ≡ false
    → usable_frames (r ∷ regions) ≡ usable_frames regions
unfolding usable_frames
usable_frames-reserved r regions u = rw u refl

usable_frames-IsUsable :
    (regions : List MemoryRegion) (low : ℕ)
    → IsMap low regions
    → All (IsUsable regions) (usable_frames regions)
usable_frames-IsUsable [] low h = unfold usable_frames in _
usable_frames-IsUsable (r ∷ regions) low (l, le, a, b, h) =
    let ih =
      All-map (IsUsable regions) (IsUsable (r ∷ regions)) (usable_frames regions) (λ x p. inr p)
        (usable_frames-IsUsable regions r.end h) in
    elim (Bool-cases r.usable) [
      | inl u ↦ rw (usable_frames-usable r regions u) (
          All-append (IsUsable (r ∷ regions)) (frames_at (step_by r.start r.end))
            (usable_frames regions)
            (All-map (λ x. (r.start ≤ x) × (x + 4096 ≤ r.end)) (IsUsable (r ∷ regions))
              (frames_at (step_by r.start r.end)) (λ x p. inl (u, p.0, p.1))
              (region_within r.start r.end le a b))
            ih)
      | inr u ↦ rw (usable_frames-reserved r regions u) ih
    ]

allocate_all-taken :
    (n k : ℕ) (regions : List MemoryRegion)
    → allocate_all n (record { memory_map = regions; next = k }) ≡ taken (usable_frames regions) k n
unfolding allocate_all allocate_frame
allocate_all-taken zero k regions = refl
allocate_all-taken (suc n) k regions =
    ap (λ l. get_elem? (usable_frames regions) k ∷ l) (allocate_all-taken n (k + 1) regions)

-- On a map of regions that are aligned to frames, in order and apart: the allocations, one after
-- the other, hand out one list of frames from its beginning, and fail behind its end; each of its
-- frames lies within a usable region, and no two of them overlap.
pub allocate_all_lem :
    (regions : List MemoryRegion) (n : ℕ)
    → IsMap 0 regions
    → (allocate_all n (init regions) ≡ taken (usable_frames regions) 0 n)
      × All (IsUsable regions) (usable_frames regions)
      × IsApart 0 (usable_frames regions)
unfolding init
allocate_all_lem regions n h = (
  allocate_all-taken n 0 regions,
  usable_frames-IsUsable regions 0 h,
  usable_frames-IsApart regions 0 h,
)
