-- ===== src/Ahci/Init/Choice.antt =====
-- Which port `init_inner` takes.
use minecraft_os.Prelude.{
  ℕ, zero, suc, ◌+◌, ◌*◌, ◌≤◌, ◌<◌, ◌≡◌, refl, arith, Bool, true, false, inl, inr, Bool-cases, ◌∷◌,
  ◌==◌, ◌&&◌, some, List, length, get_elem?-eq-get_or, get_or,
}
use minecraft_os.Memory.{alloc_phys_frame, allocate_frame, usable_frames, translate_addr}
use minecraft_os.Pci.{Space, PciDevice, find_by_class, read_bar_address}
use minecraft_os.Ahci.Port.{Status, ok, err, issue_command, identify}
use minecraft_os.Ahci.Port.Issue.{at_or_after}
use minecraft_os.Ahci.Controller.{AhciPort}
use minecraft_os.Ahci.Init.{
  Device, Frames, Tried, skipped, ready, is_candidate, try_port, try_ports, try_identify,
  keep_if_ok, Found, found, not_found, after, Hba, init_inner, init_device,
}

abbrev pub succeeds : Status → Bool
succeeds ok = true
succeeds (err e) = false

-- The port is implemented, a SATA disk is connected to it, and it answers IDENTIFY.
abbrev pub is_usable : ℕ → (ℕ → Device) → ℕ → Bool
is_usable pi devices i =
    is_candidate pi i (devices i) && succeeds (issue_command (devices i).answer).1

-- Enough frames are left for `n` ports.
abbrev pub HasFrames : Frames → ℕ → Type 0
HasFrames frames n = frames.next + 2 * n ≤ length (usable_frames frames.memory_map)

-- Which of the ports from `i` to before 32 a search finds.
pub data Chooses (pi : ℕ) (devices : ℕ → Device) (i end : ℕ) : Found → Type 0 where
  first :
      (k : ℕ) (port : AhciPort)
      → i ≤ k
      → k < end
      → port.port_index ≡ k
      → is_usable pi devices k ≡ true
      → ((j : ℕ) → i ≤ j → j < k → is_usable pi devices j ≡ false)
      → Chooses pi devices i end (found port)
  nowhere :
      ((j : ℕ) → i ≤ j → j < end → is_usable pi devices j ≡ false)
      → Chooses pi devices i end not_found

alloc_frame :
    (offset : ℕ) (frames : Frames)
    → frames.next < length (usable_frames frames.memory_map)
    → (addresses : ℕ × ℕ) × (alloc_phys_frame offset frames
        ≡ (record frames { next = frames.next + 1 }, some addresses))
unfolding alloc_phys_frame allocate_frame
alloc_frame offset frames h =
    let e = get_elem?-eq-get_or (usable_frames frames.memory_map) frames.next 0 h in
    (
      (
        translate_addr offset (get_or (usable_frames frames.memory_map) frames.next 0),
        get_or (usable_frames frames.memory_map) frames.next 0,
      ),
      rw e refl,
    )

-- What a round leaves behind.
pub data Round (i : ℕ) (usable : Bool) (frames : Frames) : Frames → Tried → Type 0 where
  passed :
      (frames' : Frames)
      → usable ≡ false
      → frames'.memory_map ≡ frames.memory_map
      → frames'.next ≤ frames.next + 2
      → Round i usable frames frames' skipped
  taken :
      (frames' : Frames) (port : AhciPort)
      → usable ≡ true
      → port.port_index ≡ i
      → Round i usable frames frames' (ready port)

try_port-Round :
    (offset pi i : ℕ) (devices : ℕ → Device) (frames : Frames)
    → HasFrames frames 1
    → let (frames', tried, effects) = try_port offset pi i (devices i) frames in
      Round i (is_usable pi devices i) frames frames' tried
unfolding try_port try_identify identify
try_port-Round offset pi i devices frames h =
    let (a, e) = alloc_frame offset frames (omega arith) in
    let (b, f) = alloc_frame offset (record frames { next = frames.next + 1 }) (omega arith) in
    elim (Bool-cases (is_candidate pi i (devices i))) [
      | inr c ↦ rw (e, f, c) (passed frames refl refl (omega arith))
      | inl c ↦ rw (e, f, c) (by_status _ refl (issue_command (devices i).answer).1)
    ]
  where
    by_status :
        (port : AhciPort)
        → port.port_index ≡ i
        → (status : Status)
        → Round i
            (succeeds status)
            frames
            (record frames { next = frames.next + 1 + 1 })
            (keep_if_ok status port)
    by_status port e ok = taken _ port refl e
    by_status port e (err x) = passed _ refl refl (omega arith)

here_or_later :
    (pi : ℕ) (devices : ℕ → Device) (i j : ℕ)
    → is_usable pi devices i ≡ false
    → i ≤ j
    → (i + 1 ≤ j → is_usable pi devices j ≡ false)
    → is_usable pi devices j ≡ false
here_or_later pi devices i j u l k = elim (at_or_after i j l) [
  | inl same ↦ rw (← same) u
  | inr later ↦ k later
]

Chooses-later :
    (pi : ℕ) (devices : ℕ → Device) (i end : ℕ) (result : Found)
    → is_usable pi devices i ≡ false
    → Chooses pi devices (i + 1) end result
    → Chooses pi devices i end result
Chooses-later pi devices i end _ u (first k port lo hi at usable before) =
    first k port (omega arith) hi at usable
      (λ j l h. here_or_later pi devices i j u l (λ l'. before j l' h))
Chooses-later pi devices i end _ u (nowhere all) =
    nowhere (λ j l h. here_or_later pi devices i j u l (λ l'. all j l' h))

after_round :
    (pi : ℕ) (devices : ℕ → Device) (i n : ℕ) (frames frames' : Frames) (tried : Tried)
    (rest : Found)
    → Round i (is_usable pi devices i) frames frames' tried
    → HasFrames frames (suc n)
    → (HasFrames frames' n → Chooses pi devices (i + 1) (i + 1 + n) rest)
    → Chooses pi devices i (i + 1 + n) (after tried rest)
after_round pi devices i n frames frames' _ rest (passed _ u same few) h k =
    Chooses-later pi devices i (i + 1 + n) rest u (k (rw same (omega arith)))
after_round pi devices i n frames frames' _ rest (taken _ port u at) h k =
    first i port (omega arith) (omega arith) at u (λ j l h'. absurd (omega arith))

try_ports-Chooses :
    (offset pi i n : ℕ) (devices : ℕ → Device) (frames : Frames)
    → HasFrames frames n
    → Chooses pi devices i (i + n) (try_ports offset pi i n devices frames)
unfolding try_ports
try_ports-Chooses offset pi i zero devices frames h = nowhere (λ j l k. absurd (omega arith))
try_ports-Chooses offset pi i (suc n) devices frames h =
    let (frames', tried, effects) = try_port offset pi i (devices i) frames in
    let e : i + suc n ≡ i + 1 + n = omega arith in
    rw e (
      after_round pi devices i n frames frames' tried _
        (try_port-Round offset pi i devices frames (omega arith)) h
        (λ h'. try_ports-Chooses offset pi (i + 1) n devices frames' h'))

-- If the PCI bus has a SATA controller, the first one has a base address in BAR5, and there are
-- frames for 32 ports, then `init_inner` takes the lowest of its 32 ports that is implemented, has
-- a SATA disk and answers IDENTIFY, and finds nothing if there is none.
pub init_inner-Chooses :
    (offset : ℕ) (space : Space) (hba : ℕ → Hba) (frames : Frames) (devices : List PciDevice)
    (dev : PciDevice) (others : List PciDevice)
    → find_by_class devices 0x01 0x06 ≡ dev ∷ others
    → (read_bar_address dev 5 == 0) ≡ false
    → HasFrames frames 32
    → let regs = hba (offset + read_bar_address dev 5) in
      Chooses regs.pi regs.ports 0 32 (init_inner offset space hba frames devices).2
unfolding init_inner init_device translate_addr
init_inner-Chooses offset space hba frames devices dev others e b h =
    let regs = hba (offset + read_bar_address dev 5) in
    rw (e, b) (try_ports-Chooses offset regs.pi 0 32 regs.ports frames h)
