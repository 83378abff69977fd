-- ===== src/Ahci/Init.antt =====
-- `init_inner` of kernel/src/ahci/mod.rs, which looks for a drive. What the ports' registers read is
-- an argument.
pub mod Choice
use package.minecraft_os.Prelude.{
  ℕ, zero, suc, ◌+◌, ◌-◌, ◌*◌, ◌/◌, ◌%◌, ◌^◌, Bool, ◌||◌, ◌&&◌, not, Option, none, some, List, [],
  ◌∷◌, ◌++◌,
}
use package.minecraft_os.Prelude.{
  ltb, ◌==◌, if◌then◌else◌, length, take, get_or, replicate, write_at, bit_and, bit_or,
}
use package.minecraft_os.Memory.{BootInfoFrameAllocator, alloc_phys_frame, translate_addr}
use package.minecraft_os.Pci.{
  Space, Write, PciDevice, find_by_class, read_bar_address, enable_bus_mastering,
}
use package.minecraft_os.Ahci.Hba.{ghc_ae, sata_sig_ata}
use package.minecraft_os.Ahci.Port
use package.minecraft_os.Ahci.Port.{
  Answer, Issued, untouched, Slot, Run, Status, ok, err, buffer_too_small, no_device, identify,
}
use package.minecraft_os.Ahci.Engine.{
  Effect, write_clb, write_clbu, write_fb, write_fbu, write_serr, write_ghc, stop_port, start_port,
}
use package.minecraft_os.Ahci.Controller.{AhciPort}

-- One port's registers: `PxSSTS`, `PxSIG`, the reads of `PxCMD`, the answer to IDENTIFY and the
-- bytes that it leaves.
pub record Device : Type 0 where
  pub ssts : ℕ
  pub sig : ℕ
  pub cmd : ℕ → ℕ
  pub answer : Answer
  pub identified : List ℕ

-- A round of the loop over the ports: `continue`, `return Some`, or the panic of `expect`.
pub data Tried : Type 0 where
  skipped : Tried
  ready : AhciPort → Tried
  out_of_frames : Tried

-- The three `continue`s before the port is touched.
unfoldable pub is_candidate : ℕ → ℕ → Device → Bool
is_candidate pi i device =
    not (bit_and pi (2 ^ i) == 0) && (bit_and device.ssts 0xF == 3) && (device.sig == sata_sig_ata)

-- `CLB`, `FB` and `SERR` between stopping and starting the engine.
unfoldable pub bring_up : Device → ℕ → List Effect
bring_up device ctrl_phys =
    let (t, stops) = stop_port 0 device.cmd in
    let (t', starts) = start_port t device.cmd in
    let fis_phys = ctrl_phys + 0x400 in
    stops
    ++ (write_clb (ctrl_phys % 2 ^ 32)
        ∷ write_clbu (ctrl_phys / 2 ^ 32 % 2 ^ 32)
        ∷ write_fb (fis_phys % 2 ^ 32)
        ∷ write_fbu (fis_phys / 2 ^ 32 % 2 ^ 32)
        ∷ write_serr 0xFFFFFFFF
        ∷ starts)

abbrev pub keep_if_ok : Status → AhciPort → Tried
keep_if_ok ok port = ready port
keep_if_ok (err e) port = skipped

-- IDENTIFY with the frames of the control structures and of the bounce buffer.
unfoldable pub try_identify : ℕ → ℕ → Device → ℕ × ℕ → ℕ × ℕ → Tried
try_identify offset i device ctrl dma_buf =
    let cmd_table_virt = ctrl.0 + 0x500 in
    let (slot, ci_write, status) = identify offset cmd_table_virt device.answer dma_buf.1 in
    keep_if_ok status record {
      port_index = i;
      offset = offset;
      cmd_list = ctrl.0;
      cmd_table_virt = cmd_table_virt;
      dma_buf = device.identified;
      dma_buf_virt = dma_buf.0;
      dma_buf_phys = dma_buf.1;
    }

-- What a port that is a candidate comes to, by the frames it gets.
abbrev pub with_frames : ℕ → ℕ → Device → Option (ℕ × ℕ) → Option (ℕ × ℕ) → Tried × List Effect
with_frames offset i device (some ctrl) (some dma_buf) =
    (try_identify offset i device ctrl dma_buf, bring_up device ctrl.1)
with_frames offset i device (some ctrl) none = (out_of_frames, bring_up device ctrl.1)
with_frames offset i device none dma_buf = (out_of_frames, (stop_port 0 device.cmd).1)

abbrev pub Frames : Type 0
Frames = BootInfoFrameAllocator

unfoldable pub try_port : ℕ → ℕ → ℕ → Device → Frames → Frames × Tried × List Effect
try_port offset pi i device frames =
    let (frames', ctrl) = alloc_phys_frame offset frames in
    let (frames'', dma_buf) = alloc_phys_frame offset frames' in
    let (tried, effects) = with_frames offset i device ctrl dma_buf in
    if is_candidate pi i device then (frames'', tried, effects) else (frames, skipped, [])

pub data Found : Type 0 where
  found : AhciPort → Found
  not_found : Found
  panicked : Found

abbrev pub after : Tried → Found → Found
after skipped rest = rest
after (ready port) rest = found port
after out_of_frames rest = panicked

-- The loop over the ports, from `i` on.
unfoldable pub try_ports : ℕ → ℕ → ℕ → ℕ → (ℕ → Device) → Frames → Found
try_ports offset pi i zero devices frames = not_found
try_ports offset pi i (suc n) devices frames =
    let (frames', tried, effects) = try_port offset pi i (devices i) frames in
    let rest = try_ports offset pi (i + 1) n devices frames' in after tried rest

-- The registers behind `ABAR`.
pub record Hba : Type 0 where
  pub ghc : ℕ
  pub pi : ℕ
  pub ports : ℕ → Device

-- `PciClass::MassStorage(MassStorageSubclass::SATA).into()`
abbrev pub sata_class : ℕ × ℕ
sata_class = (0x01, 0x06)

-- The PCI writes, the write to `GHC`, and what was found. `hba` gives the registers at an address.
unfoldable pub init_device :
    ℕ → Space → (ℕ → Hba) → Frames → PciDevice → List Write × List Effect × Found
init_device offset space hba frames dev =
    let mastering = enable_bus_mastering space dev in
    let abar_phys = read_bar_address dev 5 in
    let regs = hba (translate_addr offset abar_phys) in
    if abar_phys == 0 then (mastering, [], not_found) else (
      mastering,
      write_ghc (bit_or regs.ghc ghc_ae) ∷ [],
      try_ports offset regs.pi 0 32 regs.ports frames,
    )

abbrev pub first_device :
    ℕ → Space → (ℕ → Hba) → Frames → List PciDevice → List Write × List Effect × Found
first_device offset space hba frames [] = ([], [], not_found)
first_device offset space hba frames (dev ∷ devs) = init_device offset space hba frames dev

unfoldable pub init_inner :
    ℕ → Space → (ℕ → Hba) → Frames → List PciDevice → List Write × List Effect × Found
init_inner offset space hba frames devices =
    first_device offset space hba frames (find_by_class devices sata_class.0 sata_class.1)

-- The characters of the words of an IDENTIFY field, each word's second byte first.
unfoldable pub ata_words : List ℕ → ℕ → ℕ → List ℕ
ata_words identify word zero = []
ata_words identify word (suc n) =
    let rest = ata_words identify (word + 1) n in
    let offset = word * 2 in
    if ltb (offset + 1) 512
    then get_or identify (offset + 1) 0 ∷ get_or identify offset 0 ∷ rest
    else rest

unfoldable pub extract_ata_string : List ℕ → ℕ → ℕ → List ℕ
extract_ata_string identify word_start word_end =
    ata_words identify word_start (word_end + 1 - word_start)
