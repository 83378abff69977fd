-- ===== src/Ahci/Tests.antt =====
-- A port that answers at once, and a controller whose port 2 has a disk.
use minecraft_os.Prelude.{
  ℕ, ◌+◌, ◌≤◌, ◌≡◌, refl, arith, true, false, ◌==◌, if◌then◌else◌, List, [], ◌∷◌, ◌++◌, replicate,
  take, drop, length,
}
use minecraft_os.Memory
use minecraft_os.Pci.{Space, PciDevice, read_bar_address, find_by_class}
use minecraft_os.Memory.{usable_frames}
use minecraft_os.Ahci.Hba.{ata_cmd_read_dma_ext, ata_cmd_write_dma_ext}
use minecraft_os.Ahci.Port.{Answer, ok, err, issue_command}
use minecraft_os.Ahci.Port.Issue.{Issues, issue_command-Issues}
use minecraft_os.Ahci.Controller.{AhciPort, read_sectors, write_sectors}
use minecraft_os.Ahci.Init.{Device, Hba, Frames, init_inner}
use minecraft_os.Ahci.Controller.Transfers.{IsRequested, transfer, transferred}
use minecraft_os.Ahci.Init.Choice.{Chooses, init_inner-Chooses}

abbrev answer : Answer
answer = record { idle_tfd = λ t. 0x50; ci = λ t. 0; tfd = λ t. 0x50; final_tfd = 0x50 }

issue_command-Issues_example : Issues answer (issue_command answer)
issue_command-Issues_example = issue_command-Issues answer

abbrev port : AhciPort
port = record {
  port_index = 2;
  offset = 0x1000;
  cmd_list = 0x6000;
  cmd_table_virt = 0x6500;
  dma_buf = replicate 4096 0;
  dma_buf_virt = 0x8000;
  dma_buf_phys = 0x7000;
}

transferred_example :
    let buffer : List ℕ = replicate 600 1 in
    let dma : List ℕ = replicate 4096 7 in
    let r = read_sectors port answer dma 8 1 buffer in
    let w = write_sectors port answer 8 1 buffer in
    let status = (issue_command answer).1 in
    (r.status ≡ status)
    × (r.buffer ≡ elim status [ ok ↦ take 512 dma ++ drop 512 buffer | err e ↦ buffer ])
    × IsRequested answer (transfer port false ata_cmd_read_dma_ext 8 1) r.run
    × (w.status ≡ status)
    × (w.port.dma_buf ≡ take 512 buffer ++ drop 512 port.dma_buf)
    × (w.buffer ≡ buffer)
    × IsRequested answer (transfer port true ata_cmd_write_dma_ext 8 1) w.run
transferred_example =
    transferred port answer 8 1 (replicate 600 1) (replicate 4096 7) (omega arith) (omega arith)
      (omega arith) (omega arith) (omega arith) (omega arith) (omega arith) (omega arith)

-- Port 0 is not connected, port 1 is a CD drive, and port 2 a disk.
abbrev device : ℕ → Device
device i = record {
  ssts = if i == 0 then 0 else 0x123;
  sig = if i == 2 then 0x101 else 0xEB140101;
  cmd = λ t. 0;
  answer = answer;
  identified = replicate 4096 0;
}

abbrev hba : ℕ → Hba
hba a = record { ghc = 0; pi = 7; ports = device }

abbrev sata : PciDevice
sata = record {
  bus = 0;
  device = 31;
  function = 2;
  vendor_id = 0x8086;
  device_id = 0x2922;
  class = 1;
  subclass = 6;
  prog_if = 1;
  header_type = 0;
  bars = 0 ∷ 0 ∷ 0 ∷ 0 ∷ 0 ∷ 0xfebd5000 ∷ [];
  interrupt_line = 0;
  interrupt_pin = 0;
}

abbrev frames : Frames
frames = record {
  memory_map = record { start = 0x100000; end = 0x140000; usable = true } ∷ [];
  next = 0;
}

abbrev space : Space
space a = 0

init_inner-Chooses_example :
    let regs = hba (0x1000 + read_bar_address sata 5) in
    Chooses regs.pi regs.ports 0 32 (init_inner 0x1000 space hba frames (sata ∷ [])).2
unfolding usable_frames Memory.frames_at Memory.step_by Memory.steps find_by_class read_bar_address
init_inner-Chooses_example =
    init_inner-Chooses 0x1000 space hba frames (sata ∷ []) sata [] refl refl enough
  where
    enough : 64 ≤ length (usable_frames frames.memory_map)
    enough = omega arith
