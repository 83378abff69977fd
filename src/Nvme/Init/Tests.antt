-- ===== src/Nvme/Init/Tests.antt =====
-- A controller that is ready at once and answers each admin command with success.
use minecraft_os.Prelude.{ℕ, [], ◌∷◌, true}
use minecraft_os.Memory.{BootInfoFrameAllocator, translate_addr}
use minecraft_os.Pci.{PciDevice, read_bar_address}
use minecraft_os.Nvme.Queue.{Memory}
use minecraft_os.Nvme.Init.{Registers, init_device}
use minecraft_os.Nvme.Init.Handshake.{Post, IsAgreed, init_device-IsAgreed}

-- Nine frames.
abbrev frames : BootInfoFrameAllocator
frames = record {
  memory_map = record { start = 0x1000; end = 0xa000; usable = true } ∷ [];
  next = 0;
}

abbrev answers : ℕ → Memory
answers round address = record { dw0 = 0; dw1 = 0; sq_head = 1; sq_id = 0; cid = 0; status = 1 }

abbrev regs : ℕ → Registers
regs address = record {
  cap = 0;
  cc = 0;
  disabling = λ t. 0;
  enabling = λ t. 1;
  identified = answers;
  cq_created = answers;
  sq_created = answers;
}

abbrev dev : PciDevice
dev = record {
  bus = 0;
  device = 2;
  function = 0;
  vendor_id = 0x1b36;
  device_id = 0x0010;
  class = 1;
  subclass = 8;
  prog_if = 2;
  header_type = 0;
  bars = 0xfebf0004 ∷ 0 ∷ 0 ∷ 0 ∷ 0 ∷ 0 ∷ [];
  interrupt_line = 0;
  interrupt_pin = 0;
}

init_device-IsAgreed_example :
    let regs_virt = translate_addr 0x10_0000_0000 (read_bar_address dev 0) in
    Post
      (IsAgreed regs_virt (regs regs_virt))
      (init_device 0x10_0000_0000 (λ a. 0) frames regs dev).1
init_device-IsAgreed_example = init_device-IsAgreed 0x10_0000_0000 (λ a. 0) frames regs dev
