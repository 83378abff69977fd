-- ===== src/Nvme/Init.antt =====
-- `init_inner` of kernel/src/nvme/mod.rs: the handshake with the controller, and the queues that it
-- creates. What the registers and the queues' memory read is an argument.
pub mod Handshake
pub mod Completes
mod Tests
use package.minecraft_os.Prelude.{
  ℕ, zero, suc, ◌+◌, ◌-◌, ◌*◌, ◌/◌, ◌%◌, ◌^◌, Bool, true, false, not, Option, none, some, List, [],
  ◌∷◌, ◌++◌, ◌==◌, if◌then◌else◌, bit_and, bit_or, replicate,
}
use package.minecraft_os.Memory.{BootInfoFrameAllocator, alloc_phys_frame, translate_addr}
use package.minecraft_os.Pci
use package.minecraft_os.Pci.{
  Space, PciDevice, find_by_class, read_bar_address, enable_bus_mastering,
}
use package.minecraft_os.Nvme.Regs.{
  NvmeSqe, NvmeCqe, default_sqe, set_opcode, status_code, cap_dstrd, cc_en, cc_css_nvm, cc_mps_4k,
  cc_iosqes_64, cc_iocqes_16, csts_rdy, admin_identify, admin_create_io_cq, admin_create_io_sq,
}
use package.minecraft_os.Nvme.Queue
use package.minecraft_os.Nvme.Queue.{
  Effect, SubmissionQueue, CompletionQueue, Memory, Waited, new_sq, new_cq, submit, wait,
}
use package.minecraft_os.Nvme.Controller.{NvmeController}

-- The registers behind BAR0 as the driver reads them: `CSTS` in each round of the two waits, and
-- the memory in each round of the waits for the three admin commands.
pub record Registers : Type 0 where
  pub cap : ℕ
  pub cc : ℕ
  pub disabling : ℕ → ℕ
  pub enabling : ℕ → ℕ
  pub identified : ℕ → Memory
  pub cq_created : ℕ → Memory
  pub sq_created : ℕ → Memory

pub data RegisterWrite : Type 0 where
  write_cc write_aqa write_asq write_acq : ℕ → RegisterWrite

abbrev pub queue_size : ℕ
queue_size = 16

unfoldable pub ready_rounds : ℕ → ℕ → (ℕ → ℕ) → ℕ → Bool
ready_rounds zero t csts target = false
ready_rounds (suc rounds) t csts target =
    let rest = ready_rounds rounds (t + 1) csts target in
    if bit_and (csts t) csts_rdy == target then true else rest

-- `false` is a timeout.
unfoldable pub wait_ready : (ℕ → ℕ) → Bool → Bool
wait_ready csts expected = ready_rounds 50_000_000 0 csts (if expected then csts_rdy else 0)

unfoldable pub disable : Registers → List RegisterWrite × Bool
disable regs =
    if bit_and regs.cc cc_en == 0
    then ([], true)
    else (write_cc (bit_and regs.cc (2 ^ 32 - 1 - cc_en)) ∷ [], wait_ready regs.disabling false)

unfoldable pub admin_queues : ℕ → ℕ → List RegisterWrite
admin_queues sq_phys cq_phys =
    let aqa = bit_or ((queue_size - 1) * 2 ^ 16) (queue_size - 1) in
    write_aqa aqa ∷ write_asq sq_phys ∷ write_acq cq_phys ∷ []

unfoldable pub enabled_cc : ℕ
enabled_cc = bit_or (bit_or (bit_or (bit_or cc_en cc_css_nvm) cc_mps_4k) cc_iosqes_64) cc_iocqes_16

unfoldable pub identify_command : ℕ → NvmeSqe
identify_command identify_phys =
    let cmd = set_opcode default_sqe admin_identify in
    record cmd { prp1 = identify_phys; cdw10 = 1 }

unfoldable pub create_cq_command : ℕ → NvmeSqe
create_cq_command io_cq_phys =
    let cmd = set_opcode default_sqe admin_create_io_cq in
    record cmd { prp1 = io_cq_phys; cdw10 = bit_or ((queue_size - 1) * 2 ^ 16) 1; cdw11 = 1 }

unfoldable pub create_sq_command : ℕ → NvmeSqe
create_sq_command io_sq_phys =
    let cmd = set_opcode default_sqe admin_create_io_sq in
    record cmd {
      prp1 = io_sq_phys;
      cdw10 = bit_or ((queue_size - 1) * 2 ^ 16) 1;
      cdw11 = bit_or (1 * 2 ^ 16) 1;
    }

-- A result, a `return None`, or the panic of `expect`.
pub data Init {ℓ} (A : Type ℓ) : Type ℓ where
  ok : A → Init A
  failed panicked : Init A

infixl 5 ◌>>=◌ ◌>>◌
abbrev pub ◌>>=◌ {ℓ κ} : {A : Type ℓ} {B : Type κ} → Init A → (A → Init B) → Init B
ok a >>= f = f a
failed >>= f = failed
panicked >>= f = panicked

abbrev pub ◌>>◌ {ℓ} : {B : Type ℓ} → Init (Unit {0}) → Init B → Init B
m >> k = m >>= λ _. k

abbrev pub guard : Bool → Init (Unit {0})
guard true = ok tt
guard false = failed

-- The frames that are left, and the two addresses of a frame.
abbrev pub Addresses : Type 0
Addresses = ℕ × ℕ

pub record Frame : Type 0 where
  pub left : BootInfoFrameAllocator
  pub addresses : Addresses

abbrev pub of_frame : BootInfoFrameAllocator → Option Addresses → Init Frame
of_frame left none = panicked
of_frame left (some addresses) = ok (record { left = left; addresses = addresses })

abbrev pub alloc : ℕ → BootInfoFrameAllocator → Init Frame
alloc offset frames =
    let (left, addresses) = alloc_phys_frame offset frames in of_frame left addresses

-- The admin queues, the commands that were submitted, and what was written for them.
pub record Admin : Type 0 where
  pub sq : SubmissionQueue
  pub cq : CompletionQueue
  pub commands : List NvmeSqe
  pub effects : List Effect

abbrev pub succeeded : Waited → Bool
succeeded Queue.timeout = false
succeeded (Queue.ok cqe) = status_code cqe == 0

-- Submit a command and wait for it; a timeout and an error status end the initialisation.
unfoldable pub admin_step : Admin → (ℕ → Memory) → NvmeSqe → Init Admin
admin_step admin memories cmd =
    let (sq, cid, submitted) = submit admin.sq cmd in
    let (cq, waited, completed) = wait memories admin.cq in
    guard (succeeded waited)
    >> ok (record {
      sq = sq;
      cq = cq;
      commands = admin.commands ++ (cmd ∷ []);
      effects = admin.effects ++ (submitted ++ completed);
    })

-- Four bytes shifted by `DSTRD`.
unfoldable pub doorbell_stride : ℕ → ℕ
doorbell_stride cap = 4 * 2 ^ cap_dstrd cap

unfoldable pub new_admin : ℕ → ℕ → Addresses → Addresses → Admin
new_admin regs_virt stride admin_sq admin_cq =
    let doorbell_base = regs_virt + 0x1000 in
    record {
      sq = new_sq admin_sq.0 admin_sq.1 queue_size doorbell_base;
      cq = new_cq admin_cq.0 admin_cq.1 queue_size (doorbell_base + stride);
      commands = [];
      effects = [];
    }

pub record Setup : Type 0 where
  pub controller : NvmeController
  pub admin : Admin
  pub register_writes : List RegisterWrite

-- The controller that is returned.
unfoldable pub new_controller : ℕ → ℕ → Addresses → Addresses → Addresses → NvmeController
new_controller regs_virt stride io_cq io_sq dma_buf =
    let doorbell_base = regs_virt + 0x1000 in
    record {
      io_sq = new_sq io_sq.0 io_sq.1 queue_size (doorbell_base + 2 * stride);
      io_cq = new_cq io_cq.0 io_cq.1 queue_size (doorbell_base + 3 * stride);
      dma_buf = replicate 4096 0;
      dma_buf_phys = dma_buf.1;
    }

-- Steps 1 to 9. The identification is only logged.
unfoldable pub bring_up : ℕ → BootInfoFrameAllocator → ℕ → Registers → Init Setup
bring_up offset frames regs_virt regs = do
  let (disables, disabled) = disable regs
  guard disabled
  admin_sq ← alloc offset frames
  admin_cq ← alloc offset admin_sq.left
  guard (wait_ready regs.enabling true)
  let stride = doorbell_stride regs.cap
  let fresh = new_admin regs_virt stride admin_sq.addresses admin_cq.addresses
  identify ← alloc offset admin_cq.left
  a ← admin_step fresh regs.identified (identify_command identify.addresses.1)
  io_cq ← alloc offset identify.left
  b ← admin_step a regs.cq_created (create_cq_command io_cq.addresses.1)
  io_sq ← alloc offset io_cq.left
  admin ← admin_step b regs.sq_created (create_sq_command io_sq.addresses.1)
  dma_buf ← alloc offset io_sq.left
  ok (record {
    controller = new_controller regs_virt stride io_cq.addresses io_sq.addresses dma_buf.addresses;
    admin = admin;
    register_writes =
        disables
        ++ (admin_queues admin_sq.addresses.1 admin_cq.addresses.1 ++ (write_cc enabled_cc ∷ []));
  })

-- `PciClass::MassStorage(MassStorageSubclass::NVMe).into()`
abbrev pub nvme_class : ℕ × ℕ
nvme_class = (0x01, 0x08)

-- The PCI writes and the result; `regs` gives the registers at an address.
unfoldable pub init_device :
    ℕ → Space → BootInfoFrameAllocator → (ℕ → Registers) → PciDevice → List Pci.Write × Init Setup
init_device offset space frames regs dev =
    let bar0_phys = read_bar_address dev 0 in
    let regs_virt = translate_addr offset bar0_phys in
    (
      enable_bus_mastering space dev,
      guard (not (bar0_phys == 0)) >> bring_up offset frames regs_virt (regs regs_virt),
    )

abbrev pub first_device :
    ℕ
    → Space
    → BootInfoFrameAllocator
    → (ℕ → Registers)
    → List PciDevice
    → List Pci.Write × Init Setup
first_device offset space frames regs [] = ([], failed)
first_device offset space frames regs (dev ∷ devs) = init_device offset space frames regs dev

unfoldable pub init_inner :
    ℕ
    → Space
    → BootInfoFrameAllocator
    → (ℕ → Registers)
    → List PciDevice
    → List Pci.Write × Init Setup
init_inner offset space frames regs devices =
    first_device offset space frames regs (find_by_class devices nvme_class.0 nvme_class.1)
