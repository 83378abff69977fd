-- ===== src/Storage.antt =====
-- kernel/src/storage.rs: the disk that `init` chose, and transfers through it. What the drives answer
-- is an argument.
pub mod Disk
pub mod Nvme
pub mod Ahci
pub mod Kept
use package.minecraft_os.Prelude.{ℕ, Option, none, some, List, ◌∷◌}
use package.minecraft_os.Nvme.Queue.{Effect, Memory}
use package.minecraft_os.Nvme.Controller as NvmeDriver
use package.minecraft_os.Nvme.Controller.{NvmeController, NvmeError}
use package.minecraft_os.Ahci.Port as AhciSlot
use package.minecraft_os.Ahci.Port.{AhciError, Run}
use package.minecraft_os.Ahci.Controller as AhciDriver
use package.minecraft_os.Ahci.Controller.{AhciPort}

pub data Backend : Type 0 where
  nvme ahci : Backend

pub data StorageError : Type 0 where
  ahci_error : AhciError → StorageError
  nvme_error : NvmeError → StorageError
  no_device : StorageError

pub data StorageStatus : Type 0 where
  ok : StorageStatus
  err : StorageError → StorageStatus

-- What a driver makes its drive do: the bounce buffer's address and contents as the command finds it,
-- and the writes to the queue, or the command slot as it was set up.
pub data Command : Type 0 where
  to_nvme : ℕ → List ℕ → List Effect → Command
  to_ahci : ℕ → List ℕ → Option Run → Command

-- What the initialisation of the two drivers left in their `Once` cells. `issued` is no variable of
-- the code: what the drives have been made to do, the last command first.
pub record Drives : Type 0 where
  pub controller : Option NvmeController
  pub port : Option AhciPort
  pub issued : List Command

-- How the drives answer: when they complete a command, and what it leaves in the bounce buffer.
pub record Answers : Type 0 where
  pub memories : ℕ → Memory
  pub by_port : AhciSlot.Answer
  pub dma : Command → List ℕ

unfoldable pub init : Drives → Option Backend
init drives = elim drives.controller [
  | some c ↦ some nvme
  | none ↦ elim drives.port [ some p ↦ some ahci | none ↦ none ]
]

abbrev pub of_nvme : NvmeDriver.Status → StorageStatus
of_nvme NvmeDriver.ok = ok
of_nvme (NvmeDriver.err e) = err (nvme_error e)

abbrev pub of_ahci : AhciSlot.Status → StorageStatus
of_ahci AhciSlot.ok = ok
of_ahci (AhciSlot.err e) = err (ahci_error e)

-- The drives, the caller's buffer and the result.
pub record Transfer : Type 0 where
  pub drives : Drives
  pub buffer : List ℕ
  pub status : StorageStatus

abbrev pub missing : Drives → List ℕ → StorageError → Transfer
missing drives buffer e = record { drives = drives; buffer = buffer; status = err e }

abbrev pub nvme_transfer : Drives → NvmeDriver.Outcome → Transfer
nvme_transfer drives out = record {
  drives = record drives {
    controller = some out.controller;
    issued = to_nvme out.controller.dma_buf_phys out.controller.dma_buf out.effects ∷ drives.issued;
  };
  buffer = out.buffer;
  status = of_nvme out.status;
}

abbrev pub ahci_transfer : Drives → AhciDriver.Outcome → Transfer
ahci_transfer drives out = record {
  drives = record drives {
    port = some out.port;
    issued = to_ahci out.port.dma_buf_phys out.port.dma_buf out.run ∷ drives.issued;
  };
  buffer = out.buffer;
  status = of_ahci out.status;
}

-- `nvme::with_controller` and `ahci::with_port` on what the drivers found.
unfoldable pub with_controller :
    Drives → List ℕ → (NvmeController → NvmeDriver.Outcome) → Option NvmeController → Transfer
with_controller drives buffer f none = missing drives buffer (nvme_error NvmeDriver.no_device)
with_controller drives buffer f (some c) = nvme_transfer drives (f c)

unfoldable pub with_port :
    Drives → List ℕ → (AhciPort → AhciDriver.Outcome) → Option AhciPort → Transfer
with_port drives buffer f none = missing drives buffer (ahci_error AhciSlot.no_device)
with_port drives buffer f (some p) = ahci_transfer drives (f p)

-- The answer to a command that leaves `dma`.
abbrev pub nvme_answer : Answers → List ℕ → NvmeDriver.Answer
nvme_answer answers dma = record { memories = answers.memories; dma = dma }

-- The command of a read, which does not depend on the bytes that it brings.
abbrev pub nvme_read_command : NvmeController → Answers → ℕ → ℕ → List ℕ → Command
nvme_read_command c answers lba count buffer =
    to_nvme c.dma_buf_phys c.dma_buf
      (NvmeDriver.read_sectors c (nvme_answer answers c.dma_buf) lba count buffer).effects

abbrev pub ahci_read_command : AhciPort → Answers → ℕ → ℕ → List ℕ → Command
ahci_read_command p answers lba count buffer =
    to_ahci p.dma_buf_phys p.dma_buf
      (AhciDriver.read_sectors p answers.by_port p.dma_buf lba count buffer).run

-- `backend` is what `BACKEND` holds, `none` before `init`.
unfoldable pub read_sectors : Option (Option Backend) → Drives → Answers → ℕ → ℕ → List ℕ → Transfer
read_sectors (some (some nvme)) drives answers lba count buffer =
    with_controller drives buffer
      (λ c.
        NvmeDriver.read_sectors c
          (nvme_answer answers (answers.dma (nvme_read_command c answers lba count buffer))) lba
          count buffer)
      drives.controller
read_sectors (some (some ahci)) drives answers lba count buffer =
    with_port drives buffer
      (λ p.
        AhciDriver.read_sectors p answers.by_port
          (answers.dma (ahci_read_command p answers lba count buffer)) lba count buffer)
      drives.port
read_sectors (some none) drives answers lba count buffer = missing drives buffer no_device
read_sectors none drives answers lba count buffer = missing drives buffer no_device

unfoldable pub write_sectors :
    Option (Option Backend) → Drives → Answers → ℕ → ℕ → List ℕ → Transfer
write_sectors (some (some nvme)) drives answers lba count buffer =
    with_controller drives buffer
      (λ c. NvmeDriver.write_sectors c (nvme_answer answers c.dma_buf) lba count buffer)
      drives.controller
write_sectors (some (some ahci)) drives answers lba count buffer =
    with_port drives buffer (λ p. AhciDriver.write_sectors p answers.by_port lba count buffer)
      drives.port
write_sectors (some none) drives answers lba count buffer = missing drives buffer no_device
write_sectors none drives answers lba count buffer = missing drives buffer no_device
