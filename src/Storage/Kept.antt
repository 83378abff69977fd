-- ===== src/Storage/Kept.antt =====
-- Two sectors that were written are read back, with either backend.
use minecraft_os.Prelude.{ℕ, ◌^◌, ◌<◌, ◌≡◌, ap, ◌∙◌, some, List, length, take, replicate}
use mathlib.Core.Path.{subst}
use minecraft_os.Nvme.Queue.{wait}
use minecraft_os.Nvme.Controller as NvmeDriver
use minecraft_os.Nvme.Controller.{NvmeController}
use minecraft_os.Nvme.Controller.Requests.{meaning_of}
use minecraft_os.Ahci.Port as AhciSlot
use minecraft_os.Ahci.Port.{issue_command}
use minecraft_os.Ahci.Controller as AhciDriver
use minecraft_os.Ahci.Controller.{AhciPort}
use minecraft_os.Storage.{
  Backend, nvme, ahci, Drives, Answers, ok, read_sectors, write_sectors, of_nvme, of_ahci,
  nvme_transfer, ahci_transfer, nvme_answer, with_controller, with_port,
}
use minecraft_os.Storage.Disk.{Disk, disk_after, dma_of, stored, sectors, sectors-stored}
use minecraft_os.Storage.Nvme as NvmeStore
use minecraft_os.Storage.Ahci as AhciStore
use minecraft_os.Storage.Ahci.{IsPort}

module _ (drives : Drives) (saved read : Answers) (lba : ℕ) where
  -- The drive behind the backend completes a command, and then another one, without an error; the
  -- address fits the command, the bounce buffer is one frame.
  pub data IsAble : Backend → Type 0 where
    by_nvme :
        (c : NvmeController)
        → drives.controller ≡ some c
        → length c.dma_buf ≡ 4096
        → c.io_sq.cid_counter < 2 ^ 16
        → lba < 2 ^ 64
        → meaning_of (wait saved.memories c.io_cq).1 ≡ NvmeDriver.ok
        → meaning_of (wait read.memories (wait saved.memories c.io_cq).0).1 ≡ NvmeDriver.ok
        → IsAble nvme
    by_ahci :
        (p : AhciPort)
        → drives.port ≡ some p
        → IsPort p
        → lba < 2 ^ 48
        → (issue_command saved.by_port).1 ≡ AhciSlot.ok
        → (issue_command read.by_port).1 ≡ AhciSlot.ok
        → IsAble ahci

module _ (drives : Drives) (saved read : Answers) (lba : ℕ) (disk : Disk) (bytes : List ℕ) where
  -- What the next reader gets, from the drives as the write left them.
  pub record IsKept (backend : Backend) (d : Drives) : Type 0 where
    pub read_back : (read_sectors (some (some backend)) d read lba 2 (replicate 1024 0)).status ≡ ok
    pub same_bytes :
        (read_sectors (some (some backend)) d read lba 2 (replicate 1024 0)).buffer ≡ bytes

  written_nvme :
      (c : NvmeController)
      → drives.controller ≡ some c
      → write_sectors (some (some nvme)) drives saved lba 2 bytes
        ≡ nvme_transfer drives
            (NvmeDriver.write_sectors c (nvme_answer saved c.dma_buf) lba 2 bytes)
  unfolding write_sectors with_controller
  written_nvme c e =
      ap
        (with_controller drives bytes
          (λ c. NvmeDriver.write_sectors c (nvme_answer saved c.dma_buf) lba 2 bytes))
        e

  written_ahci :
      (p : AhciPort)
      → drives.port ≡ some p
      → write_sectors (some (some ahci)) drives saved lba 2 bytes
        ≡ ahci_transfer drives (AhciDriver.write_sectors p saved.by_port lba 2 bytes)
  unfolding write_sectors with_port
  written_ahci p e =
      ap (with_port drives bytes (λ p. AhciDriver.write_sectors p saved.by_port lba 2 bytes)) e

  -- The two sectors on a disk that stored a buffer with the bytes at its front.
  on_disk :
      (old after : Disk) (memory : List ℕ)
      → after ≡ stored old lba 2 memory
      → take 1024 memory ≡ bytes
      → sectors after lba 2 ≡ bytes
  on_disk old after memory e front =
      ap (λ d. sectors d lba 2) e ∙ sectors-stored old lba memory ∙ front

  kept_nvme :
      (c : NvmeController)
      → length c.dma_buf ≡ 4096
      → c.io_sq.cid_counter < 2 ^ 16
      → lba < 2 ^ 64
      → meaning_of (wait saved.memories c.io_cq).1 ≡ NvmeDriver.ok
      → meaning_of (wait read.memories (wait saved.memories c.io_cq).0).1 ≡ NvmeDriver.ok
      → length bytes ≡ 1024
      → let d =
          (nvme_transfer drives
            (NvmeDriver.write_sectors c (nvme_answer saved c.dma_buf) lba 2 bytes)).drives in
        read.dma ≡ dma_of (disk_after disk d.issued) → IsKept nvme d
  unfolding read_sectors with_controller
  kept_nvme c frame hc hl wrote done size honest =
      let old = disk_after disk drives.issued in
      let r = NvmeDriver.write_sectors c (nvme_answer saved c.dma_buf) lba 2 bytes in
      let v = NvmeStore.write_sectors-IsStored c saved old lba bytes hl hc frame size in
      let there = on_disk old _ r.controller.dma_buf v.on_disk v.front in
      let f =
        NvmeStore.read_sectors-IsFetched r.controller read _ lba bytes hl v.cid v.frame size honest
          there (ap (λ q. meaning_of (wait read.memories q).1) v.queue ∙ done) in
      record { read_back = ap of_nvme f.0; same_bytes = f.1 }

  kept_ahci :
      (p : AhciPort)
      → IsPort p
      → lba < 2 ^ 48
      → (issue_command read.by_port).1 ≡ AhciSlot.ok
      → length bytes ≡ 1024
      → let d =
          (ahci_transfer drives (AhciDriver.write_sectors p saved.by_port lba 2 bytes)).drives in
        read.dma ≡ dma_of (disk_after disk d.issued) → IsKept ahci d
  unfolding read_sectors with_port
  kept_ahci p port hl done size honest =
      let old = disk_after disk drives.issued in
      let r = AhciDriver.write_sectors p saved.by_port lba 2 bytes in
      let v = AhciStore.write_sectors-IsStored p saved.by_port old lba bytes hl port size in
      let there = on_disk old _ r.port.dma_buf v.on_disk v.front in
      let f =
        AhciStore.read_sectors-IsFetched r.port read _ lba bytes hl v.port_lem size honest there
          done in
      record { read_back = ap of_ahci f.0; same_bytes = f.1 }

  pub kept :
      (backend : Backend)
      → length bytes ≡ 1024
      → IsAble drives saved read lba backend
      → let d = (write_sectors (some (some backend)) drives saved lba 2 bytes).drives in
        read.dma ≡ dma_of (disk_after disk d.issued) → IsKept backend d
  kept _ size (by_nvme c here frame hc hl wrote done) honest = rw (written_nvme c here) (
      kept_nvme c frame hc hl wrote done size (
        subst (λ t. read.dma ≡ dma_of (disk_after disk t.drives.issued)) (written_nvme c here)
          honest))
  kept _ size (by_ahci p here port hl wrote done) honest = rw (written_ahci p here) (
      kept_ahci p port hl done size (
        subst (λ t. read.dma ≡ dma_of (disk_after disk t.drives.issued)) (written_ahci p here)
          honest))
