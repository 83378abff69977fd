-- ===== src/Storage/Ahci.antt =====
-- A game's two sectors, written and read by the AHCI driver.
use minecraft_os.Prelude.{
  ℕ, ◌^◌, ◌<◌, ◌≡◌, refl, ap, ◌∙◌, arith, Option, true, false, List, ◌++◌, length, take, drop,
  replicate, length-replicate, length-append, length-drop, length-write_at, write_at,
}
use minecraft_os.Ahci.Hba.{ata_cmd_read_dma_ext, ata_cmd_write_dma_ext}
use minecraft_os.Ahci.Port as Slot
use minecraft_os.Ahci.Port.{Run, issue_command}
use minecraft_os.Ahci.Controller as Driver
use minecraft_os.Ahci.Controller.{AhciPort, Outcome}
use minecraft_os.Ahci.Controller.Transfers.{transferred, transfer, IsRequested, small_enough}
use minecraft_os.Storage.{Answers, to_ahci, ahci_read_command}
use minecraft_os.Storage.Nvme.{same_address}
use minecraft_os.Storage.Disk.{
  Disk, fetch, store, ahci_wish, wish_of, grant, memory_of, dma_of, stored, sectors, brought,
  take-filled, filled-front,
}

-- The port's addresses are `u64` and its bounce buffer is one frame.
pub record IsPort (p : AhciPort) : Type 0 where
  pub table : p.cmd_table_virt < 2 ^ 64
  pub address : p.dma_buf_phys < 2 ^ 64
  pub frame : length p.dma_buf ≡ 4096

wish_of-read :
    (p : AhciPort) (answer : Slot.Answer) (lba : ℕ) (memory : List ℕ) (run : Option Run)
    → IsRequested answer (transfer p false ata_cmd_read_dma_ext lba 2) run
    → wish_of (to_ahci p.dma_buf_phys memory run) ≡ fetch lba 2
wish_of-read p answer lba memory run (slot, e, f) =
    ap (λ r. wish_of (to_ahci p.dma_buf_phys memory r)) e
    ∙ ap (ahci_wish p.dma_buf_phys) f
    ∙ rw (same_address p.dma_buf_phys) refl

wish_of-write :
    (p : AhciPort) (answer : Slot.Answer) (lba : ℕ) (memory : List ℕ) (run : Option Run)
    → IsRequested answer (transfer p true ata_cmd_write_dma_ext lba 2) run
    → wish_of (to_ahci p.dma_buf_phys memory run) ≡ store lba 2
wish_of-write p answer lba memory run (slot, e, f) =
    ap (λ r. wish_of (to_ahci p.dma_buf_phys memory r)) e
    ∙ ap (ahci_wish p.dma_buf_phys) f
    ∙ rw (same_address p.dma_buf_phys) refl

-- A write changes just the bounce buffer of the port.
port-fields :
    (p : AhciPort) (answer : Slot.Answer) (lba : ℕ) (bytes : List ℕ)
    → length bytes ≡ 1024
    → (Driver.write_sectors p answer lba 2 bytes).port
      ≡ record p { dma_buf = write_at 0 (take 1024 bytes) p.dma_buf }
unfolding Driver.write_sectors
port-fields p answer lba bytes size =
    rw (small_enough p answer lba 2 bytes (omega (arith, size)) (omega arith)) refl

-- What the write of two sectors leaves: the disk holds what the bounce buffer holds, the front of
-- which is what was to be written.
pub record IsStored (p : AhciPort) (answer : Slot.Answer) (disk : Disk) (lba : ℕ) (bytes : List ℕ)
    (r : Outcome) : Type 0 where
  pub succeeds : r.status ≡ (issue_command answer).1
  pub port_lem : IsPort r.port
  pub front : take 1024 r.port.dma_buf ≡ bytes
  pub on_disk :
      let command = to_ahci r.port.dma_buf_phys r.port.dma_buf r.run in
      grant disk (memory_of command) (wish_of command) ≡ stored disk lba 2 r.port.dma_buf

pub write_sectors-IsStored :
    (p : AhciPort) (answer : Slot.Answer) (disk : Disk) (lba : ℕ) (bytes : List ℕ)
    → lba < 2 ^ 48
    → IsPort p
    → length bytes ≡ 1024
    → IsStored p answer disk lba bytes (Driver.write_sectors p answer lba 2 bytes)
write_sectors-IsStored p answer disk lba bytes hl v size =
    let r = Driver.write_sectors p answer lba 2 bytes in
    let (_, _, _, status, memory, _, asked) =
      transferred p answer lba 2 bytes p.dma_buf hl (omega arith) (omega arith)
        (omega (arith, size)) v.table v.address v.frame v.frame in
    let fields = port-fields p answer lba bytes size in
    let phys : r.port.dma_buf_phys ≡ p.dma_buf_phys = ap (λ q. q.dma_buf_phys) fields in
    let table : r.port.cmd_table_virt ≡ p.cmd_table_virt = ap (λ q. q.cmd_table_virt) fields in
    let wish : wish_of (to_ahci r.port.dma_buf_phys r.port.dma_buf r.run) ≡ store lba 2 =
      ap (λ a. wish_of (to_ahci a r.port.dma_buf r.run)) phys
      ∙ wish_of-write p answer lba r.port.dma_buf r.run asked in
    record {
      succeeds = status;
      port_lem = record {
        table = omega (arith, table, v.table);
        address = omega (arith, phys, v.address);
        frame =
            ap (λ q. length q.dma_buf) fields
            ∙ length-write_at 0 (take 1024 bytes) p.dma_buf
            ∙ v.frame;
      };
      front = ap (take 1024) memory ∙ take-filled 1024 bytes (drop 1024 p.dma_buf) size;
      on_disk = ap (grant disk r.port.dma_buf) wish;
    }

-- What a read of two sectors brings if the drive returns what stands on the disk.
pub read_sectors-IsFetched :
    (p : AhciPort) (answers : Answers) (disk : Disk) (lba : ℕ) (bytes : List ℕ)
    → lba < 2 ^ 48
    → IsPort p
    → length bytes ≡ 1024
    → answers.dma ≡ dma_of disk
    → sectors disk lba 2 ≡ bytes
    → (issue_command answers.by_port).1 ≡ Slot.ok
    → let blank : List ℕ = replicate 1024 0 in
      let dma = answers.dma (ahci_read_command p answers lba 2 blank) in
      let r = Driver.read_sectors p answers.by_port dma lba 2 blank in
      (r.status ≡ Slot.ok) × (r.buffer ≡ bytes)
read_sectors-IsFetched p answers disk lba bytes hl v size honest there done =
    let blank : List ℕ = replicate 1024 0 in
    let zeros : length blank ≡ 1024 = length-replicate {A = ℕ} 1024 0 in
    let dry = Driver.read_sectors p answers.by_port p.dma_buf lba 2 blank in
    let (_, _, asked, _, _, _, _) =
      transferred p answers.by_port lba 2 blank p.dma_buf hl (omega arith) (omega arith)
        (omega (arith, zeros)) v.table v.address v.frame v.frame in
    let dma = answers.dma (ahci_read_command p answers lba 2 blank) in
    let moved : dma ≡ bytes ++ drop 1024 p.dma_buf =
      ap (λ f. f (ahci_read_command p answers lba 2 blank)) honest
      ∙ ap (brought disk p.dma_buf) (wish_of-read p answers.by_port lba p.dma_buf dry.run asked)
      ∙ ap (λ l. l ++ drop 1024 p.dma_buf) there in
    let long : length dma ≡ 4096 =
      ap length moved
      ∙ omega
          (arith, length-append bytes (drop 1024 p.dma_buf), length-drop 1024 p.dma_buf, v.frame) in
    let (status, buffer, _, _, _, _, _) =
      transferred p answers.by_port lba 2 blank dma hl (omega arith) (omega arith)
        (omega (arith, zeros)) v.table v.address v.frame long in
    let front = filled-front dma bytes (drop 1024 p.dma_buf) blank moved size zeros in
    (status ∙ done, buffer ∙ rw done front)
