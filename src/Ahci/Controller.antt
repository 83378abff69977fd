-- ===== src/Ahci/Controller.antt =====
-- The transfers of `AhciPort` in kernel/src/ahci/mod.rs. What the port's registers read, and the
-- bytes that the drive moves, are arguments.
pub mod Transfers
use package.minecraft_os.Prelude.{
  ℕ, zero, suc, ◌+◌, ◌-◌, ◌*◌, ◌/◌, ◌%◌, ◌^◌, Bool, ◌||◌, ◌&&◌, not, Option, none, some, List, [],
  ◌∷◌, ◌++◌,
}
use package.minecraft_os.Prelude.{
  ltb, ◌==◌, if◌then◌else◌, length, take, get_or, replicate, write_at, bit_and, bit_or,
}
use package.minecraft_os.Memory.{BootInfoFrameAllocator, alloc_phys_frame, translate_addr}
use package.minecraft_os.Pci.{
  Space, Write, PciDevice, find_by_class, read_bar_address, enable_bus_mastering,
}
use package.minecraft_os.Ahci.Hba.{ghc_ae, sata_sig_ata}
use package.minecraft_os.Ahci.Port
use package.minecraft_os.Ahci.Port.{
  Answer, Issued, untouched, Slot, Run, Status, ok, err, buffer_too_small, no_device, identify,
}
use package.minecraft_os.Ahci.Engine.{
  Effect, write_clb, write_clbu, write_fb, write_fbu, write_serr, write_ghc, stop_port, start_port,
}

-- `port_index` stands for the pointer into the array of ports, `dma_buf` for the frame behind
-- `dma_buf_virt`, and `offset` for that of the direct mapping.
pub record AhciPort : Type 0 where
  pub port_index : ℕ
  pub offset : ℕ
  pub cmd_list : ℕ
  pub cmd_table_virt : ℕ
  pub dma_buf : List ℕ
  pub dma_buf_virt : ℕ
  pub dma_buf_phys : ℕ

-- The command that was set up, if one was.
pub record Outcome : Type 0 where
  pub port : AhciPort
  pub buffer : List ℕ
  pub status : Status
  pub run : Option Run

abbrev pub too_small : List ℕ → ℕ → Bool
too_small buffer byte_count = ltb (length buffer) byte_count || ltb 4096 byte_count

abbrev pub copy_out : Status → ℕ → List ℕ → List ℕ → List ℕ
copy_out ok byte_count dma buffer = write_at 0 (take byte_count dma) buffer
copy_out (err e) byte_count dma buffer = buffer

-- `dma` is what the bounce buffer holds once the command has ended.
unfoldable pub read_sectors : AhciPort → Answer → List ℕ → ℕ → ℕ → List ℕ → Outcome
read_sectors p answer dma lba count buffer =
    let byte_count = count * 512 in
    let (slot, ci_write, status) =
      Port.read_sectors p.offset p.cmd_table_virt answer lba count p.dma_buf_phys in
    if too_small buffer byte_count
    then record { port = p; buffer = buffer; status = err buffer_too_small; run = none }
    else record {
      port = record p { dma_buf = dma };
      buffer = copy_out status byte_count dma buffer;
      status = status;
      run = some (slot, ci_write, status);
    }

unfoldable pub write_sectors : AhciPort → Answer → ℕ → ℕ → List ℕ → Outcome
write_sectors p answer lba count buffer =
    let byte_count = count * 512 in
    let (slot, ci_write, status) =
      Port.write_sectors p.offset p.cmd_table_virt answer lba count p.dma_buf_phys in
    if too_small buffer byte_count
    then record { port = p; buffer = buffer; status = err buffer_too_small; run = none }
    else record {
      port = record p { dma_buf = write_at 0 (take byte_count buffer) p.dma_buf };
      buffer = buffer;
      status = status;
      run = some (slot, ci_write, status);
    }
