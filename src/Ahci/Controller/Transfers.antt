-- ===== src/Ahci/Controller/Transfers.antt =====
-- What the drive is asked for, and what the caller gets back.
use minecraft_os.Prelude.{ℕ, ◌*◌, ◌^◌, ◌≤◌, ◌<◌, ◌≡◌, refl, ap, ◌∙◌, arith}
use minecraft_os.Prelude.{List, ◌++◌, length, take, drop, write_at, true, false, Bool, some, Option}
use native.Mathlib.Nat.{zero-add}
use minecraft_os.Prelude.{write_at-eq-append, length-take}
use minecraft_os.Ahci.Hba.{ata_cmd_read_dma_ext, ata_cmd_write_dma_ext}
use minecraft_os.Ahci.Port
use minecraft_os.Ahci.Port.{
  Answer, Slot, Run, Status, ok, err, Issued, issue_command, setup_command, build_h2d_fis,
  virt_to_phys,
}
use minecraft_os.Ahci.Port.Requests.{Request, request_of, request_of-setup_command}
use minecraft_os.Ahci.Controller.{AhciPort, read_sectors, write_sectors, too_small, copy_out}

-- A transfer of `count` sectors at `lba` through the port's bounce buffer.
abbrev pub transfer : AhciPort → Bool → ℕ → ℕ → ℕ → Request
transfer p write command lba count = record {
  fis_words = 5;
  regions = 1;
  write = write;
  table = virt_to_phys p.offset p.cmd_table_virt;
  fis_type = 0x27;
  is_command = true;
  lba_mode = true;
  command = command;
  lba = lba;
  count = count;
  address = p.dma_buf_phys;
  bytes = count * 512;
}

-- The command that was set up asks for the transfer, and the port was used as `issue_command` does.
abbrev pub IsRequested : Answer → Request → Option Run → Type 0
IsRequested answer request run =
    (slot : Slot) × (run ≡ some (slot, (issue_command answer).0, (issue_command answer).1))
    × (request_of slot ≡ request)

module _ (p : AhciPort) (answer : Answer) (lba count : ℕ) (buffer : List ℕ) where
  pub small_enough :
      count * 512 ≤ length buffer → count * 512 ≤ 4096 → too_small buffer (count * 512) ≡ false
  small_enough h k = ground arith

  front :
      (src buf : List ℕ)
      → count * 512 ≤ length src
      → count * 512 ≤ length buf
      → write_at 0 (take (count * 512) src) buf ≡ take (count * 512) src ++ drop (count * 512) buf
  front src buf h k =
      let size : length (take (count * 512) src) ≡ count * 512 =
        omega (arith, length-take (count * 512) src) in
      write_at-eq-append 0 (take (count * 512) src) buf (omega arith)
      ∙ ap (λ n. take (count * 512) src ++ drop n buf)
          (zero-add (length (take (count * 512) src)) ∙ size)

  -- For 1 to 8 sectors at a 48-bit address and a buffer that holds them, with the port's addresses
  -- `u64` and its bounce buffer one frame: a read sets up READ DMA EXT for just these sectors, and
  -- on success the drive's bytes stand at the front of the buffer, which is kept otherwise; a write
  -- puts the buffer's bytes at the front of the bounce buffer and sets up WRITE DMA EXT for them.
  -- Both report what `issue_command` returns.
  pub transferred :
      (dma : List ℕ)
      → lba < 2 ^ 48
      → 1 ≤ count
      → count ≤ 8
      → count * 512 ≤ length buffer
      → p.cmd_table_virt < 2 ^ 64
      → p.dma_buf_phys < 2 ^ 64
      → length p.dma_buf ≡ 4096
      → length dma ≡ 4096
      → let r = read_sectors p answer dma lba count buffer in
        let w = write_sectors p answer lba count buffer in
        let status = (issue_command answer).1 in
        (r.status ≡ status)
        × (r.buffer ≡ elim status [
          | ok ↦ take (count * 512) dma ++ drop (count * 512) buffer
          | err e ↦ buffer
        ])
        × IsRequested answer (transfer p false ata_cmd_read_dma_ext lba count) r.run
        × (w.status ≡ status)
        × (w.port.dma_buf ≡ take (count * 512) buffer ++ drop (count * 512) p.dma_buf)
        × (w.buffer ≡ buffer)
        × IsRequested answer (transfer p true ata_cmd_write_dma_ext lba count) w.run
  unfolding read_sectors write_sectors Port.read_sectors Port.write_sectors
  transferred dma hl h1 h8 fits ht ha full full' =
      let small = small_enough fits (omega arith) in
      let out = front dma buffer (omega arith) fits in
      let into = front buffer p.dma_buf fits (omega arith) in
      let asked = λ (write : Bool) (command : ℕ) (h : command < 256).
        request_of-setup_command p.offset p.cmd_table_virt command lba count p.dma_buf_phys
          (count * 512) write ht h hl (omega arith) ha (omega arith) (omega arith) in
      (
        rw small refl,
        rw small (copied (issue_command answer).1 out),
        (
          setup_command p.offset p.cmd_table_virt (build_h2d_fis ata_cmd_read_dma_ext lba count)
              p.dma_buf_phys (count * 512) false,
          rw small refl,
          asked false ata_cmd_read_dma_ext (omega arith),
        ),
        rw small refl,
        rw small into,
        rw small refl,
        (
          setup_command p.offset p.cmd_table_virt (build_h2d_fis ata_cmd_write_dma_ext lba count)
              p.dma_buf_phys (count * 512) true,
          rw small refl,
          asked true ata_cmd_write_dma_ext (omega arith),
        ),
      )
    where
      copied :
          (status : Status)
          → write_at 0 (take (count * 512) dma) buffer
            ≡ take (count * 512) dma ++ drop (count * 512) buffer
          → copy_out status (count * 512) dma buffer ≡ elim status [
            | ok ↦ take (count * 512) dma ++ drop (count * 512) buffer
            | err e ↦ buffer
          ]
      copied ok e = e
      copied (err x) e = refl
