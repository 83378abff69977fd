-- ===== src/Ahci/Port/Requests.antt =====
-- What the drive reads in slot 0.
use minecraft_os.Prelude.{
  ℕ, ◌+◌, ◌*◌, ◌/◌, ◌%◌, ◌^◌, ◌≤◌, ◌<◌, ◌≡◌, arith, Bool, true, false, not, ◌==◌,
}
use minecraft_os.Prelude.{get_or}
use minecraft_os.Ahci.Port.{
  Slot, header_flags, setup_command, build_h2d_fis, fis_bytes, virt_to_phys,
}

-- The fields that the specifications give a command header, a register FIS and a region
-- descriptor: the FIS's length in words, the number of descriptors, the address of the table, and
-- the LBA and counts put together from their bytes.
abbrev pub Request : Type 0
Request = record {
  fis_words : ℕ;
  regions : ℕ;
  write : Bool;
  table : ℕ;
  fis_type : ℕ;
  is_command : Bool;
  lba_mode : Bool;
  command : ℕ;
  lba : ℕ;
  count : ℕ;
  address : ℕ;
  bytes : ℕ;
}

abbrev pub bit : ℕ → ℕ → Bool
bit word k = not (word / 2 ^ k % 2 == 0)

abbrev pub request_of : Slot → Request
request_of slot =
    let at : ℕ → ℕ = λ i. get_or slot.table.cfis i 0 in
    record {
      fis_words = slot.header.flags % 2 ^ 5;
      regions = slot.header.flags / 2 ^ 16;
      write = bit slot.header.flags 6;
      table = slot.header.ctba + 2 ^ 32 * slot.header.ctbau;
      fis_type = at 0;
      is_command = bit (at 1) 7;
      lba_mode = bit (at 7) 6;
      command = at 2;
      lba = at 4 + 2 ^ 8 * at 5 + 2 ^ 16 * at 6 + 2 ^ 24 * at 8 + 2 ^ 32 * at 9 + 2 ^ 40 * at 10;
      count = at 12 + 2 ^ 8 * at 13;
      address = slot.table.prdt.dba + 2 ^ 32 * slot.table.prdt.dbau;
      bytes = slot.table.prdt.dbc % 2 ^ 22 + 1;
    }

-- A command for any 48-bit address and 16-bit count that moves 1 to 4,194,304 bytes is read back
-- from the slot as just this command, in either direction: five words of FIS, one region, the
-- table's and the buffer's 64-bit addresses.
pub request_of-setup_command :
    (offset table_virt command lba count address bytes : ℕ) (write : Bool)
    → table_virt < 2 ^ 64
    → command < 256
    → lba < 2 ^ 48
    → count < 2 ^ 16
    → address < 2 ^ 64
    → 1 ≤ bytes
    → bytes ≤ 2 ^ 22
    → let slot =
        setup_command offset table_virt (build_h2d_fis command lba count) address bytes write in
      request_of slot ≡ record {
        fis_words = 5;
        regions = 1;
        write = write;
        table = virt_to_phys offset table_virt;
        fis_type = 0x27;
        is_command = true;
        lba_mode = true;
        command = command;
        lba = lba;
        count = count;
        address = address;
        bytes = bytes;
      }
unfolding setup_command build_h2d_fis fis_bytes virt_to_phys header_flags
request_of-setup_command offset table_virt command lba count address bytes true ht hc hl hn ha h1
      h2 =
    ground arith
request_of-setup_command offset table_virt command lba count address bytes false ht hc hl hn ha h1
      h2 =
    ground arith
