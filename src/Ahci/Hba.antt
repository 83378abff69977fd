-- ===== src/Ahci/Hba.antt =====
-- The memory structures and register bits of kernel/src/ahci/hba.rs. Their words are `u32` and
-- their bytes `u8`.
use minecraft_os.Prelude.{ℕ, ◌^◌, List}

pub record HbaCommandHeader : Type 0 where
  pub flags : ℕ
  pub prdbc : ℕ
  pub ctba : ℕ
  pub ctbau : ℕ

pub record FisRegH2d : Type 0 where
  pub fis_type : ℕ
  pub pm_and_c : ℕ
  pub command : ℕ
  pub featurel : ℕ
  pub lba0 : ℕ
  pub lba1 : ℕ
  pub lba2 : ℕ
  pub device : ℕ
  pub lba3 : ℕ
  pub lba4 : ℕ
  pub lba5 : ℕ
  pub features : ℕ
  pub countl : ℕ
  pub counth : ℕ
  pub icc : ℕ
  pub control : ℕ

-- Also what `write_bytes(table, 0, 1)` leaves.
abbrev pub default_fis : FisRegH2d
default_fis = record {
  fis_type = 0;
  pm_and_c = 0;
  command = 0;
  featurel = 0;
  lba0 = 0;
  lba1 = 0;
  lba2 = 0;
  device = 0;
  lba3 = 0;
  lba4 = 0;
  lba5 = 0;
  features = 0;
  countl = 0;
  counth = 0;
  icc = 0;
  control = 0;
}

pub record HbaPrdt : Type 0 where
  pub dba : ℕ
  pub dbau : ℕ
  pub dbc : ℕ

-- `cfis` has 64 bytes and `prdt` one entry; the ATAPI command and the reserved bytes stay 0.
pub record HbaCommandTable : Type 0 where
  pub cfis : List ℕ
  pub prdt : HbaPrdt

abbrev pub port_cmd_st : ℕ
port_cmd_st = 2 ^ 0

abbrev pub port_cmd_fre : ℕ
port_cmd_fre = 2 ^ 4

abbrev pub port_cmd_cr : ℕ
port_cmd_cr = 2 ^ 15

abbrev pub ghc_ae : ℕ
ghc_ae = 2 ^ 31

abbrev pub tfd_bsy : ℕ
tfd_bsy = 2 ^ 7

abbrev pub tfd_drq : ℕ
tfd_drq = 2 ^ 3

abbrev pub tfd_err : ℕ
tfd_err = 2 ^ 0

abbrev pub ata_cmd_identify : ℕ
ata_cmd_identify = 0xEC

abbrev pub ata_cmd_read_dma_ext : ℕ
ata_cmd_read_dma_ext = 0x25

abbrev pub ata_cmd_write_dma_ext : ℕ
ata_cmd_write_dma_ext = 0x35

abbrev pub sata_sig_ata : ℕ
sata_sig_ata = 0x101
