-- ===== src/Storage/Nvme.antt =====
-- A game's two sectors, written and read by the NVMe driver.
use minecraft_os.Prelude.{
  ℕ, ◌+◌, ◌%◌, ◌^◌, ◌<◌, ◌≡◌, refl, ap, ◌∙◌, arith, inl, inr, List, ◌++◌, length, take, drop,
  replicate, length-replicate, length-append, length-take, length-drop, ◌==◌, true,
}
use minecraft_os.Nvme.Queue.{Effect, wait}
use minecraft_os.Nvme.Controller as Driver
use minecraft_os.Nvme.Controller.{NvmeController, Answer, Outcome}
use minecraft_os.Nvme.Controller.Requests.{
  IsAsked, IsTransfer, refused, carried_out, used, meaning_of, read_sectors_lem, write_sectors_lem,
}
use minecraft_os.Storage.{Answers, to_nvme, nvme_answer, nvme_read_command}
use minecraft_os.Storage.Disk.{
  Disk, fetch, store, nvme_wish, wish_of, grant, memory_of, dma_of, stored, sectors, brought,
  take-filled, filled-front,
}

-- The facts of a transfer that is not refused.
pub record IsDone (c : NvmeController) (answer : Answer) (lba : ℕ) (buffer : List ℕ) (opcode : ℕ)
    (out dma : List ℕ) (r : Outcome) : Type 0 where
  pub status : r.status ≡ meaning_of (wait answer.memories c.io_cq).1
  pub buffer_lem : r.buffer ≡ elim (meaning_of (wait answer.memories c.io_cq).1) [
    | Driver.ok ↦ out
    | Driver.err e ↦ buffer
  ]
  pub asked : IsAsked c answer lba 2 buffer opcode r.effects
  pub controller : r.controller ≡ used c answer lba 2 buffer dma

is_done :
    (c : NvmeController) (answer : Answer) (lba : ℕ) (buffer : List ℕ) (opcode : ℕ)
    (out dma : List ℕ) (r : Outcome)
    → length buffer ≡ 1024
    → IsTransfer c answer lba 2 buffer opcode out dma r
    → IsDone c answer lba buffer opcode out dma r
is_done c answer lba buffer opcode out dma r size (refused (inl h) e) = absurd (omega arith)
is_done c answer lba buffer opcode out dma r size (refused (inr h) e) = absurd (omega arith)
is_done c answer lba buffer opcode out dma r size (carried_out h k s b a e) = record {
  status = s;
  buffer_lem = b;
  asked = a;
  controller = e;
}

pub same_address : (a : ℕ) → (a == a) ≡ true
same_address a = ground arith

wish_of-read :
    (c : NvmeController) (answer : Answer) (lba : ℕ) (buffer memory : List ℕ)
    (effects : List Effect)
    → IsAsked c answer lba 2 buffer 0x02 effects
    → wish_of (to_nvme c.dma_buf_phys memory effects) ≡ fetch lba 2
wish_of-read c answer lba buffer memory effects a =
    ap (λ fx. wish_of (to_nvme c.dma_buf_phys memory fx)) a.written
    ∙ ap (nvme_wish c.dma_buf_phys) a.asked
    ∙ rw (same_address c.dma_buf_phys) refl

wish_of-write :
    (c : NvmeController) (answer : Answer) (lba : ℕ) (buffer memory : List ℕ)
    (effects : List Effect)
    → IsAsked c answer lba 2 buffer 0x01 effects
    → wish_of (to_nvme c.dma_buf_phys memory effects) ≡ store lba 2
wish_of-write c answer lba buffer memory effects a =
    ap (λ fx. wish_of (to_nvme c.dma_buf_phys memory fx)) a.written
    ∙ ap (nvme_wish c.dma_buf_phys) a.asked
    ∙ rw (same_address c.dma_buf_phys) refl

-- What the write of two sectors leaves: the disk holds what the bounce buffer holds, the front of
-- which is what was to be written.
pub record IsStored (c : NvmeController) (answers : Answers) (disk : Disk) (lba : ℕ)
    (bytes : List ℕ) (r : Outcome) : Type 0 where
  pub succeeds : r.status ≡ meaning_of (wait answers.memories c.io_cq).1
  pub frame : length r.controller.dma_buf ≡ 4096
  pub front : take 1024 r.controller.dma_buf ≡ bytes
  pub cid : r.controller.io_sq.cid_counter < 2 ^ 16
  pub queue : r.controller.io_cq ≡ (wait answers.memories c.io_cq).0
  pub on_disk :
      let command = to_nvme r.controller.dma_buf_phys r.controller.dma_buf r.effects in
      grant disk (memory_of command) (wish_of command) ≡ stored disk lba 2 r.controller.dma_buf

pub write_sectors-IsStored :
    (c : NvmeController) (answers : Answers) (disk : Disk) (lba : ℕ) (bytes : List ℕ)
    → lba < 2 ^ 64
    → c.io_sq.cid_counter < 2 ^ 16
    → length c.dma_buf ≡ 4096
    → length bytes ≡ 1024
    → IsStored c answers disk lba bytes
        (Driver.write_sectors c (nvme_answer answers c.dma_buf) lba 2 bytes)
write_sectors-IsStored c answers disk lba bytes hl hc full size =
    let answer = nvme_answer answers c.dma_buf in
    let r = Driver.write_sectors c answer lba 2 bytes in
    let memory = take 1024 bytes ++ drop 1024 c.dma_buf in
    let d =
      is_done c answer lba bytes 0x01 bytes memory r size
        (write_sectors_lem c answer lba 2 bytes hl hc full) in
    let buf : r.controller.dma_buf ≡ memory = ap (λ q. q.dma_buf) d.controller in
    let phys : r.controller.dma_buf_phys ≡ c.dma_buf_phys = ap (λ q. q.dma_buf_phys) d.controller in
    let wish : wish_of (to_nvme r.controller.dma_buf_phys r.controller.dma_buf r.effects)
        ≡ store lba 2 =
      ap (λ a. wish_of (to_nvme a r.controller.dma_buf r.effects)) phys
      ∙ wish_of-write c answer lba bytes r.controller.dma_buf r.effects d.asked in
    let id : r.controller.io_sq.cid_counter ≡ (c.io_sq.cid_counter + 1) % 2 ^ 16 =
      ap (λ q. q.io_sq.cid_counter) d.controller in
    record {
      succeeds = d.status;
      frame =
          ap length buf
          ∙ omega (
            arith,
            length-append (take 1024 bytes) (drop 1024 c.dma_buf),
            length-take 1024 bytes,
            length-drop 1024 c.dma_buf,
          );
      front = ap (take 1024) buf ∙ take-filled 1024 bytes (drop 1024 c.dma_buf) size;
      cid = omega (arith, id);
      queue = ap (λ q. q.io_cq) d.controller;
      on_disk = ap (grant disk r.controller.dma_buf) wish;
    }

-- What a read of two sectors brings if the controller returns what stands on the disk.
pub read_sectors-IsFetched :
    (c : NvmeController) (answers : Answers) (disk : Disk) (lba : ℕ) (bytes : List ℕ)
    → lba < 2 ^ 64
    → c.io_sq.cid_counter < 2 ^ 16
    → length c.dma_buf ≡ 4096
    → length bytes ≡ 1024
    → answers.dma ≡ dma_of disk
    → sectors disk lba 2 ≡ bytes
    → meaning_of (wait answers.memories c.io_cq).1 ≡ Driver.ok
    → let blank : List ℕ = replicate 1024 0 in
      let answer = nvme_answer answers (answers.dma (nvme_read_command c answers lba 2 blank)) in
      let r = Driver.read_sectors c answer lba 2 blank in
      (r.status ≡ Driver.ok) × (r.buffer ≡ bytes)
read_sectors-IsFetched c answers disk lba bytes hl hc full size honest there done =
    let blank : List ℕ = replicate 1024 0 in
    let zeros : length blank ≡ 1024 = length-replicate {A = ℕ} 1024 0 in
    let dry = nvme_answer answers c.dma_buf in
    let asked =
      is_done c dry lba blank 0x02 (take 1024 c.dma_buf ++ drop 1024 blank) c.dma_buf
        (Driver.read_sectors c dry lba 2 blank) zeros
        (read_sectors_lem c dry lba 2 blank hl hc full) in
    let command = nvme_read_command c answers lba 2 blank in
    let moved : answers.dma command ≡ bytes ++ drop 1024 c.dma_buf =
      ap (λ f. f command) honest
      ∙ ap (brought disk c.dma_buf) (
          wish_of-read c dry lba blank c.dma_buf (Driver.read_sectors c dry lba 2 blank).effects
            asked.asked)
      ∙ ap (λ l. l ++ drop 1024 c.dma_buf) there in
    let long : length (answers.dma command) ≡ 4096 =
      ap length moved
      ∙ omega (arith, length-append bytes (drop 1024 c.dma_buf), length-drop 1024 c.dma_buf) in
    let answer = nvme_answer answers (answers.dma command) in
    let r = Driver.read_sectors c answer lba 2 blank in
    let d =
      is_done c answer lba blank 0x02 (take 1024 (answers.dma command) ++ drop 1024 blank)
        (answers.dma command) r zeros (read_sectors_lem c answer lba 2 blank hl hc long) in
    let front =
      filled-front (answers.dma command) bytes (drop 1024 c.dma_buf) blank moved size zeros in
    (d.status ∙ done, d.buffer_lem ∙ rw done front)
