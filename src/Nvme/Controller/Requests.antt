-- ===== src/Nvme/Controller/Requests.antt =====
-- What the controller is asked for, and what the caller gets back.
use minecraft_os.Prelude.{ℕ, ◌+◌, ◌*◌, ◌/◌, ◌%◌, ◌^◌, ◌≤◌, ◌<◌, ◌≡◌, refl, ap, ◌∙◌, arith}
use minecraft_os.Prelude.{
  List, [], ◌∷◌, ◌++◌, length, take, drop, write_at, ◌⊎◌, inl, inr, true, false, Bool-cases, ltb,
  ◌==◌, if◌then◌else◌,
}
use native.Mathlib.Nat.{zero-add}
use minecraft_os.Prelude.{write_at-eq-append, length-take}
use minecraft_os.Nvme.Regs.{io_cmd_read, io_cmd_write, NvmeSqe, set_cid}
use minecraft_os.Nvme.Regs.Fields.{set_cid-cdw0, set_opcode-default, status_code-eq}
use minecraft_os.Nvme.Queue
use minecraft_os.Nvme.Queue.{Effect, write_sqe, write_doorbell, Waited, submit, wait}
use minecraft_os.Nvme.Controller.{
  NvmeController, Answer, Outcome, Status, ok, err, timeout, command_error, buffer_too_small,
  io_command, run_command, check_status, read_sectors, write_sectors, too_small, copy_out,
}

-- The fields that the command set gives a read or write command, with the count as a number of
-- blocks.
abbrev pub Request : Type 0
Request = record { opcode : ℕ; cid : ℕ; nsid : ℕ; lba : ℕ; blocks : ℕ; address : ℕ }

abbrev pub request_of : NvmeSqe → Request
request_of sqe = record {
  opcode = sqe.cdw0 % 256;
  cid = sqe.cdw0 / 2 ^ 16;
  nsid = sqe.nsid;
  lba = sqe.cdw10 + 2 ^ 32 * sqe.cdw11;
  blocks = sqe.cdw12 % 2 ^ 16 + 1;
  address = sqe.prp1;
}

front :
    {n : ℕ} (src buf : List ℕ)
    → length src ≡ n
    → n ≤ length buf
    → write_at 0 src buf ≡ src ++ drop n buf
front src buf e h = rw (← e) (
    write_at-eq-append 0 src buf (omega arith)
    ∙ ap (λ k. src ++ drop k buf) (zero-add (length src)))

-- The number of blocks that a count asks for.
abbrev pub blocks_of : ℕ → ℕ
blocks_of count = if count == 0 then 2 ^ 16 else count

-- A command for any 16-bit count at any 64-bit address, as the controller reads it.
request_of-command :
    (opcode cid : ℕ) (c : NvmeController) (lba count : ℕ)
    → opcode < 256
    → cid < 2 ^ 16
    → lba < 2 ^ 64
    → count < 2 ^ 16
    → request_of (set_cid (io_command opcode c lba count) cid) ≡ record {
      opcode = opcode;
      cid = cid;
      nsid = 1;
      lba = lba;
      blocks = blocks_of count;
      address = c.dma_buf_phys;
    }
unfolding io_command set_cid
request_of-command opcode cid c lba count ho hc hl h =
    ground
      (arith, set_cid-cdw0 (io_command opcode c lba count) cid hc, set_opcode-default opcode ho)

-- What a completion entry, or none in time, means for the caller: bits 11:1 of the status are the
-- code.
abbrev pub meaning_of : Waited → Status
meaning_of Queue.timeout = err timeout
meaning_of (Queue.ok cqe) =
    if cqe.status / 2 % 2048 == 0 then ok else err (command_error (cqe.status / 2 % 2048))

check_status-meaning_of : (w : Waited) → check_status w ≡ meaning_of w
unfolding check_status
check_status-meaning_of Queue.timeout = refl
check_status-meaning_of (Queue.ok cqe) = ground (arith, status_code-eq cqe)

module _ (c : NvmeController) (answer : Answer) (lba count : ℕ) (buffer : List ℕ) where
  -- One command is put in the slot at the tail with the next id, and the doorbell gets the slot
  -- behind it; what the wait does follows.
  pub record IsAsked (opcode : ℕ) (effects : List Effect) : Type 0 where
    pub command : NvmeSqe
    pub asked : request_of command ≡ record {
      opcode = opcode;
      cid = c.io_sq.cid_counter;
      nsid = 1;
      lba = lba;
      blocks = blocks_of count;
      address = c.dma_buf_phys;
    }
    pub written :
        effects
        ≡ write_sqe (c.io_sq.base_virt + c.io_sq.tail * 64) command
          ∷ write_doorbell c.io_sq.doorbell ((c.io_sq.tail + 1) % 2 ^ 16 % c.io_sq.size)
          ∷ (wait answer.memories c.io_cq).2

  -- The controller after a command, with what its bounce buffer holds.
  abbrev pub used : List ℕ → NvmeController
  used dma = record c {
    io_sq = record c.io_sq {
      tail = (c.io_sq.tail + 1) % 2 ^ 16 % c.io_sq.size;
      cid_counter = (c.io_sq.cid_counter + 1) % 2 ^ 16;
    };
    io_cq = (wait answer.memories c.io_cq).0;
    dma_buf = dma;
  }

  -- A transfer that is too large for the buffer or for one frame has no effect; another one asks for
  -- its blocks with `opcode`, gives the caller `out` on success and its own buffer otherwise, and
  -- leaves `dma` in the bounce buffer.
  pub data IsTransfer (opcode : ℕ) (out dma : List ℕ) (r : Outcome) : Type 0 where
    refused :
        (length buffer < count * 512) ⊎ (4096 < count * 512)
        → r
          ≡ record { controller = c; buffer = buffer; status = err buffer_too_small; effects = [] }
        → IsTransfer opcode out dma r
    carried_out :
        count * 512 ≤ length buffer
        → count * 512 ≤ 4096
        → r.status ≡ meaning_of (wait answer.memories c.io_cq).1
        → r.buffer
          ≡ elim (meaning_of (wait answer.memories c.io_cq).1) [ ok ↦ out | err e ↦ buffer ]
        → IsAsked opcode r.effects
        → r.controller ≡ used dma
        → IsTransfer opcode out dma r

  too_large :
      too_small buffer (count * 512) ≡ true → (length buffer < count * 512) ⊎ (4096 < count * 512)
  too_large e = elim (Bool-cases (ltb (length buffer) (count * 512))) [
    | inl f ↦ inl (ground arith)
    | inr f ↦ inr (ground arith)
  ]

  fits :
      too_small buffer (count * 512) ≡ false → (count * 512 ≤ length buffer) × (count * 512 ≤ 4096)
  fits e = (ground arith, ground arith)

  copied :
      (status : Status) (dma : List ℕ)
      → length dma ≡ 4096
      → count * 512 ≤ length buffer
      → count * 512 ≤ 4096
      → copy_out status (count * 512) dma buffer
        ≡ elim status [ ok ↦ take (count * 512) dma ++ drop (count * 512) buffer | err e ↦ buffer ]
  copied (err e) dma full h k = refl
  copied ok dma full h k =
      front (take (count * 512) dma) buffer (omega (arith, length-take (count * 512) dma)) h

  -- For any 64-bit address, any count, a 16-bit counter of ids and a controller that leaves one frame of
  -- bytes in the bounce buffer: a read beyond the buffer or one frame is refused and has no
  -- effect. Any other one asks the controller, by one command in the next slot and one ring of the
  -- doorbell, for just these blocks, where a count of 0 asks for 65536; a completion with code 0 is
  -- success and brings the bytes that the controller left to the front of the buffer; any other
  -- completion, or none in time, is reported as such and the buffer is kept.
  pub read_sectors_lem :
      lba < 2 ^ 64
      → c.io_sq.cid_counter < 2 ^ 16
      → length answer.dma ≡ 4096
      → IsTransfer 0x02
          (take (count * 512) answer.dma ++ drop (count * 512) buffer)
          answer.dma
          (read_sectors c answer lba count buffer)
  unfolding read_sectors run_command submit
  read_sectors_lem hl hc full = elim (Bool-cases (too_small buffer (count * 512))) [
    | inl e ↦ refused (too_large e) (rw e refl)
    | inr e ↦
        let (h, k) = fits e in
        let waited = (wait answer.memories c.io_cq).1 in
        let means = check_status-meaning_of waited in
        carried_out h k (rw e means)
          (rw (e, ← means) (copied (check_status waited) answer.dma full h k))
          (record {
            command = set_cid (io_command io_cmd_read c lba count) c.io_sq.cid_counter;
            asked =
                request_of-command io_cmd_read c.io_sq.cid_counter c lba count (omega arith) hc hl
                  (omega arith);
            written = rw e refl;
          })
          (rw e refl)
  ]

  -- For any 64-bit address, any count, a 16-bit counter of ids and a bounce buffer of one frame: a
  -- write of more than the buffer holds or above one frame is
  -- refused and has no effect. Any other one puts its bytes at the front of the bounce buffer, whose
  -- rest is kept, and asks the controller, by one command in the next slot and one ring of the
  -- doorbell, to write just these blocks, where a count of 0 asks for 65536; a completion with code 0
  -- is success, any other completion, or none in time, is reported as such.
  pub write_sectors_lem :
      lba < 2 ^ 64
      → c.io_sq.cid_counter < 2 ^ 16
      → length c.dma_buf ≡ 4096
      → IsTransfer 0x01 buffer
          (take (count * 512) buffer ++ drop (count * 512) c.dma_buf)
          (write_sectors c answer lba count buffer)
  unfolding write_sectors run_command io_command submit
  write_sectors_lem hl hc full = elim (Bool-cases (too_small buffer (count * 512))) [
    | inl e ↦ refused (too_large e) (rw e refl)
    | inr e ↦
        let (h, k) = fits e in
        let waited = (wait answer.memories c.io_cq).1 in
        let into : write_at 0 (take (count * 512) buffer) c.dma_buf
            ≡ take (count * 512) buffer ++ drop (count * 512) c.dma_buf =
          front (take (count * 512) buffer) c.dma_buf
            (omega (arith, length-take (count * 512) buffer)) (omega arith) in
        carried_out h k (rw e (check_status-meaning_of waited)) (rw e (kept (meaning_of waited)))
          (record {
            command = set_cid (io_command io_cmd_write c lba count) c.io_sq.cid_counter;
            asked =
                request_of-command io_cmd_write c.io_sq.cid_counter c lba count (omega arith) hc hl
                  (omega arith);
            written = rw e refl;
          })
          (rw (e, into) refl)
  ]
    where
      kept : (status : Status) → buffer ≡ elim status [ ok ↦ buffer | err e ↦ buffer ]
      kept ok = refl
      kept (err e) = refl
