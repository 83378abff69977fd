-- ===== src/Nvme/Tests.antt =====
-- Queues of two and four slots, and a controller that answers at once.
use minecraft_os.Prelude.{
  ℕ, zero, suc, ◌+◌, ◌*◌, ◌/◌, ◌≤◌, ◌<◌, ◌≡◌, refl, arith, Bool, true, false, not, ◌==◌, bit_and,
}
use minecraft_os.Prelude.{[], ◌∷◌, ◌++◌, replicate, take, drop, ltb, if◌then◌else◌, inr}
use minecraft_os.Nvme.Regs.{NvmeCqe, default_sqe, phase}
use minecraft_os.Nvme.Queue
use minecraft_os.Nvme.Queue.{
  Effect, write_sqe, write_doorbell, SubmissionQueue, new_sq, submit, CompletionQueue, new_cq,
  Memory, wait, wait_rounds, timeout,
}
use minecraft_os.Nvme.Queue.Submit.{submit_all, expected_writes, submit_all_lem}
use minecraft_os.Nvme.Queue.Fifo.{
  IsTagged, IsPosted, Consumed, advance, poll_all, poll_all_lem, is_even,
}
use minecraft_os.Nvme.Queue.Wait.{wait-IsReady}
use minecraft_os.Nvme.Controller.{NvmeController, Answer, read_sectors, write_sectors}
use minecraft_os.Nvme.Controller.Requests.{IsTransfer, read_sectors_lem, write_sectors_lem}

-- The entry of slot `slot` in round `lap`, with its tag.
abbrev entry : ℕ → ℕ → NvmeCqe
entry lap slot = record {
  dw0 = 0;
  dw1 = 0;
  sq_head = slot;
  sq_id = 1;
  cid = 4 * lap + slot;
  status = if is_even lap then 1 else 0;
}

entry-IsTagged : (size : ℕ) → IsTagged size entry
unfolding phase
entry-IsTagged size lap slot h = tag (is_even lap)
  where
    tag : (b : Bool) → not (bit_and (if b then 1 else 0) 1 == 0) ≡ b
    tag true = refl
    tag false = refl

submit_all_example :
    (submit_all (new_sq 0x1000 0x1000 2 0x1000) (default_sqe ∷ default_sqe ∷ default_sqe ∷ [])).1
    ≡ expected_writes 0x1000 0x1000 2 0 (default_sqe ∷ default_sqe ∷ default_sqe ∷ [])
submit_all_example =
    submit_all_lem 0x1000 0x1000 2 0x1000 (default_sqe ∷ default_sqe ∷ default_sqe ∷ [])
      (omega arith) (omega arith)

-- Four slots, of which the first two hold entries of the second round.
abbrev memory : Memory
memory a = entry (if ltb a 32 then 1 else 0) (a / 16)

abbrev cq : CompletionQueue
cq = record { base_virt = 0; base_phys = 0; head = 3; size = 4; phase = true; doorbell = 0x1004 }

cq-Consumed : Consumed 0 cq
cq-Consumed = record { size_u16 = omega arith; inside = omega arith; expects = refl }

fresh_slot : (slot : ℕ) → slot < 2 → memory (0 + slot * 16) ≡ entry 1 slot
fresh_slot zero h = refl
fresh_slot (suc zero) h = refl
fresh_slot (suc (suc slot)) h = absurd (omega arith)

old_slot : (slot : ℕ) → 2 ≤ slot → slot < 4 → memory (0 + slot * 16) ≡ entry 0 slot
old_slot zero g h = absurd (omega arith)
old_slot (suc zero) g h = absurd (omega arith)
old_slot (suc (suc zero)) g h = refl
old_slot (suc (suc (suc zero))) g h = refl
old_slot (suc (suc (suc (suc slot)))) g h = absurd (omega arith)

memory-IsPosted : IsPosted entry 0 4 1 2 memory
memory-IsPosted = record { within = omega arith; fresh = fresh_slot; old = old_slot }

poll_all_example : poll_all 10 memory cq ≡ entry 0 3 ∷ entry 1 0 ∷ entry 1 1 ∷ []
poll_all_example =
    poll_all_lem 3 10 0 entry memory cq (entry-IsTagged 4) cq-Consumed
      (inr (2, memory-IsPosted, refl, omega arith)) (omega arith)

wait-IsReady_example :
    wait (λ t. memory) cq ≡ (advance cq, Queue.ok (entry 0 3), write_doorbell 0x1004 0 ∷ [])
wait-IsReady_example =
    wait-IsReady entry (λ t. memory) 0 cq (entry-IsTagged 4) cq-Consumed 0 (omega arith)
      (λ u h. absurd (omega arith)) (inr (2, memory-IsPosted, omega arith))

-- The same queue where the controller has posted no further than its head.
abbrev idle_cq : CompletionQueue
idle_cq = record cq { head = 2; phase = false }

abbrev controller : NvmeController
controller = record {
  io_sq = new_sq 0x1000 0x1000 64 0x2000;
  io_cq = cq;
  dma_buf = replicate 4096 0;
  dma_buf_phys = 0x9000;
}

abbrev answer : Answer
answer = record { memories = λ t. memory; dma = replicate 4096 7 }

read_sectors_example :
    IsTransfer controller answer 8 1
      (replicate 600 1)
      0x02
      (take 512 answer.dma ++ drop 512 (replicate 600 1))
      answer.dma
      (read_sectors controller answer 8 1 (replicate 600 1))
unfolding new_sq
read_sectors_example =
    read_sectors_lem controller answer 8 1 (replicate 600 1) (omega arith) (omega arith)
      (omega arith)

write_sectors_example :
    IsTransfer controller answer 8 1
      (replicate 600 1)
      0x01
      (replicate 600 1)
      (take 512 (replicate 600 1) ++ drop 512 controller.dma_buf)
      (write_sectors controller answer 8 1 (replicate 600 1))
unfolding new_sq
write_sectors_example =
    write_sectors_lem controller answer 8 1 (replicate 600 1) (omega arith) (omega arith)
      (omega arith)
