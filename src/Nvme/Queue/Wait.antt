-- ===== src/Nvme/Queue/Wait.antt =====
-- `wait` polls a memory that the controller changes meanwhile.
use minecraft_os.Prelude.{ℕ, zero, suc, ◌+◌, ◌≤◌, ◌<◌, ◌≡◌, refl, ◌∙◌, arith}
use minecraft_os.Prelude.{List, [], ◌∷◌, none, some}
use minecraft_os.Nvme.Regs.{NvmeCqe}
use minecraft_os.Nvme.Queue.{Effect, write_doorbell, CompletionQueue, poll, Memory, ok, timeout}
use minecraft_os.Nvme.Queue.{wait_loop, wait, wait_rounds}
use minecraft_os.Nvme.Queue.Fifo.{
  Stream, IsTagged, IsPosted, Consumed, advance, IsReady, poll_ready, poll_idle,
}

pub wait_loop-some :
    (rounds t : ℕ) (memories : ℕ → Memory) (q q' : CompletionQueue) (cqe : NvmeCqe)
    (effects : List Effect)
    → poll q (memories t) ≡ (q', some cqe, effects)
    → wait_loop (suc rounds) memories t q ≡ (q', ok cqe, effects)
unfolding wait_loop
wait_loop-some rounds t memories q q' cqe effects e = ground arith

wait_loop-none :
    (rounds t : ℕ) (memories : ℕ → Memory) (q q' : CompletionQueue) (effects : List Effect)
    → poll q (memories t) ≡ (q', none, effects)
    → wait_loop (suc rounds) memories t q ≡ wait_loop rounds memories (t + 1) q'
unfolding wait_loop
wait_loop-none rounds t memories q q' effects e = ground arith

module _ (stream : Stream) (memories : ℕ → Memory) (lap : ℕ) (q : CompletionQueue)
    (tagged : IsTagged q.size stream) (v : Consumed lap q) where
  -- Nothing is posted at round `t` that is not consumed.
  abbrev IsIdle : ℕ → Type 0
  IsIdle t = IsPosted stream q.base_virt q.size lap q.head (memories t)

  wait_loop_ready :
      (d rounds t : ℕ)
      → d < rounds
      → ((u : ℕ) → t ≤ u → u < t + d → IsIdle u)
      → IsReady stream (memories (t + d)) lap q tagged v
      → wait_loop rounds memories t q
        ≡ (advance q, ok (stream lap q.head), write_doorbell q.doorbell (advance q).head ∷ [])
  unfolding wait_loop
  wait_loop_ready d zero t h idle r = absurd (omega arith)
  wait_loop_ready zero (suc rounds) t h idle r =
      let e : t + 0 ≡ t = omega arith in
      wait_loop-some rounds t memories q _ _ _
        ((poll_ready stream (memories t) lap q tagged v (rw e at r)).0)
  wait_loop_ready (suc d) (suc rounds) t h idle r =
      let e : t + suc d ≡ t + 1 + d = omega arith in
      wait_loop-none rounds t memories q q []
        (poll_idle stream (memories t) lap q tagged v (idle t (omega arith) (omega arith)))
      ∙ (wait_loop_ready d rounds (t + 1) (omega arith)
          (λ u lo hi. idle u (omega arith) (omega arith)) (rw e at r))

  wait_loop_idle :
      (rounds t : ℕ)
      → ((u : ℕ) → t ≤ u → u < t + rounds → IsIdle u)
      → wait_loop rounds memories t q ≡ (q, timeout, [])
  unfolding wait_loop
  wait_loop_idle zero t idle = refl
  wait_loop_idle (suc rounds) t idle =
      wait_loop-none rounds t memories q q []
        (poll_idle stream (memories t) lap q tagged v (idle t (omega arith) (omega arith)))
      ∙ (wait_loop_idle rounds (t + 1) (λ u lo hi. idle u (omega arith) (omega arith)))

  -- If the controller posts the next completion in some round before the last, and nothing before
  -- that round, `wait` returns that completion and has advanced past it.
  pub wait-IsReady :
      (d : ℕ)
      → d < wait_rounds
      → ((u : ℕ) → u < d → IsIdle u)
      → IsReady stream (memories d) lap q tagged v
      → wait memories q
        ≡ (advance q, ok (stream lap q.head), write_doorbell q.doorbell (advance q).head ∷ [])
  unfolding wait
  wait-IsReady d h idle r =
      let e : 0 + d ≡ d = omega arith in
      wait_loop_ready d wait_rounds 0 h (λ u lo hi. idle u (omega arith)) (rw e r)

  -- If the controller posts nothing in any round, `wait` times out, writes nothing and keeps the
  -- queue as it was.
  pub wait_idle : ((u : ℕ) → u < wait_rounds → IsIdle u) → wait memories q ≡ (q, timeout, [])
  unfolding wait
  wait_idle idle = wait_loop_idle wait_rounds 0 (λ u lo hi. idle u (omega arith))
