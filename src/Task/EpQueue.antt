-- ===== src/Task/EpQueue.antt =====
-- The endpoint queue of sel4_task/src/tcb_queue.rs. A `&mut self` queue is passed and returned.
pub mod Order
use mi_dev_integral_rel.Base.{ℕ, Bool, ◌==◌, update, if◌then◌else◌}
use mi_dev_integral_rel.Cmd.{Cmd, Skip, pure, ◌>>=◌, ◌>>◌, convert, get, modify}
use mi_dev_integral_rel.Task.{TcbQueue, Tasks}

abbrev set_next : ℕ → ℕ → Cmd Tasks Skip
set_next p v = modify (λ k. record k { ep_next = update k.ep_next p v })

abbrev set_prev : ℕ → ℕ → Cmd Tasks Skip
set_prev p v = modify (λ k. record k { ep_prev = update k.ep_prev p v })

unfoldable pub ep_append : TcbQueue → ℕ → Cmd Tasks TcbQueue
ep_append self tcb = do
  q ←
      (if self.head == 0
        then pure (record self { head = tcb })
        else do convert self.tail; set_next self.tail tcb; pure self)
  set_prev tcb q.tail
  set_next tcb 0
  pure (record q { tail = tcb })

unfoldable pub ep_dequeue : TcbQueue → ℕ → Cmd Tasks TcbQueue
ep_dequeue self tcb = do
  k ← get
  q ←
      (if k.ep_prev tcb == 0
        then pure (record self { head = k.ep_next tcb })
        else do set_next (k.ep_prev tcb) (k.ep_next tcb); pure self)
  k ← get
  if k.ep_next tcb == 0
      then pure (record q { tail = k.ep_prev tcb })
      else do set_prev (k.ep_next tcb) (k.ep_prev tcb); pure q

unfoldable pub empty : TcbQueue → Bool
empty self = self.head == 0
