-- ===== src/Kernel/Delete/Remainder.antt =====
-- What finaliseCap leaves: kernel/src/interfaces_impl/cspace.rs, for `cap_removable` of
-- sel4_cspace/src/cte.rs.
use mi_dev_integral_rel.Base.{ℕ, Bool, true, Bool-cases, inl, inr}
use mi_dev_integral_rel.Cmd.{Run, ok, panic, Cmd, and_then, convert}
use mi_dev_integral_rel.Ipc.Notification.{safe_unbind_notification}
use mi_dev_integral_rel.Task.Scheduler.{suspend}
use mi_dev_integral_rel.Kernel.Message.{in_threads}
use mi_dev_integral_rel.Cspace.{
  Capability, null, endpoint, notification, reply, cnode, thread, irq_handler, zombie, domain,
}
use mi_dev_integral_rel.Cspace.Cap.{is_arch_cap, zombie_new}
use mi_dev_integral_rel.Kernel.{Kernel, in_ipc}
use mi_dev_integral_rel.Kernel.Delete.{
  FinaliseRet, arch_finalise, arch_finalise_cap, finalise_simple, finalise_compound, finalise_cap,
  cancel_ipc,
}

-- The capabilities that `cap_removable` does not panic on.
pub data IsRemainder : Capability → Type 0 where
  nothing_left : IsRemainder null
  zombie_left : (id type : ℕ) → IsRemainder (zombie id type)

pub data Leaves : Run Kernel FinaliseRet → Type 0 where
  leaves : {r : FinaliseRet} {k : Kernel} → IsRemainder r.remainder → Leaves (ok r k)
  panics : Leaves panic

after :
    {A : Type 0} (r : Run Kernel A) (f : A → Cmd Kernel FinaliseRet)
    → ((a : A) (k : Kernel) → Leaves (f a k))
    → Leaves (and_then r f)
after (ok a k) f all = all a k
after panic f all = panics

arch_finalise_cap-Leaves :
    (cap : Capability) (final : Bool) (k : Kernel) → Leaves (arch_finalise_cap cap final k)
unfolding arch_finalise_cap
arch_finalise_cap-Leaves cap final k =
    after (arch_finalise cap final k) _ (λ _ k'. leaves nothing_left)

finalise_simple-Leaves :
    (queue : ℕ) (cap : Capability) (final : Bool) (rest : Cmd Kernel FinaliseRet) (k : Kernel)
    → Leaves (rest k)
    → Leaves (finalise_simple queue cap final rest k)
unfolding finalise_simple
finalise_simple-Leaves queue (endpoint _ _ _ _ _ ptr) final rest k l =
    after _ _ (λ _ k'. leaves nothing_left)
finalise_simple-Leaves queue (notification _ _ _ ptr) final rest k l =
    after _ _ (λ _ k'. leaves nothing_left)
finalise_simple-Leaves queue (reply _ _ _) final rest k l = leaves nothing_left
finalise_simple-Leaves queue null final rest k l = leaves nothing_left
finalise_simple-Leaves queue domain final rest k l = leaves nothing_left
finalise_simple-Leaves queue _ final rest k l = l

finalise_compound-Leaves :
    (queue : ℕ) (cap : Capability) (final : Bool) (k : Kernel)
    → Leaves (finalise_compound queue cap final k)
unfolding finalise_compound zombie_new
finalise_compound-Leaves queue (cnode radix guard_size guard ptr) true k = leaves (zombie_left _ _)
finalise_compound-Leaves queue (thread ptr) true k = after (convert ptr k) _ (λ _ k1.
    after (in_ipc (safe_unbind_notification ptr) k1) _ (λ _ k2.
      after (cancel_ipc queue ptr k2) _
        (λ _ k3. after (in_threads (suspend ptr) k3) _ (λ _ k4. leaves (zombie_left _ _)))))
finalise_compound-Leaves queue (zombie id type) final k = leaves (zombie_left id type)
finalise_compound-Leaves queue (irq_handler irq) true k = after _ _ (λ _ k'. leaves nothing_left)
finalise_compound-Leaves queue _ final k = leaves nothing_left

-- Whatever the capability is, and whether it is the last one to its object or not, finaliseCap panics
-- or leaves a null or a zombie capability, the two that cap_removable accepts.
pub finalise_cap-Leaves :
    (queue : ℕ) (cap : Capability) (final : Bool) (k : Kernel)
    → Leaves (finalise_cap queue cap final k)
unfolding finalise_cap
finalise_cap-Leaves queue cap final k = elim (Bool-cases (is_arch_cap cap)) [
  | inl e ↦ rw e (arch_finalise_cap-Leaves cap final k)
  | inr e ↦ rw e (
      finalise_simple-Leaves queue cap final (finalise_compound queue cap final) k
        (finalise_compound-Leaves queue cap final k))
]
