-- ===== src/Kernel/Delete/Tests.antt =====
-- The theorems on deletion at three capabilities to one endpoint.
use mi_dev_integral_rel.Base.{refl, true, [], ◌∷◌, arith}
use mi_dev_integral_rel.Cspace.{cnode}
use mi_dev_integral_rel.Cspace.Cap.{same_object_as}
use mi_dev_integral_rel.Cspace.Cte.{is_final_cap}
use mi_dev_integral_rel.Cspace.Mdb.{IsMdb}
use mi_dev_integral_rel.Cspace.Tests.{three, three-IsMdb}
use mi_dev_integral_rel.Kernel.{Kernel}
use mi_dev_integral_rel.Kernel.Tests.{system}
use mi_dev_integral_rel.Kernel.Delete.{finalise_cap}
use mi_dev_integral_rel.Kernel.Delete.Slots.{delete_all}
use mi_dev_integral_rel.Kernel.Delete.Copies.{Deleted, Emptied, delete_all-unlinks}
use mi_dev_integral_rel.Kernel.Delete.Remainder.{Leaves, finalise_cap-Leaves}

abbrev shared : Kernel
shared = record system { slots = three }

finalise_cap-Leaves_example : Leaves (finalise_cap 1 (cnode 2 0 0 32768) true system)
finalise_cap-Leaves_example = finalise_cap-Leaves 1 (cnode 2 0 0 32768) true system

delete_all-unlinks_example :
    Deleted
      (λ c. IsMdb c 1 (1 ∷ 3 ∷ []) 3 × Emptied 2 (1 ∷ 2 ∷ 3 ∷ []) three c)
      shared
      (delete_all 1 0 true 2 shared)
unfolding is_final_cap same_object_as
delete_all-unlinks_example =
    delete_all-unlinks 0 0 2 shared 1 (1 ∷ []) (3 ∷ []) 3 three-IsMdb (λ e. omega arith) refl refl
