-- ===== src/Kernel/Cnode/Tests.antt =====
-- The theorems on CNodes at a concrete memory.
use mi_dev_integral_rel.Kernel.Tests.{system}
use mi_dev_integral_rel.Kernel.Untyped.Reject.{ErrorIsQuiet}
use mi_dev_integral_rel.Kernel.Cnode.Decode.{decode_cnode_invoke_with_two_slot}
use mi_dev_integral_rel.Kernel.Cnode.Reject.{decode_cnode_invoke_with_two_slot-ErrorIsQuiet}

decode_cnode_invoke_with_two_slot-ErrorIsQuiet_example :
    ErrorIsQuiet system (decode_cnode_invoke_with_two_slot 19 128 5 (λ i. 0) system)
decode_cnode_invoke_with_two_slot-ErrorIsQuiet_example =
    decode_cnode_invoke_with_two_slot-ErrorIsQuiet system 19 128 5 (λ i. 0)
