-- ===== src/Kernel/Syscall/Tests.antt =====
-- The theorems on system calls at a thread with no fault handler, and at well-formed ready queues.
use mi_dev_integral_rel.Task.Tests.{one}
use mi_dev_integral_rel.Kernel.{Kernel}
use mi_dev_integral_rel.Kernel.Tests.{system}
use mi_dev_integral_rel.Kernel.Syscall.Fault.{handle_fault}
use mi_dev_integral_rel.Kernel.Syscall.Stops.{Stops, handle_fault-Stops}

abbrev busy : Kernel
busy = record system { ipc = record system.ipc { tasks = one } }

handle_fault-Stops_example : Stops 2048 (handle_fault 2048 system)
handle_fault-Stops_example = handle_fault-Stops 2048 system
