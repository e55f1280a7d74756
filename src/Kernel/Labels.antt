-- ===== src/Kernel/Labels.antt =====
-- `MessageLabel` of sel4_common for riscv64 without the debugging and multiprocessor labels, by the
-- number that the build gives each.
use mi_dev_integral_rel.Base.{ℕ}

abbrev pub tcb_read_registers : ℕ
tcb_read_registers = 2

abbrev pub tcb_write_registers : ℕ
tcb_write_registers = 3

abbrev pub tcb_copy_registers : ℕ
tcb_copy_registers = 4

abbrev pub tcb_configure : ℕ
tcb_configure = 5

abbrev pub tcb_set_priority : ℕ
tcb_set_priority = 6

abbrev pub tcb_set_mc_priority : ℕ
tcb_set_mc_priority = 7

abbrev pub tcb_set_sched_params : ℕ
tcb_set_sched_params = 8

abbrev pub tcb_set_ipc_buffer : ℕ
tcb_set_ipc_buffer = 9

abbrev pub tcb_set_space : ℕ
tcb_set_space = 10

abbrev pub tcb_suspend : ℕ
tcb_suspend = 11

abbrev pub tcb_resume : ℕ
tcb_resume = 12

abbrev pub tcb_bind_notification : ℕ
tcb_bind_notification = 13

abbrev pub tcb_unbind_notification : ℕ
tcb_unbind_notification = 14

abbrev pub tcb_set_tls_base : ℕ
tcb_set_tls_base = 15

abbrev pub cnode_revoke : ℕ
cnode_revoke = 16

abbrev pub cnode_delete : ℕ
cnode_delete = 17

abbrev pub cnode_cancel_badged_sends : ℕ
cnode_cancel_badged_sends = 18

abbrev pub cnode_rotate : ℕ
cnode_rotate = 23

abbrev pub cnode_save_caller : ℕ
cnode_save_caller = 24

abbrev pub irq_issue_irq_handler : ℕ
irq_issue_irq_handler = 25

abbrev pub irq_ack_irq : ℕ
irq_ack_irq = 26

abbrev pub irq_set_irq_handler : ℕ
irq_set_irq_handler = 27

abbrev pub irq_clear_irq_handler : ℕ
irq_clear_irq_handler = 28

abbrev pub domain_set_set : ℕ
domain_set_set = 29

abbrev pub riscv_irq_issue_irq_handler_trigger : ℕ
riscv_irq_issue_irq_handler_trigger = 37

abbrev pub riscv_page_table_map : ℕ
riscv_page_table_map = 30

abbrev pub riscv_page_table_unmap : ℕ
riscv_page_table_unmap = 31

abbrev pub riscv_page_map : ℕ
riscv_page_map = 32

abbrev pub riscv_page_unmap : ℕ
riscv_page_unmap = 33

abbrev pub riscv_page_get_address : ℕ
riscv_page_get_address = 34

abbrev pub riscv_asid_control_make_pool : ℕ
riscv_asid_control_make_pool = 35

abbrev pub riscv_asid_pool_assign : ℕ
riscv_asid_pool_assign = 36
