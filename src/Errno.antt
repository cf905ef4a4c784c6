-- ===== src/Errno.antt =====
-- include/libcopp/utils/errno.h: the codes that the operations return.
use libcopp.Base.{ℕ}

pub data CoppErrorCode : Type 0 where
  success : CoppErrorCode
  unknown : CoppErrorCode
  external_insert_failed : CoppErrorCode
  external_erase_failed : CoppErrorCode
  in_reset : CoppErrorCode
  alloc_stack_failed : CoppErrorCode
  not_inited : CoppErrorCode
  already_inited : CoppErrorCode
  access_violation : CoppErrorCode
  not_ready : CoppErrorCode
  not_running : CoppErrorCode
  is_running : CoppErrorCode
  already_finished : CoppErrorCode
  not_found : CoppErrorCode
  already_exist : CoppErrorCode
  args_error : CoppErrorCode
  cast_failed : CoppErrorCode
  has_unhandle_exception : CoppErrorCode
  fcontext_make_failed : CoppErrorCode
  can_not_use_cross_fcontext_and_fiber : CoppErrorCode
  task_can_not_wait_self : CoppErrorCode
  task_is_exiting : CoppErrorCode
  task_add_next_failed : CoppErrorCode
  task_not_in_action : CoppErrorCode
  task_already_in_another_manager : CoppErrorCode
  task_is_killed : CoppErrorCode

-- The `int` of the program.
pub data ℤ : Type 0 where
  pos : ℕ → ℤ
  negsuc : ℕ → ℤ

-- `negsuc n` is `- (n + 1)`.
abbrev pub code_value : CoppErrorCode → ℤ
code_value success = pos 0
code_value unknown = negsuc 100
code_value external_insert_failed = negsuc 101
code_value external_erase_failed = negsuc 102
code_value in_reset = negsuc 103
code_value alloc_stack_failed = negsuc 200
code_value not_inited = negsuc 1000
code_value already_inited = negsuc 1001
code_value access_violation = negsuc 1002
code_value not_ready = negsuc 1003
code_value not_running = negsuc 1004
code_value is_running = negsuc 1005
code_value already_finished = negsuc 1006
code_value not_found = negsuc 1007
code_value already_exist = negsuc 1008
code_value args_error = negsuc 1009
code_value cast_failed = negsuc 1010
code_value has_unhandle_exception = negsuc 1011
code_value fcontext_make_failed = negsuc 2000
code_value can_not_use_cross_fcontext_and_fiber = negsuc 2001
code_value task_can_not_wait_self = negsuc 3000
code_value task_is_exiting = negsuc 3001
code_value task_add_next_failed = negsuc 3002
code_value task_not_in_action = negsuc 3003
code_value task_already_in_another_manager = negsuc 3004
code_value task_is_killed = negsuc 3005
