-- ===== src/TaskManager.antt =====
-- include/libcotask/task_manager.h: the manager of stackful tasks, `task_manager<task<...>>`, with
-- its table of tasks and its ordered set of timers.
pub mod Timers
pub mod Table
pub mod Manager
