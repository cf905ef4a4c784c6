-- ===== src/Stack.antt =====
-- Stacks for coroutines: include/libcopp/stack and src/libcopp/stack. `Context` describes one
-- stack, `Traits` rounds sizes, `Memory` and `Malloc` are allocators, `Pool` caches stacks.
pub mod Context
pub mod Traits
pub mod Memory
pub mod Malloc
pub mod Pool
