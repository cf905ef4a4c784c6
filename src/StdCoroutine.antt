-- ===== src/StdCoroutine.antt =====
-- include/libcopp/coroutine/std_coroutine_common.h and src/libcopp/coroutine/std_coroutine_common.cpp:
-- what the promises of all C++20 coroutines have in common.
pub mod Callers
pub mod Promise
pub mod Some
