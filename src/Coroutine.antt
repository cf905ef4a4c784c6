-- ===== src/Coroutine.antt =====
-- Stackful coroutines: include/libcopp/coroutine/coroutine_context_base.h, coroutine_context.h and
-- src/libcopp/coroutine/coroutine_context.cpp. `Flags` and `Layout` are about one context, `Switch`
-- about the contexts of one thread, the jumps between them, and any run of these.
pub mod Flags
pub mod Layout
pub mod Switch
