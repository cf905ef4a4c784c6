-- ===== src/Stack/Malloc/Tests.antt =====
-- The allocator over a C library whose heap only grows.
use libcopp.Base.{ℕ, ◌+◌, none}
use libcopp.Stack.Context.{StackContext}
use libcopp.Stack.Traits.{Os}
use libcopp.Stack.Malloc.{Libc}

abbrev linux : Os
linux = record { page_bits = 12; minsigstksz = 2048; rlim_max = none }

-- The state is the first free address.
abbrev growing : Libc ℕ
growing = record { malloc = λ s n. (s + n, s); free = λ s p. s }

abbrev unset : StackContext
unset = record { size = 0; sp = 0 }
