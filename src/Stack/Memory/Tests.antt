-- ===== src/Stack/Memory/Tests.antt =====
-- The fixed buffer, with pages of 4096 bytes.
use libcopp.Base.{◌+◌, ◌<◌, refl, none, arith}
use libcopp.Stack.Context.{StackContext}
use libcopp.Stack.Traits.{Os, maximum_size}
use libcopp.Stack.Memory.{StackAllocatorMemory, with_buffer, allocate}
use libcopp.Stack.Memory.Exclusive.{allocate_overrun}

abbrev linux : Os
linux = record { page_bits = 12; minsigstksz = 2048; rlim_max = none }

abbrev unset : StackContext
unset = record { size = 0; sp = 0 }

abbrev whole : StackAllocatorMemory
whole = with_buffer 65536 8192

abbrev ragged : StackAllocatorMemory
ragged = with_buffer 65536 5000

allocate_overrun_example : 65536 + 5000 < (allocate linux ragged unset 5000).1.sp
unfolding maximum_size
allocate_overrun_example =
    allocate_overrun linux ragged unset 5000 (omega arith) refl (omega arith) (omega arith)
      (omega arith) (omega arith)
