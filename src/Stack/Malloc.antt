-- ===== src/Stack/Malloc.antt =====
-- include/libcopp/stack/allocator/stack_allocator_malloc.h and
-- src/libcopp/stack/allocator/stack_allocator_malloc.cpp. The C library's `malloc` and `free` are
-- the record `Libc`; addresses do not wrap.
pub mod Laws
mod Tests
use libcopp.Base.{ℕ, ◌+◌, ◌-◌, ◌==◌, if◌then◌else◌}
use libcopp.Stack.Context.{StackContext, Allocator}
use libcopp.Stack.Traits.{Os, std_min, std_max, minimum_size, maximum_size, round_to_page_size}

pub record Libc (S : Type 0) : Type 0 where
  pub malloc : S → ℕ → S × ℕ
  pub free : S → ℕ → S

module _ {S : Type 0} (os : Os) (libc : Libc S) where
  pub request : ℕ → ℕ
  request size = round_to_page_size os (std_min (std_max size (minimum_size os)) (maximum_size os))

  pub allocate : S → StackContext → ℕ → S × StackContext
  allocate s ctx size =
      let (s', start_ptr) = libc.malloc s (request size) in
      if start_ptr == 0
      then (s', record ctx { sp = 0 })
      else (s', record { size = request size; sp = start_ptr + request size })

  pub deallocate : S → StackContext → S
  deallocate s ctx = libc.free s (ctx.sp - ctx.size)

  pub malloc_allocator : Allocator S
  malloc_allocator = record { allocate = allocate; deallocate = deallocate }
