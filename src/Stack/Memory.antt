-- ===== src/Stack/Memory.antt =====
-- include/libcopp/stack/allocator/stack_allocator_memory.h and
-- src/libcopp/stack/allocator/stack_allocator_memory.cpp: one buffer that is lent as one stack.
pub mod Exclusive
mod Tests
use libcopp.Base.{ℕ, ◌+◌, Bool, true, false, not, ◌||◌, ◌==◌, if◌then◌else◌}
use libcopp.Stack.Context.{StackContext}
use libcopp.Stack.Traits.{Os, std_min, std_max, minimum_size, maximum_size, round_to_page_size}

pub record StackAllocatorMemory : Type 0 where
  pub start_ptr : ℕ
  pub memory_size : ℕ
  pub is_used : Bool

-- The default constructor, and the one with a buffer.
abbrev pub nothing : StackAllocatorMemory
nothing = record { start_ptr = 0; memory_size = 0; is_used = false }

abbrev pub with_buffer : ℕ → ℕ → StackAllocatorMemory
with_buffer start_ptr max_size = record {
  start_ptr = start_ptr;
  memory_size = max_size;
  is_used = false;
}

-- `swap(other)`: what `*this` and `other` are afterwards.
pub swap : StackAllocatorMemory → StackAllocatorMemory → StackAllocatorMemory × StackAllocatorMemory
swap self other = (
  record { start_ptr = other.start_ptr; memory_size = other.memory_size; is_used = other.is_used },
  record { start_ptr = self.start_ptr; memory_size = self.memory_size; is_used = self.is_used },
)

-- Both assignments.
pub assign :
    StackAllocatorMemory → StackAllocatorMemory → StackAllocatorMemory × StackAllocatorMemory
unfolding swap
assign self other = if not other.is_used then swap self other else (self, other)

-- The copy and the move constructor.
pub construct_from : StackAllocatorMemory → StackAllocatorMemory × StackAllocatorMemory
unfolding swap
construct_from other = if not other.is_used then swap nothing other else (nothing, other)

pub attach : StackAllocatorMemory → ℕ → ℕ → StackAllocatorMemory
attach self start_ptr max_size = record self {
  start_ptr = start_ptr;
  memory_size = max_size;
  is_used = false;
}

-- The size that is asked for, cut to what the system and the buffer allow.
pub cut_size : Os → StackAllocatorMemory → ℕ → ℕ
cut_size os self size =
    std_min (std_min (std_max size (minimum_size os)) (maximum_size os)) self.memory_size

-- The assertion `size_ <= memory_size_` is not part of a release build.
pub allocate : Os → StackAllocatorMemory → StackContext → ℕ → StackAllocatorMemory × StackContext
unfolding cut_size
allocate os self ctx size =
    let rounded = round_to_page_size os (cut_size os self size) in
    if (self.start_ptr == 0) || self.is_used
    then (self, record ctx { sp = 0 })
    else (record self { is_used = true }, record { size = rounded; sp = self.start_ptr + rounded })

pub deallocate : StackAllocatorMemory → StackContext → StackAllocatorMemory
deallocate self ctx = record self { is_used = false }
