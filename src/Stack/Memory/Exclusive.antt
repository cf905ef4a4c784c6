-- ===== src/Stack/Memory/Exclusive.antt =====
-- The buffer is lent to one user at a time, and where the stack lies in it.
use libcopp.Base.{ℕ, ◌+◌, ◌%◌, ◌≤◌, ◌<◌, ◌≡◌, ◌≢◌, ◌⊎◌, true, false, arith, size_mod}
use libcopp.Stack.Context.{StackContext}
use libcopp.Stack.Traits.{Os, page, maximum_size, round_to_page_size}
use libcopp.Stack.Traits.Rounding.{page-pos, round_to_page_size_bounds, round_to_page_size_whole}
use libcopp.Stack.Memory.{
  StackAllocatorMemory, assign, construct_from, cut_size, allocate, deallocate,
}

-- After an `allocate` that gave a stack, every further one fails and changes nothing, until a
-- `deallocate`, which makes the allocator what it was.
pub allocate-Exclusive :
    (os : Os) (m : StackAllocatorMemory) (c d : StackContext) (n k : ℕ)
    → (allocate os m c n).1.sp ≢ 0
    → let m' = (allocate os m c n).0 in
      (m.is_used ≡ false)
      × ((allocate os m' d k).0 ≡ m')
      × ((allocate os m' d k).1.sp ≡ 0)
      × (deallocate m' (allocate os m c n).1 ≡ m)
unfolding allocate deallocate
allocate-Exclusive os m c d n k h = ground arith

lent : Os → StackAllocatorMemory → ℕ → StackAllocatorMemory × StackContext
lent os m n =
    let rounded = round_to_page_size os (cut_size os m n) in
    (record m { is_used = true }, record { size = rounded; sp = m.start_ptr + rounded })

allocate_unused :
    (os : Os) (m : StackAllocatorMemory) (c : StackContext) (n : ℕ)
    → 0 < m.start_ptr
    → m.is_used ≡ false
    → allocate os m c n ≡ lent os m n
unfolding allocate lent
allocate_unused os m c n h k = rw k (ground arith)

cut_size-le : (os : Os) (m : StackAllocatorMemory) (n : ℕ) → cut_size os m n ≤ m.memory_size
unfolding cut_size
cut_size-le os m n = ground arith

cut_size_all :
    (os : Os) (m : StackAllocatorMemory) (n : ℕ)
    → m.memory_size ≤ n
    → m.memory_size ≤ maximum_size os
    → cut_size os m n ≡ m.memory_size
unfolding cut_size
cut_size_all os m n h k = ground arith

-- Of a buffer of whole pages, at an address that is not null, the stack is a whole number of
-- pages that lie within the buffer, below `sp`.
pub allocate-InBuffer :
    (os : Os) (m : StackAllocatorMemory) (c : StackContext) (n : ℕ)
    → 0 < m.start_ptr
    → m.is_used ≡ false
    → m.memory_size % page os ≡ 0
    → m.memory_size + page os ≤ size_mod
    → let s = (allocate os m c n).1 in
      (s.sp ≡ m.start_ptr + s.size)
      × (s.size ≤ m.memory_size)
      × (s.size % page os ≡ 0)
      × (cut_size os m n ≤ s.size)
unfolding lent
allocate-InBuffer os m c n h k w r =
    let cut = cut_size os m n in
    let small = cut_size-le os m n in
    rw (allocate_unused os m c n h k) (
      ground (
        arith,
        round_to_page_size_bounds os cut,
        round_to_page_size_whole os cut m.memory_size small w r,
      ))

-- A buffer that is not a whole number of pages is overrun: a request for all of it gives a stack
-- that begins past the buffer's end.
pub allocate_overrun :
    (os : Os) (m : StackAllocatorMemory) (c : StackContext) (n : ℕ)
    → 0 < m.start_ptr
    → m.is_used ≡ false
    → m.memory_size % page os ≢ 0
    → m.memory_size + page os ≤ size_mod
    → m.memory_size ≤ n
    → m.memory_size ≤ maximum_size os
    → m.start_ptr + m.memory_size < (allocate os m c n).1.sp
unfolding lent
allocate_overrun os m c n h k w r big fits =
    rw (allocate_unused os m c n h k, cut_size_all os m n big fits)
      (ground (arith, page-pos os, round_to_page_size_bounds os m.memory_size))

-- A buffer in use is neither copied nor moved; any other changes hands, and no buffer is ever
-- in two allocators.
pub assign-moves :
    (self other : StackAllocatorMemory)
    → ((other.is_used ≡ true)
        × (assign self other ≡ (self, other))
        × ((construct_from other).0.start_ptr ≡ 0)
        × ((construct_from other).1 ≡ other))
      ⊎ ((other.is_used ≡ false)
          × (assign self other ≡ (other, self))
          × ((construct_from other).0 ≡ other)
          × ((construct_from other).1.start_ptr ≡ 0))
unfolding assign construct_from
assign-moves self other = ground arith
