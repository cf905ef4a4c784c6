-- ===== src/Stack/Malloc/Laws.antt =====
-- What the allocator asks of the C library, and gives back to it.
use libcopp.Base.{ℕ, ◌+◌, ◌%◌, ◌≤◌, ◌<◌, ◌≡◌, ◌≢◌, ◌⊎◌, arith, size_mod}
use libcopp.Stack.Context.{StackContext}
use libcopp.Stack.Traits.{Os, page, minimum_size, maximum_size, std_min, std_max}
use libcopp.Stack.Traits.Rounding.{page-pos, round_to_page_size_bounds}
use libcopp.Stack.Malloc.{Libc, request, allocate, deallocate}

module _ {S : Type 0} (os : Os) (libc : Libc S) where
  request_bounds :
      (n : ℕ)
      → n < size_mod
      → minimum_size os < size_mod
      → n ≤ maximum_size os
      → minimum_size os ≤ maximum_size os
      → std_max n (minimum_size os) + page os ≤ size_mod
      → (n ≤ request os libc n)
        × (minimum_size os ≤ request os libc n)
        × (request os libc n % page os ≡ 0)
  unfolding request
  request_bounds n h k fits sane room =
      let wide = std_max n (minimum_size os) in
      let uncut : std_min wide (maximum_size os) ≡ wide = ground arith in
      let bounds = round_to_page_size_bounds os wide (omega (arith, page-pos os)) in
      rw uncut (ground (arith, bounds))

  -- For a request within the system's limits: where the C library has the memory, the stack is a
  -- whole number of pages, no smaller than the request and than the system's minimum, `sp` is its
  -- end, and `deallocate` frees the very pointer that `malloc` gave. Where it has not, `sp` is null.
  pub allocate-deallocate :
      (s : S) (ctx : StackContext) (n : ℕ)
      → n < size_mod
      → minimum_size os < size_mod
      → n ≤ maximum_size os
      → minimum_size os ≤ maximum_size os
      → std_max n (minimum_size os) + page os ≤ size_mod
      → let (s', start_ptr) = libc.malloc s (request os libc n) in
        let (t, c) = allocate os libc s ctx n in
        (t ≡ s')
        × (((start_ptr ≡ 0) × (c.sp ≡ 0))
            ⊎ ((start_ptr ≢ 0)
                × (c.sp ≡ start_ptr + c.size)
                × (n ≤ c.size)
                × (minimum_size os ≤ c.size)
                × (c.size % page os ≡ 0)
                × (deallocate os libc t c ≡ libc.free s' start_ptr)))
  unfolding allocate deallocate
  allocate-deallocate s ctx n h k fits sane room =
      ground (arith, request_bounds n h k fits sane room)
