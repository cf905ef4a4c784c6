-- ===== src/Coroutine/Layout/Fits.antt =====
-- An accepted layout keeps its parts apart and inside the stack.
use libcopp.Base.{ℕ, ◌+◌, ◌-◌, ◌%◌, ◌≤◌, ◌<◌, ◌≡◌, refl, some, arith, size_mod}
use libcopp.Coroutine.Layout.{
  base_align, stack_align, align_private_data_size, align_address_size, align_stack_size, Request,
  Placed, stack_offset, place,
}

-- Below the last unit before 2 ^ 64 a size is rounded up to the next multiple of its unit.
pub align_stack_size_bounds :
    (sz : ℕ)
    → sz + stack_align ≤ size_mod
    → (sz ≤ align_stack_size sz)
      × (align_stack_size sz < sz + stack_align)
      × (align_stack_size sz % stack_align ≡ 0)
      × (sz ≤ align_address_size sz)
      × (align_address_size sz < sz + base_align)
      × (align_address_size sz % base_align ≡ 0)
      × (align_private_data_size sz ≡ align_address_size sz)
unfolding align_stack_size align_address_size align_private_data_size
align_stack_size_bounds sz h =
    (omega arith, omega arith, omega arith, omega arith, omega arith, omega arith, refl)

-- For every request that `create` accepts, on a stack that lies in memory: from the top of the
-- stack down come the private data, the coroutine object, and the coroutine's own stack, which is
-- not empty; no two overlap, and none leaves the memory of the stack.
pub place_fits :
    (r : Request) (q : Placed)
    → r.callee_stack.size ≤ r.callee_stack.sp
    → r.callee_stack.sp < size_mod
    → r.object_size + r.private_buffer_size < size_mod
    → r.private_buffer_size + r.coroutine_size + stack_align ≤ size_mod
    → place r ≡ some q
    → (q.priv_data + q.private_buffer_size ≡ r.callee_stack.sp)
      × (r.p + r.object_size ≤ q.priv_data)
      × (q.top ≤ r.p)
      × (r.callee_stack.sp ≡ r.callee_stack.size + (q.top - q.room))
      × (q.room ≤ q.top)
      × (0 < q.room)
unfolding place stack_offset align_stack_size
place_fits r q low high small fits e = ground arith
