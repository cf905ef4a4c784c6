-- ===== src/Coroutine/Layout.antt =====
-- The sizes and offsets of `coroutine_context::create`, and the alignment of sizes. The unit sizes
-- are those of a target where max_align_t has at most 16 bytes: 16 and 64.
pub mod Fits
mod Tests
use libcopp.Base.{
  ℕ, ◌+◌, ◌-◌, ◌*◌, ◌/◌, ◌%◌, Bool, not, ◌||◌, Option, none, some, ltb, leb, ◌==◌, if◌then◌else◌,
  size_mod,
}
use libcopp.Errno.{CoppErrorCode}
use libcopp.Stack.Context.{StackContext}

abbrev pub base_align : ℕ
base_align = 16

abbrev pub stack_align : ℕ
stack_align = 64

-- `sz += mask; sz &= ~mask` for the mask of a unit, a power of two.
abbrev pub align_to : ℕ → ℕ → ℕ
align_to unit sz = (sz + (unit - 1)) % size_mod / unit * unit

pub align_private_data_size : ℕ → ℕ
align_private_data_size sz = align_to base_align sz

pub align_address_size : ℕ → ℕ
align_address_size sz = align_to base_align sz

unfoldable pub align_stack_size : ℕ → ℕ
align_stack_size sz = align_to stack_align sz

-- `sizeof(coroutine_context)` is the compiler's; the address of the object is `p`.
pub record Request : Type 0 where
  pub object_size : ℕ
  pub p : ℕ
  pub callee_stack : StackContext
  pub coroutine_size : ℕ
  pub private_buffer_size : ℕ

-- Where the parts of the stack are: the private data, and the coroutine's own stack below `top`.
pub record Placed : Type 0 where
  pub priv_data : ℕ
  pub private_buffer_size : ℕ
  pub top : ℕ
  pub room : ℕ

unfoldable pub stack_offset : Request → ℕ
unfolding align_stack_size
stack_offset r = align_stack_size ((r.private_buffer_size + r.coroutine_size) % size_mod)

-- The tests of `create` in its order. `callee_stack.sp - p` is taken only if it is positive.
unfoldable pub is_refused : Request → Bool
unfolding stack_offset
is_refused r =
    let this_offset = r.callee_stack.sp - r.p in
    (r.p == 0)
    || not (r.private_buffer_size % 8 == 0)
    || not (r.coroutine_size % 8 == 0)
    || ((r.callee_stack.sp == 0) || leb r.callee_stack.size (stack_offset r))
    || (leb r.callee_stack.sp r.p || ltb r.coroutine_size r.object_size)
    || (ltb this_offset ((r.object_size + r.private_buffer_size) % size_mod)
        || ltb (stack_offset r) this_offset)

-- `create` up to the call of `copp_make_fcontext_v2`, whose stack ends at `top` and has `room`.
unfoldable pub place : Request → Option Placed
unfolding is_refused
place r =
    if is_refused r
    then none
    else some (record {
      priv_data = r.callee_stack.sp - r.private_buffer_size;
      private_buffer_size = r.private_buffer_size;
      top = r.callee_stack.sp - stack_offset r;
      room = r.callee_stack.size - stack_offset r;
    })
