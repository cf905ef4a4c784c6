-- ===== src/Stack/Context.antt =====
-- include/libcopp/stack/stack_context.h and src/libcopp/stack/stack_context.cpp, built without
-- segmented stacks and valgrind. Addresses are numbers, 0 for the null pointer. An allocator is
-- a state with two operations, as the class templates of the library take it.
use libcopp.Base.{ℕ, ◌+◌, ◌≤◌, ◌<◌, ◌≡◌, Bool, ◌&&◌, not, ◌==◌, ltb, size_mod}

pub record StackContext : Type 0 where
  pub size : ℕ
  pub sp : ℕ  -- the end of the stack, which grows down

-- `stack_context::reset`, and the state that the default constructor gives.
pub reset : StackContext
reset = record { size = 0; sp = 0 }

-- Assignment by `copy_from`, then `other.reset()`: the new value and what is left in `other`.
pub move_from : StackContext → StackContext × StackContext
unfolding reset
move_from other = (record { size = other.size; sp = other.sp }, reset)

-- `nullptr != ctx.sp && ctx.size > 0`
unfoldable pub is_allocated : StackContext → Bool
is_allocated c = not (c.sp == 0) && ltb 0 c.size

-- What a stack allocator offers: `allocate(ctx, size)` fills `ctx`, `deallocate(ctx)` takes it back.
pub record Allocator (S : Type 0) : Type 0 where
  pub allocate : S → StackContext → ℕ → S × StackContext
  pub deallocate : S → StackContext → S

-- What a user of an allocator relies on: `blocks` and `bytes` count what is handed out.
pub record AllocatorLaws {S : Type 0} (a : Allocator S) : Type 1 where
  pub IsGood : S → Type 0
  pub blocks : S → ℕ
  pub bytes : S → ℕ
  pub bounded : (s : S) → IsGood s → (blocks s < size_mod) × (bytes s < size_mod)
  pub allocate-IsGood : (s : S) (c : StackContext) (n : ℕ) → IsGood s → IsGood (a.allocate s c n).0
  pub deallocate-IsGood : (s : S) (c : StackContext) → IsGood s → IsGood (a.deallocate s c)
  pub allocate_fails :
      (s : S) (c : StackContext) (n : ℕ)
      → IsGood s
      → is_allocated (a.allocate s c n).1 ≡ Bool.false
      → (blocks (a.allocate s c n).0 ≡ blocks s) × (bytes (a.allocate s c n).0 ≡ bytes s)
  pub allocate_gives :
      (s : S) (c : StackContext) (n : ℕ)
      → IsGood s
      → is_allocated (a.allocate s c n).1 ≡ Bool.true
      → (blocks (a.allocate s c n).0 ≡ blocks s + 1)
        × (bytes (a.allocate s c n).0 ≡ bytes s + (a.allocate s c n).1.size)
        × (n ≤ (a.allocate s c n).1.size)
  pub deallocate_takes :
      (s : S) (c : StackContext)
      → IsGood s
      → 0 < blocks s
      → c.size ≤ bytes s
      → (blocks (a.deallocate s c) + 1 ≡ blocks s) × (bytes (a.deallocate s c) + c.size ≡ bytes s)
