-- ===== src/Stack/Pool/Tests.antt =====
-- The pool over an allocator that counts what it has given, at concrete states.
use libcopp.Base.{
  ℕ, ◌+◌, ◌-◌, ◌≤◌, ◌<◌, ◌≡◌, refl, true, false, ◌&&◌, none, [], ◌∷◌, arith, ltb, if◌then◌else◌,
  size_mod, length,
}
use libcopp.Stack.Context.{StackContext, Allocator, AllocatorLaws, is_allocated}
use libcopp.Stack.Traits.{Os, default_size}
use libcopp.Stack.Pool.{StackPool, Configure, create, allocate, gc, clear, at_limit}
use libcopp.Stack.Pool.Accounts.{total_size, IsBalanced}
use libcopp.Stack.Pool.Reuse.{clear-allocate_dangling}
use libcopp.Stack.Pool.Ends.{split_last-append}
use libcopp.Stack.Pool.History.{Users, lend, here, next, asks, Reach-conserved}

-- The counter refuses a request that it could not count.
record Counter : Type 0 where
  blocks : ℕ
  bytes : ℕ

counter_allocate : Counter → StackContext → ℕ → Counter × StackContext
counter_allocate s ctx n =
    if ltb (s.bytes + n + 1) size_mod && ltb (s.blocks + 1) size_mod
    then (
      record { blocks = s.blocks + 1; bytes = s.bytes + n + 1 },
      record { size = n + 1; sp = s.bytes + n + 2 },
    )
    else (s, record { size = 0; sp = 0 })

abbrev counter : Allocator Counter
counter = record {
  allocate = counter_allocate;
  deallocate = λ s c. record { blocks = s.blocks - 1; bytes = s.bytes - c.size };
}

abbrev IsCounted : Counter → Type 0
IsCounted s = (s.blocks < size_mod) × (s.bytes < size_mod)

counter_allocate-IsCounted :
    (s : Counter) (c : StackContext) (n : ℕ) → IsCounted s → IsCounted (counter_allocate s c n).0
unfolding counter_allocate
counter_allocate-IsCounted s c n h = ground arith

counter_fails :
    (s : Counter) (c : StackContext) (n : ℕ)
    → is_allocated (counter_allocate s c n).1 ≡ false
    → ((counter_allocate s c n).0.blocks ≡ s.blocks) × ((counter_allocate s c n).0.bytes ≡ s.bytes)
unfolding counter_allocate is_allocated
counter_fails s c n h = ground arith

counter_gives :
    (s : Counter) (c : StackContext) (n : ℕ)
    → is_allocated (counter_allocate s c n).1 ≡ true
    → ((counter_allocate s c n).0.blocks ≡ s.blocks + 1)
      × ((counter_allocate s c n).0.bytes ≡ s.bytes + (counter_allocate s c n).1.size)
      × (n ≤ (counter_allocate s c n).1.size)
unfolding counter_allocate is_allocated
counter_gives s c n h = ground arith

counter_laws : AllocatorLaws counter
counter_laws = record {
  IsGood = IsCounted;
  blocks = λ s. s.blocks;
  bytes = λ s. s.bytes;
  bounded = λ s g. g;
  allocate-IsGood = counter_allocate-IsCounted;
  deallocate-IsGood = λ s c g. omega arith;
  allocate_fails = λ s c n g. counter_fails s c n;
  allocate_gives = λ s c n g. counter_gives s c n;
  deallocate_takes = λ s c g h k. omega arith;
}

abbrev small_conf : Configure
small_conf = record {
  stack_size = 100;
  stack_offset = 1;
  gc_number = 0;
  max_stack_number = 4;
  max_stack_size = 0;
  min_stack_number = 0;
  min_stack_size = 0;
  auto_gc = false;
}

abbrev stack_at : ℕ → StackContext
stack_at sp = record { size = 101; sp = sp }

-- One stack is lent and three are kept.
abbrev busy : StackPool Counter
busy = record {
  limits = record {
    used_stack_number = 1;
    used_stack_size = 101;
    free_stack_number = 3;
    free_stack_size = 303;
  };
  conf = small_conf;
  alloc = record { blocks = 4; bytes = 404 };
  free_list = stack_at 202 ∷ stack_at 303 ∷ stack_at 404 ∷ [];
}

busy-IsBalanced : IsBalanced counter_laws busy (stack_at 101 ∷ [])
unfolding counter_laws is_allocated
busy-IsBalanced = record {
  good = omega arith;
  used_number = refl;
  used_size = refl;
  free_number = refl;
  free_size = refl;
  reusable = ((refl, omega arith), ((refl, omega arith), ((refl, omega arith), tt)));
  all_blocks = refl;
  all_bytes = refl;
}

-- Half of the stacks that are kept stay.
gc_frees_two : (gc counter busy).1 ≡ 2
unfolding gc
gc_frees_two = refl

clear-allocate_dangling_example :
    let (q, c) = allocate counter (clear counter busy) (stack_at 0) in
    (c ≡ stack_at 404)
    × (q.alloc.blocks ≡ 1)
    × ¬ IsBalanced counter_laws q (stack_at 404 ∷ stack_at 101 ∷ [])
unfolding counter_laws at_limit
clear-allocate_dangling_example =
    clear-allocate_dangling counter_laws busy (stack_at 0) (stack_at 404) (stack_at 101 ∷ [])
      (stack_at 202 ∷ stack_at 303 ∷ []) busy-IsBalanced
      (split_last-append (stack_at 202 ∷ stack_at 303 ∷ []) (stack_at 404)) refl

abbrev linux : Os
linux = record { page_bits = 12; minsigstksz = 2048; rlim_max = none }

abbrev new_pool : StackPool Counter
new_pool = create linux (record { blocks = 0; bytes = 0 })

after_one : Users Counter
after_one = lend counter (record { pool = new_pool; lent = [] }) (stack_at 0)

linux_small : default_size linux < size_mod
unfolding default_size
linux_small = omega arith

Reach-conserved_example :
    (after_one.pool.alloc.blocks
      ≡ after_one.pool.used_stack_number + after_one.pool.free_stack_number)
    × (after_one.pool.alloc.bytes ≡ after_one.pool.used_stack_size + after_one.pool.free_stack_size)
    × (after_one.pool.used_stack_number ≡ length after_one.lent)
    × (after_one.pool.used_stack_size ≡ total_size after_one.lent)
    × (after_one.pool.free_stack_number ≡ length after_one.pool.free_list)
    × (after_one.pool.free_stack_size ≡ total_size after_one.pool.free_list)
unfolding counter_laws after_one
Reach-conserved_example =
    Reach-conserved counter_laws linux (record { blocks = 0; bytes = 0 }) after_one linux_small
      (omega arith) refl refl (next here (asks (stack_at 0)))
