-- ===== src/Stack/Pool.antt =====
-- include/libcopp/stack/stack_pool.h: the pool of stacks, one call at a time, each under the lock
-- `action_lock_` that the source takes (Lock). The allocator is the class's parameter; `size_t`
-- wraps at 2 ^ 64.
pub mod Ends
pub mod Accounts
pub mod Gc
pub mod Reuse
pub mod History
mod Tests
use libcopp.Base.{
  ℕ, ◌+◌, ◌-◌, ◌*◌, ◌/◌, ◌%◌, Bool, true, not, ◌&&◌, ◌||◌, Option, none, some, List, [], ◌∷◌, ◌++◌,
  ltb, leb, ◌==◌, if◌then◌else◌, size_mod, length,
}
use libcopp.Stack.Context.{StackContext, Allocator, is_allocated}
use libcopp.Stack.Traits.{Os, minimum_size, default_size, round_to_page_size}
use Ends.{split_last}

-- `limit_t`
pub record Limit : Type 0 where
  pub used_stack_number : ℕ
  pub used_stack_size : ℕ
  pub free_stack_number : ℕ
  pub free_stack_size : ℕ

-- `configure_t`
pub record Configure : Type 0 where
  pub stack_size : ℕ
  pub stack_offset : ℕ
  pub gc_number : ℕ
  pub max_stack_number : ℕ
  pub max_stack_size : ℕ
  pub min_stack_number : ℕ
  pub min_stack_size : ℕ
  pub auto_gc : Bool

-- `free_list` runs from the front of the list to its back.
pub record StackPool (S : Type 0) : Type 0 where
  pub limits : Limit
  pub open limits use *
  pub conf : Configure
  pub open conf use *
  pub alloc : S
  pub free_list : List StackContext

abbrev pub no_limits : Limit
no_limits = record {
  used_stack_number = 0;
  used_stack_size = 0;
  free_stack_number = 0;
  free_stack_size = 0;
}

pub create : Os → {S : Type 0} → S → StackPool S
create os s = record {
  limits = no_limits;
  conf = record {
    stack_size = default_size os;
    stack_offset = 0;
    gc_number = 0;
    max_stack_number = 0;
    max_stack_size = 0;
    min_stack_number = 0;
    min_stack_size = 0;
    auto_gc = true;
  };
  alloc = s;
  free_list = [];
}

abbrev pub no_stack : StackContext → StackContext
no_stack ctx = record { size = 0; sp = 0 }

-- `if (a > 0) --a; else a = b`, and `if (a >= b) a -= b; else a = 0`.
abbrev pub decrement_or : ℕ → ℕ → ℕ
decrement_or a b = if ltb 0 a then a - 1 else b

abbrev pub subtract : ℕ → ℕ → ℕ
subtract a b = if leb b a then a - b else 0

abbrev pub add_size : ℕ → ℕ → ℕ
add_size a b = (a + b) % size_mod

-- The two limits that `allocate` checks before it hands out a stack.
pub at_limit : Limit → Configure → Bool
at_limit l c =
    (not (c.max_stack_number == 0) && leb c.max_stack_number l.used_stack_number)
    || (not (c.max_stack_size == 0)
        && ltb c.max_stack_size (add_size l.used_stack_size c.stack_size))

-- The two tests by which `gc` returns at once.
pub gc_is_needless : Limit → Configure → Bool
gc_is_needless l c =
    (leb l.free_stack_size l.used_stack_size && leb l.free_stack_number l.used_stack_number)
    || ((not (c.min_stack_size == 0) || not (c.min_stack_number == 0))
        && ((c.min_stack_size == 0
              || leb (add_size l.used_stack_size l.free_stack_size) c.min_stack_size)
            && (c.min_stack_number == 0
                || leb (add_size l.free_stack_number l.used_stack_number) c.min_stack_number)))

-- What every stack that leaves the free list does to the limits.
abbrev pub drop_free : StackContext → ℕ → Limit → Limit
drop_free top number l = record l {
  free_stack_number = decrement_or l.free_stack_number (number - 1);
  free_stack_size = subtract l.free_stack_size top.size;
}

abbrev pub add_used : StackContext → Limit → Limit
add_used ctx l = record l {
  used_stack_number = add_size l.used_stack_number 1;
  used_stack_size = add_size l.used_stack_size ctx.size;
}

-- The setters of the configuration.
module _ {S : Type 0} (p : StackPool S) where
  pub set_max_stack_size : ℕ → StackPool S
  set_max_stack_size sz = record p { conf = record (p.conf) { max_stack_size = sz } }

  pub set_max_stack_number : ℕ → StackPool S
  set_max_stack_number sz = record p { conf = record (p.conf) { max_stack_number = sz } }

  pub set_min_stack_size : ℕ → StackPool S
  set_min_stack_size sz = record p { conf = record (p.conf) { min_stack_size = sz } }

  pub set_min_stack_number : ℕ → StackPool S
  set_min_stack_number sz = record p { conf = record (p.conf) { min_stack_number = sz } }

  pub set_auto_gc : Bool → StackPool S
  set_auto_gc v = record p { conf = record (p.conf) { auto_gc = v } }

  pub set_gc_once_number : ℕ → StackPool S
  set_gc_once_number v = record p { conf = record (p.conf) { gc_number = v } }

module _ {S : Type 0} (a : Allocator S) where
  -- The last part of `allocate`: a stack from the allocator behind the pool.
  pub allocate_origin : StackPool S → StackContext → StackPool S × StackContext
  allocate_origin p ctx =
      let (s, c) = a.allocate p.alloc ctx p.stack_size in
      if is_allocated c
      then (
        record p {
          limits = add_used c p.limits;
          conf = record (p.conf) { stack_offset = (c.size + size_mod - p.stack_size) % size_mod };
          alloc = s;
        },
        c,
      )
      else (record p { alloc = s }, c)

  -- The middle part: the newest stack of the free list, if it is large enough.
  pub allocate_cached :
      StackPool S
      → StackContext
      → Option (List StackContext × StackContext)
      → StackPool S × StackContext
  unfolding allocate_origin
  allocate_cached p ctx none = allocate_origin p ctx
  allocate_cached p ctx (some (rest, top)) =
      let l = drop_free top (length p.free_list) p.limits in
      if leb p.stack_size top.size
      then (record p { limits = add_used top l; free_list = rest }, top)
      else allocate_origin (record p { limits = l; free_list = rest }) ctx

  pub allocate : StackPool S → StackContext → StackPool S × StackContext
  unfolding at_limit allocate_cached
  allocate p ctx =
      if at_limit p.limits p.conf
      then (p, no_stack ctx)
      else allocate_cached p ctx (split_last p.free_list)

  -- The test of the loop of `gc`.
  pub is_over : ℕ → ℕ → StackPool S → Bool
  is_over keep_size keep_number p =
      ltb keep_size p.free_stack_size || ltb keep_number p.free_stack_number

  -- Its body, for the front `c` of a free list of `c` and `cs`.
  pub collect_front : StackPool S → StackContext → List StackContext → StackPool S
  collect_front p c cs = record p {
    limits = drop_free c (length (c ∷ cs)) p.limits;
    alloc = a.deallocate p.alloc c;
    free_list = cs;
  }

  -- The loop, over the free list that the pool `p` has: the pool and the count.
  pub gc_loop : ℕ → ℕ → ℕ → List StackContext → StackPool S → ℕ → StackPool S × ℕ
  unfolding is_over collect_front
  gc_loop keep_size keep_number left [] p ret =
      if is_over keep_size keep_number p
      then (
        record p { limits = record (p.limits) { free_stack_number = 0; free_stack_size = 0 } },
        ret,
      )
      else (p, ret)
  gc_loop keep_size keep_number left (c ∷ cs) p ret =
      let q = collect_front p c cs in
      let rest = gc_loop keep_size keep_number (left - 1) cs q (ret + 1) in
      if is_over keep_size keep_number p
      then (if left == 1 then (q, ret + 1) else rest)
      else (p, ret)

  pub gc : StackPool S → StackPool S × ℕ
  unfolding gc_is_needless gc_loop
  gc p =
      if gc_is_needless p.limits p.conf
      then (p, 0)
      else gc_loop (p.free_stack_size / 2) (p.free_stack_number / 2) p.gc_number p.free_list p 0

  -- The block of `deallocate` under the lock.
  pub give_back : StackPool S → StackContext → StackPool S
  give_back p ctx =
      let l = record (p.limits) {
        used_stack_size = subtract p.used_stack_size ctx.size;
        used_stack_number = decrement_or p.used_stack_number 0;
      } in
      if not (is_allocated ctx)
      then p
      else if not (ctx.size == add_size p.stack_size p.stack_offset)
      then record p { limits = l; alloc = a.deallocate p.alloc ctx }
      else record p {
        limits = record l {
          free_stack_number = add_size l.free_stack_number 1;
          free_stack_size = add_size l.free_stack_size ctx.size;
        };
        free_list = p.free_list ++ ctx ∷ [];
      }

  pub deallocate : StackPool S → StackContext → StackPool S
  unfolding give_back gc
  deallocate p ctx = let q = give_back p ctx in if q.auto_gc then (gc q).0 else q

  pub deallocate_all : S → List StackContext → S
  deallocate_all s [] = s
  deallocate_all s (c ∷ cs) = deallocate_all (a.deallocate s c) cs

  pub clear : StackPool S → StackPool S
  unfolding deallocate_all
  clear p = record p {
    limits = record (p.limits) { free_stack_number = 0; free_stack_size = 0 };
    alloc = deallocate_all p.alloc p.free_list;
  }

  pub set_stack_size : Os → StackPool S → ℕ → StackPool S × ℕ
  unfolding clear
  set_stack_size os p sz =
      let size = if leb sz (minimum_size os) then minimum_size os else round_to_page_size os sz in
      let q = if not (size == p.stack_size) then clear p else p in
      (record q { conf = record (q.conf) { stack_size = size } }, size)
