-- ===== src/Stack/Pool/Reuse.antt =====
-- Which stack `allocate` hands out again: after `deallocate`, and after `clear`.
use libcopp.Base.{
  ℕ, ◌+◌, ◌-◌, ◌≡◌, refl, sym, ap, ◌∙◌, true, false, some, List, [], ◌∷◌, ◌++◌, arith, leb, ◌==◌,
  length, length-append,
}
use libcopp.Stack.Context.{StackContext, Allocator, AllocatorLaws, is_allocated}
use libcopp.Stack.Pool.{
  StackPool, at_limit, add_size, allocate_cached, allocate, give_back, deallocate_all, clear,
}
use libcopp.Stack.Pool.Ends.{split_last, split_last-append}
use libcopp.Stack.Pool.Accounts.{total_size, IsBalanced, IsBalanced-fits}

module _ {S : Type 0} {a : Allocator S} (laws : AllocatorLaws a) where
  open laws use {IsGood, blocks, bytes, bounded, deallocate-IsGood, deallocate_takes}

  kept : StackPool S → StackContext → StackPool S
  kept p c = record p {
    limits = record (p.limits) {
      used_stack_number = p.used_stack_number - 1;
      used_stack_size = p.used_stack_size - c.size;
      free_stack_number = p.free_stack_number + 1;
      free_stack_size = p.free_stack_size + c.size;
    };
    free_list = p.free_list ++ c ∷ [];
  }

  give_back-kept :
      (p : StackPool S) (c : StackContext) (lent : List StackContext)
      → IsBalanced laws p (c ∷ lent)
      → is_allocated c ≡ true
      → c.size ≡ p.stack_size + p.stack_offset
      → give_back a p c ≡ kept p c
  unfolding give_back kept
  give_back-kept p c lent b real sized =
      let room = bounded p.alloc b.good in
      let test : (c.size == add_size p.stack_size p.stack_offset) ≡ true =
        ground (arith, room, b.all_bytes) in
      rw (real, test) (ground (arith, room))

  cached_kept :
      (p : StackPool S) (c ctx : StackContext) (lent : List StackContext)
      → IsBalanced laws p (c ∷ lent)
      → c.size ≡ p.stack_size + p.stack_offset
      → at_limit (kept p c).limits p.conf ≡ false
      → allocate a (kept p c) ctx ≡ (p, c)
  unfolding allocate kept allocate_cached
  cached_kept p c ctx lent b sized free =
      let room = bounded p.alloc b.good in
      let fits : leb p.stack_size c.size ≡ true = ground arith in
      rw (free, split_last-append p.free_list c, fits)
        (ground (arith, room, length-append p.free_list (c ∷ [])))

  -- Last in, first out: a stack of the configured size that goes back to a balanced pool is the
  -- one that the next `allocate` hands out, if the limits allow one, and the pool is then exactly
  -- what it was before.
  pub give_back-allocate :
      (p : StackPool S) (c ctx : StackContext) (lent : List StackContext)
      → IsBalanced laws p (c ∷ lent)
      → is_allocated c ≡ true
      → c.size ≡ p.stack_size + p.stack_offset
      → at_limit (give_back a p c).limits p.conf ≡ false
      → allocate a (give_back a p c) ctx ≡ (p, c)
  unfolding allocate
  give_back-allocate p c ctx lent b real sized free =
      let e = give_back-kept p c lent b real sized in
      let limit = ap (λ (q : StackPool S). at_limit q.limits p.conf) (sym e) ∙ free in
      rw e (cached_kept p c ctx lent b sized limit)

  deallocate_all-blocks :
      (s : S) (cs : List StackContext) (n m : ℕ)
      → IsGood s
      → blocks s ≡ n + length cs
      → bytes s ≡ m + total_size cs
      → IsGood (deallocate_all a s cs) × (blocks (deallocate_all a s cs) ≡ n)
  unfolding deallocate_all
  deallocate_all-blocks s [] n m g h k = (g, omega arith)
  deallocate_all-blocks s (c ∷ cs) n m g h k =
      let taken = deallocate_takes s c g (omega arith) (omega arith) in
      deallocate_all-blocks (a.deallocate s c) cs n m (deallocate-IsGood s c g)
        (omega (arith, taken)) (omega (arith, taken))

  cached_clear :
      (p : StackPool S) (ctx top : StackContext) (lent rest : List StackContext)
      → IsBalanced laws p lent
      → split_last p.free_list ≡ some (rest, top)
      → at_limit p.limits p.conf ≡ false
      → ((allocate a (clear a p) ctx).1 ≡ top)
        × ((allocate a (clear a p) ctx).0.alloc ≡ deallocate_all a p.alloc p.free_list)
  unfolding allocate clear allocate_cached at_limit
  cached_clear p ctx top lent rest b e free =
      rw (free, e, IsBalanced-fits laws p lent rest top b e) (refl, refl)

  -- `clear` frees the stacks of the free list and leaves them in it. So for every balanced pool
  -- that keeps some stack, with room below its limits, the `allocate` after a `clear` hands out
  -- the newest of the stacks that were just freed: the allocator's count of outstanding blocks
  -- is that of the stacks that were lent before, without this one.
  pub clear-allocate_dangling :
      (p : StackPool S) (ctx top : StackContext) (lent rest : List StackContext)
      → IsBalanced laws p lent
      → split_last p.free_list ≡ some (rest, top)
      → at_limit p.limits p.conf ≡ false
      → let (q, c) = allocate a (clear a p) ctx in
        (c ≡ top) × (blocks q.alloc ≡ length lent) × ¬ IsBalanced laws q (top ∷ lent)
  clear-allocate_dangling p ctx top lent rest b e free =
      let (same, freed) = cached_clear p ctx top lent rest b e free in
      let gone =
        (deallocate_all-blocks p.alloc p.free_list (length lent) (total_size lent) b.good
          b.all_blocks b.all_bytes).1 in
      let count = ap blocks freed ∙ gone in
      (same, count, λ balanced. absurd (omega (arith, count, balanced.all_blocks)))
