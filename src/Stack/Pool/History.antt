-- ===== src/Stack/Pool/History.antt =====
-- The pool with its users: any history of allocations, returns and collections.
use libcopp.Base.{
  ◌+◌, ◌≤◌, ◌<◌, ◌≡◌, refl, ap, ◌∙◌, subst, ◌⊎◌, inl, inr, true, Option, none, some, List, [], ◌∷◌,
  ◌++◌, arith, if◌then◌else◌, size_mod, Bool-cases, length, length-append, All,
}
use libcopp.Stack.Context.{StackContext, Allocator, AllocatorLaws, is_allocated}
use libcopp.Stack.Pool.{
  StackPool, allocate_origin, allocate_cached, allocate, at_limit, deallocate, gc, create,
}
use libcopp.Stack.Traits.{Os, default_size}
use libcopp.Stack.Pool.Ends.{split_last}
use libcopp.Stack.Pool.Accounts.{total_size, IsBalanced, IsBalanced-fits, allocate-IsBalanced}
use libcopp.Stack.Pool.Gc.{gc-IsBalanced, gc-conf, deallocate-IsBalanced}

-- The pool, and the stacks that its users hold.
pub record Users (S : Type 0) : Type 0 where
  pub pool : StackPool S
  pub lent : List StackContext

module _ {S : Type 0} (a : Allocator S) where
  -- A user asks for a stack, and holds it if he got one.
  pub lend : Users S → StackContext → Users S
  lend u ctx =
      let (q, c) = allocate a u.pool ctx in
      record { pool = q; lent = if is_allocated c then c ∷ u.lent else u.lent }

  pub data Step (u : Users S) : Users S → Type 0 where
    asks : (ctx : StackContext) → Step u (lend u ctx)
    returns :
        (c : StackContext) (before after : List StackContext)
        → u.lent ≡ before ++ c ∷ after
        → Step u (record { pool = deallocate a u.pool c; lent = before ++ after })
    collects : Step u (record { pool = (gc a u.pool).0; lent = u.lent })

  pub data Reach (u : Users S) : Users S → Type 0 where
    here : Reach u u
    next : {v w : Users S} → Reach u v → Step v w → Reach u w

module _ {S : Type 0} {a : Allocator S} (laws : AllocatorLaws a) where
  open laws use {IsGood, blocks, bytes, bounded, allocate-IsGood, allocate_gives}

  -- Only the origin's `allocate` changes the configuration, and only the offset.
  record SameConf (p q : StackPool S) : Type 0 where
    same_size : q.stack_size ≡ p.stack_size
    same_max : q.max_stack_number ≡ p.max_stack_number
    settled : q.stack_size + q.stack_offset < size_mod

  allocate_origin-SameConf :
      (p : StackPool S) (ctx : StackContext) (lent : List StackContext)
      → IsBalanced laws p lent
      → p.stack_size + p.stack_offset < size_mod
      → SameConf p (allocate_origin a p ctx).0
  unfolding allocate_origin
  allocate_origin-SameConf p ctx lent b h =
      let good = allocate-IsGood p.alloc ctx p.stack_size b.good in
      elim (Bool-cases (is_allocated (a.allocate p.alloc ctx p.stack_size).1)) [
        | inl e ↦
            rw (e, allocate_origin)
              (record {
                same_size = refl;
                same_max = refl;
                settled =
                    omega (arith, allocate_gives p.alloc ctx p.stack_size b.good e, bounded _ good);
              })
        | inr e ↦
            rw (e, allocate_origin) (record { same_size = refl; same_max = refl; settled = h })
      ]

  allocate_cached-SameConf :
      (p : StackPool S) (ctx : StackContext) (lent : List StackContext)
      → IsBalanced laws p lent
      → p.stack_size + p.stack_offset < size_mod
      → (o : Option (List StackContext × StackContext)) → split_last p.free_list ≡ o
      → SameConf p (allocate_cached a p ctx o).0
  unfolding allocate_cached
  allocate_cached-SameConf p ctx lent b h none e = allocate_origin-SameConf p ctx lent b h
  allocate_cached-SameConf p ctx lent b h (some (rest, top)) e =
      rw (IsBalanced-fits laws p lent rest top b e, allocate_cached)
        (record { same_size = refl; same_max = refl; settled = h })

  allocate-SameConf :
      (p : StackPool S) (ctx : StackContext) (lent : List StackContext)
      → IsBalanced laws p lent
      → p.stack_size + p.stack_offset < size_mod
      → SameConf p (allocate a p ctx).0
  unfolding allocate
  allocate-SameConf p ctx lent b h = elim (Bool-cases (at_limit p.limits p.conf)) [
    | inl e ↦ rw (e, allocate) (record { same_size = refl; same_max = refl; settled = h })
    | inr e ↦ rw (e, allocate) (allocate_cached-SameConf p ctx lent b h _ refl)
  ]

  -- A pool that is full hands out nothing.
  allocate_full :
      (p : StackPool S) (ctx : StackContext)
      → is_allocated (allocate a p ctx).1 ≡ true
      → (p.max_stack_number ≡ 0) ⊎ (p.used_stack_number < p.max_stack_number)
  unfolding allocate is_allocated
  allocate_full p ctx h = ground arith

  abbrev IsWithin : StackPool S → List StackContext → Type 0
  IsWithin p lent = (p.max_stack_number ≡ 0) ⊎ (length lent ≤ p.max_stack_number)

  -- What holds of a pool and its users after any history.
  pub record IsSound (u : Users S) : Type 0 where
    pub balanced : IsBalanced laws u.pool u.lent
    pub real : All (λ c. is_allocated c ≡ true) u.lent
    pub settled : u.pool.stack_size + u.pool.stack_offset < size_mod
    pub within : IsWithin u.pool u.lent

  lend-IsSound : (u : Users S) (ctx : StackContext) → IsSound u → IsSound (lend a u ctx)
  unfolding lend
  lend-IsSound u ctx s =
      let r = allocate-IsBalanced laws u.pool ctx u.lent s.balanced in
      let same = allocate-SameConf u.pool ctx u.lent s.balanced s.settled in
      elim r [
        | inl (e, b) ↦
            rw (e, lend)
              (record {
                balanced = b;
                real = s.real;
                settled = same.settled;
                within = rw same.same_max s.within;
              })
        | inr (e, _, b) ↦
            rw (e, lend)
              (record {
                balanced = b;
                real = (e, s.real);
                settled = same.settled;
                within =
                    rw same.same_max
                      (ground (arith, allocate_full u.pool ctx e, s.balanced.used_number));
              })
      ]

  All-split :
      (before : List StackContext) (c : StackContext) (after : List StackContext)
      → All (λ x. is_allocated x ≡ true) (before ++ c ∷ after)
      → (is_allocated c ≡ true) × All (λ x. is_allocated x ≡ true) (before ++ after)
  All-split [] c after h = h
  All-split (b ∷ before) c after h = let r = All-split before c after h.1 in (r.0, (h.0, r.1))

  -- Every step of the pool's users keeps it sound: the books balance, every stack that is lent is
  -- a real one, and no more stacks are lent than `max_stack_number` allows.
  pub Step-IsSound : {u v : Users S} → Step a u v → IsSound u → IsSound v
  Step-IsSound {u} (asks ctx) s = lend-IsSound u ctx s
  Step-IsSound {u} (returns c before after e) s =
      let b = subst (IsBalanced laws u.pool) e s.balanced in
      let real = All-split before c after (subst (All (λ x. is_allocated x ≡ true)) e s.real) in
      let (b', same) = deallocate-IsBalanced laws u.pool c before after s.settled real.0 b in
      let counts = ap length e ∙ length-append before (c ∷ after) in
      record {
        balanced = b';
        real = real.1;
        settled = rw same s.settled;
        within = rw same (ground (arith, s.within, counts, length-append before after));
      }
  Step-IsSound {u} collects s =
      let same = gc-conf laws u.pool u.lent s.balanced in
      record {
        balanced = (gc-IsBalanced laws u.pool u.lent s.balanced).0;
        real = s.real;
        settled = rw same s.settled;
        within = rw same s.within;
      }

  Reach-IsSound : {u v : Users S} → IsSound u → Reach a u v → IsSound v
  Reach-IsSound s here = s
  Reach-IsSound s (next r st) = Step-IsSound st (Reach-IsSound s r)

  -- After any history from a new pool over an allocator that has nothing outstanding: every block
  -- that the allocator has given is either lent or in the free list, in number and in bytes, and
  -- the limits that the pool reports count exactly these.
  pub Reach-conserved :
      (os : Os) (s : S) (v : Users S)
      → default_size os < size_mod
      → IsGood s
      → blocks s ≡ 0
      → bytes s ≡ 0
      → Reach a (record { pool = create os s; lent = [] }) v
      → (blocks v.pool.alloc ≡ v.pool.used_stack_number + v.pool.free_stack_number)
        × (bytes v.pool.alloc ≡ v.pool.used_stack_size + v.pool.free_stack_size)
        × (v.pool.used_stack_number ≡ length v.lent)
        × (v.pool.used_stack_size ≡ total_size v.lent)
        × (v.pool.free_stack_number ≡ length v.pool.free_list)
        × (v.pool.free_stack_size ≡ total_size v.pool.free_list)
  unfolding create
  Reach-conserved os s v small good no_blocks no_bytes r =
      let start : IsSound (record { pool = create os s; lent = [] }) = record {
        balanced = record {
          good = good;
          used_number = refl;
          used_size = refl;
          free_number = refl;
          free_size = refl;
          reusable = tt;
          all_blocks = no_blocks;
          all_bytes = no_bytes;
        };
        real = tt;
        settled = omega arith;
        within = inl refl;
      } in
      let b = (Reach-IsSound start r).balanced in omega arith
