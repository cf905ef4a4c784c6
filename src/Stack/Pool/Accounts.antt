-- ===== src/Stack/Pool/Accounts.antt =====
-- The books of the pool: what its limits say, against the stacks that it has lent and keeps.
use libcopp.Base.{
  ℕ, ◌+◌, ◌≤◌, ◌<◌, ◌≡◌, refl, ap, ◌∙◌, subst, ◌⊎◌, inl, inr, true, false, Option, none, some, List,
  [], ◌∷◌, ◌++◌, arith, leb, ◌==◌, size_mod, Bool-cases, length, length-append, All, All-append,
  sum_by, sum_by-append,
}
use libcopp.Stack.Context.{StackContext, Allocator, AllocatorLaws, is_allocated}
use libcopp.Stack.Pool.{
  StackPool, at_limit, add_size, allocate_origin, allocate_cached, allocate, give_back,
}
use libcopp.Stack.Pool.Ends.{split_last, split_last-some}

abbrev pub total_size : List StackContext → ℕ
total_size = sum_by (λ c. c.size)

-- A stack that the free list may hold: allocated, and large enough for the next user.
abbrev pub IsReusable : ℕ → StackContext → Type 0
IsReusable n c = (is_allocated c ≡ true) × (n ≤ c.size)

module _ {S : Type 0} {a : Allocator S} (laws : AllocatorLaws a) where
  open laws use {
    IsGood, blocks, bytes, bounded, allocate-IsGood, deallocate-IsGood, allocate_fails,
    allocate_gives, deallocate_takes,
  }

  -- The pool `p` while its users hold the stacks `lent`.
  pub record IsBalanced (p : StackPool S) (lent : List StackContext) : Type 0 where
    pub good : IsGood p.alloc
    pub used_number : p.used_stack_number ≡ length lent
    pub used_size : p.used_stack_size ≡ total_size lent
    pub free_number : p.free_stack_number ≡ length p.free_list
    pub free_size : p.free_stack_size ≡ total_size p.free_list
    pub reusable : All (IsReusable p.stack_size) p.free_list
    pub all_blocks : blocks p.alloc ≡ length lent + length p.free_list
    pub all_bytes : bytes p.alloc ≡ total_size lent + total_size p.free_list

  -- What `allocate` did: nothing was handed out, or one more stack, large enough, is lent.
  abbrev pub Allocated : ℕ → List StackContext → StackPool S × StackContext → Type 0
  Allocated n lent (q, c) =
      ((is_allocated c ≡ false) × IsBalanced q lent)
      ⊎ ((is_allocated c ≡ true) × (n ≤ c.size) × IsBalanced q (c ∷ lent))

  allocate_origin-IsBalanced :
      (p : StackPool S) (ctx : StackContext) (lent : List StackContext)
      → IsBalanced p lent
      → Allocated p.stack_size lent (allocate_origin a p ctx)
  unfolding allocate_origin
  allocate_origin-IsBalanced p ctx lent b =
      let good = allocate-IsGood p.alloc ctx p.stack_size b.good in
      elim (Bool-cases (is_allocated (a.allocate p.alloc ctx p.stack_size).1)) [
        | inl e ↦
            let given = allocate_gives p.alloc ctx p.stack_size b.good e in
            rw (e, allocate_origin)
              (inr (
                e,
                given.2,
                record {
                  good = good;
                  used_number = ground (arith, bounded _ good, given);
                  used_size = ground (arith, bounded _ good, given);
                  free_number = b.free_number;
                  free_size = b.free_size;
                  reusable = b.reusable;
                  all_blocks = omega (arith, given.0, b.all_blocks);
                  all_bytes = omega (arith, given.1, b.all_bytes);
                },
              ))
        | inr e ↦
            let failed = allocate_fails p.alloc ctx p.stack_size b.good e in
            rw (e, allocate_origin)
              (inl (
                e,
                record {
                  good = good;
                  used_number = b.used_number;
                  used_size = b.used_size;
                  free_number = b.free_number;
                  free_size = b.free_size;
                  reusable = b.reusable;
                  all_blocks = failed.0 ∙ b.all_blocks;
                  all_bytes = failed.1 ∙ b.all_bytes;
                },
              ))
      ]

  IsBalanced-IsReusable :
      (p : StackPool S) (rest : List StackContext) (top : StackContext)
      → All (IsReusable p.stack_size) (rest ++ top ∷ [])
      → All (IsReusable p.stack_size) rest × IsReusable p.stack_size top
  IsBalanced-IsReusable p [] top h = (tt, h.0)
  IsBalanced-IsReusable p (c ∷ rest) top h =
      let r = IsBalanced-IsReusable p rest top h.1 in ((h.0, r.0), r.1)

  -- The newest stack of the free list is always large enough for the next user.
  pub IsBalanced-fits :
      (p : StackPool S) (lent rest : List StackContext) (top : StackContext)
      → IsBalanced p lent
      → split_last p.free_list ≡ some (rest, top)
      → leb p.stack_size top.size ≡ true
  IsBalanced-fits p lent rest top b e =
      let whole = split_last-some p.free_list rest top e in
      let ready =
        (IsBalanced-IsReusable p rest top
          (subst (All (IsReusable p.stack_size)) whole b.reusable)).1 in
      ground (arith, ready)

  allocate_cached-IsBalanced :
      (p : StackPool S) (ctx : StackContext) (lent : List StackContext)
      → IsBalanced p lent
      → (o : Option (List StackContext × StackContext)) → split_last p.free_list ≡ o
      → Allocated p.stack_size lent (allocate_cached a p ctx o)
  unfolding allocate_cached
  allocate_cached-IsBalanced p ctx lent b none e = allocate_origin-IsBalanced p ctx lent b
  allocate_cached-IsBalanced p ctx lent b (some (rest, top)) e =
      let whole = split_last-some p.free_list rest top e in
      let long = ap length whole ∙ length-append rest (top ∷ []) in
      let heavy = ap total_size whole ∙ sum_by-append (λ c. c.size) rest (top ∷ []) in
      let (kept, ready) =
        IsBalanced-IsReusable p rest top (subst (All (IsReusable p.stack_size)) whole b.reusable) in
      let fits = IsBalanced-fits p lent rest top b e in
      let room = bounded p.alloc b.good in
      rw (fits, allocate_cached)
        (inr (
          ready.0,
          ready.1,
          record {
            good = b.good;
            used_number = ground (arith, room, long, b.all_blocks);
            used_size = ground (arith, room, heavy, b.all_bytes);
            free_number = ground (arith, long);
            free_size = ground (arith, heavy);
            reusable = kept;
            all_blocks = omega (arith, long, b.all_blocks);
            all_bytes = omega (arith, heavy, b.all_bytes);
          },
        ))

  -- For a balanced pool `allocate` either hands out nothing and leaves the books as they are, or
  -- it lends one more stack of at least `stack_size` bytes; the books balance again either way.
  pub allocate-IsBalanced :
      (p : StackPool S) (ctx : StackContext) (lent : List StackContext)
      → IsBalanced p lent
      → Allocated p.stack_size lent (allocate a p ctx)
  unfolding allocate is_allocated
  allocate-IsBalanced p ctx lent b = elim (Bool-cases (at_limit p.limits p.conf)) [
    | inl e ↦ rw (e, allocate) (inl (refl, b))
    | inr e ↦ rw (e, allocate) (allocate_cached-IsBalanced p ctx lent b _ refl)
  ]

  -- The stack `c` comes back: it was lent, as one of the stacks before, between and after.
  pub give_back-IsBalanced :
      (p : StackPool S) (c : StackContext) (before after : List StackContext)
      → p.stack_size + p.stack_offset < size_mod
      → is_allocated c ≡ true
      → IsBalanced p (before ++ c ∷ after)
      → IsBalanced (give_back a p c) (before ++ after)
  unfolding give_back
  give_back-IsBalanced p c before after small real b =
      let long = length-append before (c ∷ after) in
      let heavy = sum_by-append (λ c. c.size) before (c ∷ after) in
      let shorter = length-append before after in
      let lighter = sum_by-append (λ c. c.size) before after in
      let taken =
        deallocate_takes p.alloc c b.good (omega (arith, b.all_blocks))
          (omega (arith, b.all_bytes)) in
      let good = deallocate-IsGood p.alloc c b.good in
      let room = bounded p.alloc b.good in
      let more = length-append p.free_list (c ∷ []) in
      let heavier = sum_by-append (λ c. c.size) p.free_list (c ∷ []) in
      elim (Bool-cases (c.size == add_size p.stack_size p.stack_offset)) [
        | inl e ↦
            rw (real, e, give_back)
              (record {
                good = b.good;
                used_number = ground (arith, long, shorter);
                used_size = ground (arith, heavy, lighter);
                free_number = ground (arith, room, more, long);
                free_size = ground (arith, room, heavier, heavy);
                reusable = All-append _ p.free_list (c ∷ []) b.reusable ((real, ground arith), tt);
                all_blocks = omega (arith, long, shorter, more, b.all_blocks);
                all_bytes = omega (arith, heavy, lighter, heavier, b.all_bytes);
              })
        | inr e ↦
            rw (real, e, give_back)
              (record {
                good = good;
                used_number = ground (arith, long, shorter);
                used_size = ground (arith, heavy, lighter);
                free_number = b.free_number;
                free_size = b.free_size;
                reusable = b.reusable;
                all_blocks = omega (arith, long, shorter, taken, b.all_blocks);
                all_bytes = omega (arith, heavy, lighter, taken, b.all_bytes);
              })
      ]
