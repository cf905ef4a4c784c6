-- ===== src/Stack/Pool/Gc.antt =====
-- What `gc` does to a balanced pool.
use libcopp.Base.{
  ℕ, ◌+◌, ◌-◌, ◌/◌, ◌≤◌, ◌<◌, ◌≡◌, refl, ap, ◌∙◌, subst, ◌⊎◌, inl, inr, true, false, List, [], ◌∷◌,
  ◌++◌, arith, ◌==◌, size_mod, Bool-cases, length, All,
}
use native.Mathlib.Nat.{zero-add}
use libcopp.Stack.Context.{StackContext, Allocator, AllocatorLaws, is_allocated}
use libcopp.Stack.Pool.{
  StackPool, is_over, collect_front, gc_loop, gc_is_needless, gc, give_back, deallocate,
}
use libcopp.Stack.Pool.Accounts.{total_size, IsReusable, IsBalanced, give_back-IsBalanced}

give_back-conf :
    {S : Type 0} (a : Allocator S) (p : StackPool S) (c : StackContext)
    → (give_back a p c).conf ≡ p.conf
unfolding give_back
give_back-conf a p c = ground arith

module _ {S : Type 0} {a : Allocator S} (laws : AllocatorLaws a) where
  open laws use {deallocate-IsGood, deallocate_takes}

  collect_front-IsBalanced :
      (p : StackPool S) (lent : List StackContext) (c : StackContext) (cs : List StackContext)
      → IsBalanced laws p lent
      → p.free_list ≡ c ∷ cs
      → IsBalanced laws (collect_front a p c cs) lent
  unfolding collect_front
  collect_front-IsBalanced p lent c cs b e =
      let long = ap length e in
      let heavy = ap total_size e in
      let taken =
        deallocate_takes p.alloc c b.good (omega (arith, b.all_blocks))
          (omega (arith, b.all_bytes)) in
      record {
        good = deallocate-IsGood p.alloc c b.good;
        used_number = b.used_number;
        used_size = b.used_size;
        free_number = ground (arith, long, b.free_number);
        free_size = ground (arith, heavy, b.free_size);
        reusable = (subst (All (IsReusable p.stack_size)) e b.reusable).1;
        all_blocks = omega (arith, long, taken, b.all_blocks);
        all_bytes = omega (arith, heavy, taken, b.all_bytes);
      }

  is_over-false :
      (ks kn : ℕ) (p : StackPool S)
      → is_over a ks kn p ≡ false
      → (p.free_stack_size ≤ ks) × (p.free_stack_number ≤ kn)
  unfolding is_over
  is_over-false ks kn p h = ground arith

  not_over :
      (ks kn : ℕ) (p : StackPool S)
      → p.free_stack_size ≡ 0
      → p.free_stack_number ≡ 0
      → is_over a ks kn p ≡ false
  unfolding is_over
  not_over ks kn p h k = ground arith

  -- The loop from `p` to `q`, after `n` rounds, with `left` rounds allowed (0 for any number).
  pub record Collected (keep_size keep_number left n : ℕ) (p q : StackPool S) : Type 0 where
    pub gone : List StackContext
    pub from_front : p.free_list ≡ gone ++ q.free_list
    pub counted : n ≡ length gone
    pub same_conf : q.conf ≡ p.conf
    pub enough :
        ((q.free_stack_size ≤ keep_size) × (q.free_stack_number ≤ keep_number))
        ⊎ ((0 < left) × (n ≡ left))
    pub few : (left ≡ 0) ⊎ (n ≤ left)

  -- What the loop returns, seen from round `ret`.
  abbrev Runs : ℕ → ℕ → ℕ → List StackContext → StackPool S → ℕ → StackPool S × ℕ → Type 0
  Runs keep_size keep_number left lent p ret (q, count) =
      (n : ℕ) × (count ≡ ret + n)
      × IsBalanced laws q lent
      × Collected keep_size keep_number left n p q

  stops :
      (ks kn left : ℕ) (lent : List StackContext) (p : StackPool S) (ret : ℕ)
      → IsBalanced laws p lent
      → is_over a ks kn p ≡ false
      → Runs ks kn left lent p ret (p, ret)
  stops ks kn left lent p ret b h = (
    0,
    omega arith,
    b,
    record {
      gone = [];
      from_front = refl;
      counted = refl;
      same_conf = refl;
      enough = inl (is_over-false ks kn p h);
      few = inr (omega arith);
    },
  )

  gc_loop-Runs :
      (ks kn left : ℕ) (lent l : List StackContext) (p : StackPool S) (ret : ℕ)
      → IsBalanced laws p lent
      → p.free_list ≡ l
      → Runs ks kn left lent p ret (gc_loop a ks kn left l p ret)
  unfolding gc_loop
  gc_loop-Runs ks kn left lent [] p ret b e =
      let done = not_over ks kn p (b.free_size ∙ ap total_size e) (b.free_number ∙ ap length e) in
      rw (done, gc_loop) (stops ks kn left lent p ret b done)
  gc_loop-Runs ks kn left lent (c ∷ cs) p ret b e =
      let b' = collect_front-IsBalanced p lent c cs b e in
      let q = collect_front a p c cs in
      elim (Bool-cases (is_over a ks kn p)) [
        | inr done ↦ rw (done, gc_loop) (stops ks kn left lent p ret b done)
        | inl more ↦ elim (Bool-cases (left == 1)) [
          | inl last ↦
              rw (more, last, gc_loop)
                (
                  1,
                  refl,
                  b',
                  record {
                    gone = c ∷ [];
                    from_front = e;
                    counted = refl;
                    same_conf = refl;
                    enough = inr (ground arith, ground arith);
                    few = ground arith;
                  },
                )
          | inr again ↦
              let (n, count, b'', r) = gc_loop-Runs ks kn (left - 1) lent cs q (ret + 1) b' refl in
              rw (more, again, gc_loop)
                (
                  n + 1,
                  omega (arith, count),
                  b'',
                  record {
                    gone = c ∷ r.gone;
                    from_front = e ∙ ap (◌∷◌ c) r.from_front;
                    counted = omega (arith, r.counted);
                    same_conf = r.same_conf;
                    enough = ground (arith, r.enough);
                    few = ground (arith, r.few);
                  },
                )
        ]
      ]

  -- `gc` on a balanced pool: it either returns 0 at once, by its two tests, or frees stacks from
  -- the front of the free list, returns how many, stays within `gc_number` if that is not 0, and
  -- stops only there or when the stacks that are left are at most half of those before, in number
  -- and in bytes. The configuration stays and the books balance again.
  pub gc-IsBalanced :
      (p : StackPool S) (lent : List StackContext)
      → IsBalanced laws p lent
      → IsBalanced laws (gc a p).0 lent
        × ((gc_is_needless p.limits p.conf ≡ true) × (gc a p ≡ (p, 0))
            ⊎ Collected
                (p.free_stack_size / 2)
                (p.free_stack_number / 2)
                p.gc_number
                (gc a p).1
                p
                (gc a p).0)
  unfolding gc
  gc-IsBalanced p lent b =
      let (n, count, b', r) =
        gc_loop-Runs (p.free_stack_size / 2) (p.free_stack_number / 2) p.gc_number lent p.free_list
          p 0 b refl in
      elim (Bool-cases (gc_is_needless p.limits p.conf)) [
        | inl e ↦ rw (e, gc) (b, inl (refl, refl))
        | inr e ↦ rw (e, gc) (b', inr (rw (count, zero-add) r))
      ]

  pub gc-conf :
      (p : StackPool S) (lent : List StackContext)
      → IsBalanced laws p lent
      → (gc a p).0.conf ≡ p.conf
  gc-conf p lent b = elim (gc-IsBalanced p lent b).1 [ inl (_, e) ↦ rw e | inr r ↦ r.same_conf ]

  -- A user of a balanced pool gives the stack `c` back, which he holds among others: the books
  -- balance again, without `c`, whether the stack is kept or freed and whether `gc` runs or not.
  pub deallocate-IsBalanced :
      (p : StackPool S) (c : StackContext) (before after : List StackContext)
      → p.stack_size + p.stack_offset < size_mod
      → is_allocated c ≡ true
      → IsBalanced laws p (before ++ c ∷ after)
      → IsBalanced laws (deallocate a p c) (before ++ after) × ((deallocate a p c).conf ≡ p.conf)
  unfolding deallocate
  deallocate-IsBalanced p c before after small real b =
      let q = give_back a p c in
      let b' = give_back-IsBalanced laws p c before after small real b in
      let same = give_back-conf a p c in
      elim (Bool-cases q.auto_gc) [
        | inl e ↦
            rw (e, deallocate)
              ((gc-IsBalanced q (before ++ after) b').0, gc-conf q (before ++ after) b' ∙ same)
        | inr e ↦ rw (e, deallocate) (b', same)
      ]
