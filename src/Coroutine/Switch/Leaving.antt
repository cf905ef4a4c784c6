-- ===== src/Coroutine/Switch/Leaving.antt =====
-- What `yield` and the end of a runner do to the stack of running coroutines.
use libcopp.Base.{
  ℕ, ◌≡◌, refl, sym, ap, ◌∙◌, subst, ◌≢◌, inl, inr, true, false, ◌||◌, Option, none, some, List,
  ◌∷◌, arith, ◌==◌, if◌then◌else◌, Bool-cases, Option-cases,
}
use mathlib.Core.Path.{ap₂}
use libcopp.Coroutine.Flags.{only, finished_bit}
use libcopp.Coroutine.Flags.Reserved.{check_flags-only}
use libcopp.Coroutine.Switch.{
  Status, ready, running, finished, exited, in_start, in_yield, Context, World, with_ctx,
  cas_status, set_callee, switches, is_marked_finished, yield_from, yield, finish, after_start,
}
use libcopp.Coroutine.Switch.Nested.{top, IsActive, IsIdle, Nested, Chain-mono}

-- The coroutine on top has stopped, and no other context has changed.
parked-Nested :
    (w w' : World) (s : List ℕ) (i : ℕ)
    → Nested w (i ∷ s)
    → w'.this_co ≡ top s
    → IsIdle i (w'.ctx i)
    → ((j : ℕ) → (j == i) ≡ false → w'.ctx j ≡ w.ctx j)
    → Nested w' s
parked-Nested w w' s i n cur idle same =
    let (out, _, rest) = n.active in
    record {
      current = cur;
      active =
          Chain-mono w.ctx w'.ctx s
            (λ j b el a. subst (IsActive b j) (sym (same j (ground (arith, out)))) a) rest;
      idle = λ j h. elim (Bool-cases (j == i)) [
        | inl e ↦ let at : j ≡ i = ground arith in rw at idle
        | inr e ↦ subst (IsIdle j) (sym (same j e)) (n.idle j (rw e h))
      ];
    }

-- Where `yield` of a running coroutine lands, in the `start` that `below` called.
left : Option ℕ → World → ℕ → Status → World
unfolding set_callee
left below w i status =
    let c = record (w.ctx i) { status = status } in
    after_start (record (set_callee (with_ctx w i c) (some i) (in_yield i)) { this_co = below }) i

yield-left :
    (w : World) (i : ℕ) (below : Option ℕ) (status : Status)
    → (w.ctx i).callee ≢ none
    → (w.ctx i).status ≡ running
    → (w.ctx i).caller ≡ some (in_start below i)
    → (if is_marked_finished (w.ctx i).flags then finished else ready) ≡ status
    → yield w i ≡ switches (left below w i status)
unfolding yield left
yield-left w i below status h r c t = elim (Option-cases (w.ctx i).callee) [
  | inl e ↦ absurd (h e)
  | inr (f, e) ↦
      let to = if is_marked_finished (w.ctx i).flags then finished else ready in
      let won : cas_status (w.ctx i).status running to ≡ (true, running, status) =
        ap₂ (λ x y. cas_status x running y) r t in
      ap (λ o. yield_from w i o (cas_status (w.ctx i).status running to) (w.ctx i).caller) e
      ∙ ap₂ (yield_from w i (some f)) won c
]

left_others :
    (b : Option ℕ) (w : World) (i : ℕ) (st : Status) (j : ℕ)
    → (j == i) ≡ false
    → (left b w i st).ctx j ≡ w.ctx j
unfolding left after_start
left_others b w i st j h = ground arith

left_self :
    (b : Option ℕ) (w : World) (i : ℕ) (st : Status)
    → (left b w i st).ctx i ≡ record (w.ctx i) {
      status = if is_marked_finished (w.ctx i).flags then exited else st;
      callee = some (in_yield i);
    }
unfolding left after_start
left_self b w i st = ground arith

left_current : (b : Option ℕ) (w : World) (i : ℕ) (st : Status) → (left b w i st).this_co ≡ b
unfolding left after_start
left_current b w i st = ground arith

-- The context of a runner that returned `ret`.
marked : Context → ℕ → Context
marked c ret = record c {
  runner_ret_code = if c.has_runner then ret else c.runner_ret_code;
  flags = λ j. c.flags j || only finished_bit j;
}

marked-code :
    (c : Context) (ret : ℕ)
    → (marked c ret).runner_ret_code ≡ (if c.has_runner then ret else c.runner_ret_code)
unfolding marked
marked-code c ret = refl

marked-is_marked_finished : (c : Context) (ret : ℕ) → is_marked_finished (marked c ret).flags ≡ true
unfolding marked is_marked_finished
marked-is_marked_finished c ret =
    check_flags-only (λ j. c.flags j || only finished_bit j) finished_bit (omega arith)
    ∙ ground arith

with_ctx_self : (w : World) (i : ℕ) (c : Context) → (with_ctx w i c).ctx i ≡ c
with_ctx_self w i c = ground arith

finish-left :
    (w : World) (i ret : ℕ) (below : Option ℕ)
    → (w.ctx i).callee ≢ none
    → (w.ctx i).status ≡ running
    → (w.ctx i).caller ≡ some (in_start below i)
    → finish w i ret ≡ switches (left below (with_ctx w i (marked (w.ctx i) ret)) i finished)
unfolding finish marked
finish-left w i ret below h r c =
    let v = with_ctx w i (marked (w.ctx i) ret) in
    let at = with_ctx_self w i (marked (w.ctx i) ret) in
    let done =
      ap (λ (x : Context). is_marked_finished x.flags) at
      ∙ marked-is_marked_finished (w.ctx i) ret in
    yield-left v i below finished (ground (arith, at)) (ground (arith, at)) (ground (arith, at))
      (rw done)

module _ (w : World) (s : List ℕ) (i : ℕ) (n : Nested w (i ∷ s)) where
  -- The running coroutine yields: control is back in the `start` of the next one on the stack, or
  -- of the thread, and the coroutine is ready to be started again from its `yield`.
  pub yield-Nested :
      (w' : World) × (yield w i ≡ switches w')
      × Nested w' s
      × ((w'.ctx i).status ≡ ready)
      × ((w'.ctx i).callee ≡ some (in_yield i))
  yield-Nested =
      let a = n.active.1 in
      let w' = left (top s) w i ready in
      let self : (w'.ctx i) ≡ record (w.ctx i) { status = ready; callee = some (in_yield i) } =
        rw (left_self (top s) w i ready, a.unmarked) in
      let idle : IsIdle i (w'.ctx i) = rw self (record {
        not_running = λ h. cc;
        not_finished = λ h. cc;
        unmarked = λ h. a.unmarked;
        rests = λ f e. inr (ground arith);
      }) in
      (
        w',
        yield-left w i (top s) ready a.saved a.is_running a.back (rw a.unmarked),
        parked-Nested w w' s i n (left_current (top s) w i ready) idle
            (left_others (top s) w i ready),
        ap (λ c. c.status) self,
        ap (λ c. c.callee) self,
      )

  -- The runner of the running coroutine returns: control is back in the `start` of the next one on
  -- the stack, or of the thread, and the coroutine has exited, with the runner's code if it had one.
  pub finish-Nested :
      (ret : ℕ)
      → (w' : World) × (finish w i ret ≡ switches w')
        × Nested w' s
        × ((w'.ctx i).status ≡ exited)
        × ((w'.ctx i).runner_ret_code
            ≡ (if (w.ctx i).has_runner then ret else (w.ctx i).runner_ret_code))
  finish-Nested ret =
      let a = n.active.1 in
      let c = marked (w.ctx i) ret in
      let v = with_ctx w i c in
      let w' = left (top s) v i finished in
      let done =
        ap (λ (x : Context). is_marked_finished x.flags) (with_ctx_self w i c)
        ∙ marked-is_marked_finished (w.ctx i) ret in
      let self : (w'.ctx i) ≡ record c { status = exited; callee = some (in_yield i) } =
        rw (left_self (top s) v i finished, done)
          (ap {A = Context} {B = Context}
            (λ (x : Context). record x { status = exited; callee = some (in_yield i) })
            (with_ctx_self w i c)) in
      let idle : IsIdle i (w'.ctx i) = rw self (record {
        not_running = λ h. cc;
        not_finished = λ h. cc;
        unmarked = λ h. absurd (h refl);
        rests = λ f e. inr (ground arith);
      }) in
      (
        w',
        finish-left w i ret (top s) a.saved a.is_running a.back,
        parked-Nested w w' s i n (left_current (top s) v i finished) idle
            (λ j h. left_others (top s) v i finished j h ∙ ground arith),
        ap (λ c. c.status) self,
        ap (λ c. c.runner_ret_code) self ∙ marked-code (w.ctx i) ret,
      )
