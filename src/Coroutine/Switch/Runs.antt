-- ===== src/Coroutine/Switch/Runs.antt =====
-- What a thread can do with its coroutines, from the start: whoever runs creates, starts, and, when
-- it is a coroutine, yields or returns from its runner.
use libcopp.Base.{
  ℕ, ◌≡◌, refl, sym, ap, ◌∙◌, subst, ◌≢◌, ◌⊎◌, inl, inr, Bool, true, false, none, some, List, [],
  ◌∷◌, arith, ◌==◌, Bool-cases, Option-cases,
}
use mathlib.Core.Path.{ap₂}
use libcopp.Coroutine.Flags.{finished_bit}
use libcopp.Coroutine.Flags.Reserved.{check_flags-only}
use libcopp.Errno.{CoppErrorCode, is_running as err_is_running, not_inited, not_ready}
use libcopp.Coroutine.Layout.{Request, place}
use libcopp.Coroutine.Switch.{
  Status, invalid, ready, running, finished, exited, FContext, Context, new_context, World,
  with_ctx, cas_status, set_runner, create, Outcome, returns, switches, aborts, is_marked_finished,
  Claim, claim, start_from, start, yield, finish,
}
use libcopp.Coroutine.Switch.Nested.{elem, top, IsIdle, Nested, Chain-mono, elem-false}
use libcopp.Coroutine.Switch.Entering.{start-Nested}
use libcopp.Coroutine.Switch.Leaving.{yield-Nested, finish-Nested}

-- A thread with no coroutine yet.
abbrev pub new_world : World
new_world = record { ctx = λ i. new_context; this_co = none; delivered = λ i. 0 }

-- `create` and `set_runner` are for a context that does not run.
pub data Reach : World → Type 0 where
  begins : Reach new_world
  creates :
      {w : World} (i : ℕ) (runner : Bool) (r : Request) (made : Bool)
      → Reach w
      → (w.ctx i).status ≢ running
      → Reach (create w i runner r made).0
  sets_runner :
      {w : World} (i : ℕ) (runner : Bool)
      → Reach w
      → (w.ctx i).status ≢ running
      → Reach (with_ctx w i (set_runner (w.ctx i) runner).0)
  starts : {w w' : World} (i p : ℕ) → Reach w → start w i p ≡ switches w' → Reach w'
  yields :
      {w w' : World} (i : ℕ) → Reach w → w.this_co ≡ some i → yield w i ≡ switches w' → Reach w'
  finishes :
      {w w' : World} (i ret : ℕ)
      → Reach w
      → w.this_co ≡ some i
      → finish w i ret ≡ switches w'
      → Reach w'

touch-Nested :
    (w : World) (s : List ℕ) (i : ℕ) (c : Context)
    → Nested w s
    → elem i s ≡ false
    → IsIdle i c
    → Nested (with_ctx w i c) s
touch-Nested w s i c n out idle = record {
  current = n.current;
  active =
      Chain-mono w.ctx (with_ctx w i c).ctx s
        (λ j b e a. elim (Bool-cases (i == j)) [
          | inl e' ↦ let at : i ≡ j = ground arith in absurd (ground (arith, e, out, at))
          | inr e' ↦ rw e' a
        ])
        n.active;
  idle = λ j h. elim (Bool-cases (i == j)) [
    | inl e ↦ let at : i ≡ j = ground arith in rw (e, sym at) idle
    | inr e ↦ rw e (n.idle j h)
  ];
}

set_runner-cases :
    (c : Context) (runner : Bool)
    → ((set_runner c runner).0 ≡ c)
      ⊎ (c.status ≡ invalid)
        × ((set_runner c runner).0 ≡ record c { status = ready; has_runner = true })
unfolding set_runner cas_status
set_runner-cases c runner = ground arith

set_runner-IsIdle :
    (i : ℕ) (c : Context) (runner : Bool) → IsIdle i c → IsIdle i (set_runner c runner).0
set_runner-IsIdle i c runner h = elim (set_runner-cases c runner) [
  | inl e ↦ rw e h
  | inr (e, e') ↦ rw e' (record {
    not_running = λ k. cc;
    not_finished = λ k. cc;
    unmarked = λ k. h.unmarked (λ k'. cc);
    rests = h.rests;
  })
]

pub create-Nested :
    (w : World) (s : List ℕ) (i : ℕ) (runner : Bool) (r : Request) (made : Bool)
    → Nested w s
    → (w.ctx i).status ≢ running
    → Nested (create w i runner r made).0 s
unfolding create
create-Nested w s i runner r made n h =
    let out = elem-false w s i n h in
    let idle = set_runner-IsIdle i (w.ctx i) runner (n.idle i out) in
    elim (Option-cases (place r)) [
      | inl e ↦ rw (e, create) n
      | inr (q, e) ↦ elim (Bool-cases made) [
        | inl m ↦
            rw (e, m, create)
              (touch-Nested w s i _ n out (record {
                not_running = idle.not_running;
                not_finished = idle.not_finished;
                unmarked = idle.unmarked;
                rests = λ f k. inl (ground arith);
              }))
        | inr m ↦
            rw (e, m, create)
              (touch-Nested w s i _ n out (record {
                not_running = idle.not_running;
                not_finished = idle.not_finished;
                unmarked = idle.unmarked;
                rests = λ f k. absurd (ground arith);
              }))
      ]
    ]

start_refused :
    (w : World) (i p : ℕ) (st : Status) (f : FContext) (code : CoppErrorCode)
    → (w.ctx i).callee ≡ some f
    → (w.ctx i).status ≡ st
    → claim 3 ready st ≡ Claim.refused code
    → start w i p ≡ returns w code
unfolding start start_from
start_refused w i p st f code e r c = ap₂ (start_from w i p) e (ap (claim 3 ready) r ∙ c)

-- What a `start` of `i` with private data `p` in a nested world does.
pub data Started (w : World) (s : List ℕ) (i p : ℕ) : Type 0 where
  runs :
      (w' : World)
      → start w i p ≡ switches w'
      → Nested w' (i ∷ s)
      → w'.delivered i ≡ p
      → (w.ctx i).status ≡ ready
      → Started w s i p
  is_without_context :
      start w i p ≡ returns w not_inited → (w.ctx i).callee ≡ none → Started w s i p
  is_without_runner :
      start w i p ≡ returns w not_inited → (w.ctx i).status ≡ invalid → Started w s i p
  is_on_stack :
      start w i p ≡ returns w err_is_running → (w.ctx i).status ≡ running → Started w s i p
  has_exited : start w i p ≡ returns w not_ready → (w.ctx i).status ≡ exited → Started w s i p

start-by :
    (w : World) (s : List ℕ) (i p : ℕ) (f : FContext) (st : Status)
    → Nested w s
    → (w.ctx i).callee ≡ some f
    → (w.ctx i).status ≡ st
    → Started w s i p
unfolding claim
start-by w s i p f invalid n e r =
    is_without_runner (start_refused w i p invalid f not_inited e r refl) r
start-by w s i p f ready n e r =
    let (w', go, n', d) = start-Nested w s i n p f e r in runs w' go n' d r
start-by w s i p f running n e r =
    is_on_stack (start_refused w i p running f err_is_running e r refl) r
start-by w s i p f finished n e r =
    absurd ((n.idle i (elem-false w s i n (λ h. cc))).not_finished r)
start-by w s i p f exited n e r = has_exited (start_refused w i p exited f not_ready e r refl) r

-- Every `start` of a context in a nested world does one of these, whatever its status.
pub start-total : (w : World) (s : List ℕ) (i p : ℕ) → Nested w s → Started w s i p
unfolding start start_from
start-total w s i p n = elim (Option-cases (w.ctx i).callee) [
  | inl e ↦ is_without_context (ap (λ o. start_from w i p o (claim 3 ready (w.ctx i).status)) e) e
  | inr (f, e) ↦ start-by w s i p f (w.ctx i).status n e refl
]

pub new_world-Nested : Nested new_world []
unfolding is_marked_finished
new_world-Nested = record {
  current = refl;
  active = tt;
  idle = λ j h. record {
    not_running = λ k. cc;
    not_finished = λ k. cc;
    unmarked = λ k. check_flags-only (λ i. false) finished_bit (omega arith);
    rests = λ f k. absurd cc;
  };
}

same-Nested :
    (o : Outcome) (w w' : World) (s : List ℕ)
    → o ≡ switches w
    → o ≡ switches w'
    → Nested w s
    → Nested w' s
same-Nested o w w' s e e' n = let at : w ≡ w' = cc in subst (λ x. Nested x s) at n

step-start :
    (w w' : World) (s : List ℕ) (i p : ℕ)
    → Started w s i p
    → start w i p ≡ switches w'
    → Nested w' (i ∷ s)
step-start w w' s i p (runs w'' go n d r) e = same-Nested _ w'' w' (i ∷ s) go e n
step-start w w' s i p (is_without_context go r) e = absurd cc
step-start w w' s i p (is_without_runner go r) e = absurd cc
step-start w w' s i p (is_on_stack go r) e = absurd cc
step-start w w' s i p (has_exited go r) e = absurd cc

top-cons : (s : List ℕ) (i : ℕ) → top s ≡ some i → (s' : List ℕ) × (s ≡ i ∷ s')
top-cons [] i h = absurd cc
top-cons (j ∷ s) i h = (s, cc)

step-yield :
    (w w' : World) (s : List ℕ) (i : ℕ)
    → Nested w s
    → w.this_co ≡ some i
    → yield w i ≡ switches w'
    → (s' : List ℕ) × (s ≡ i ∷ s') × Nested w' s'
step-yield w w' s i n at e =
    let (s', cons) = top-cons s i (sym n.current ∙ at) in
    let (w'', go, n', _, _) = yield-Nested w s' i (subst (Nested w) cons n) in
    (s', cons, same-Nested _ w'' w' s' go e n')

step-finish :
    (w w' : World) (s : List ℕ) (i ret : ℕ)
    → Nested w s
    → w.this_co ≡ some i
    → finish w i ret ≡ switches w'
    → (s' : List ℕ) × (s ≡ i ∷ s') × Nested w' s'
step-finish w w' s i ret n at e =
    let (s', cons) = top-cons s i (sym n.current ∙ at) in
    let (w'', go, n', _, _) = finish-Nested w s' i (subst (Nested w) cons n) ret in
    (s', cons, same-Nested _ w'' w' s' go e n')

-- In every world that a thread can reach, the coroutines that run stand on one stack.
pub Reach-Nested : (w : World) → Reach w → (s : List ℕ) × Nested w s
Reach-Nested _ begins = ([], new_world-Nested)
Reach-Nested _ (creates {w} i runner r made h k) =
    let (s, n) = Reach-Nested w h in (s, create-Nested w s i runner r made n k)
Reach-Nested _ (sets_runner {w} i runner h k) =
    let (s, n) = Reach-Nested w h in
    let out = elem-false w s i n k in
    (s, touch-Nested w s i _ n out (set_runner-IsIdle i (w.ctx i) runner (n.idle i out)))
Reach-Nested w' (starts {w} i p h e) =
    let (s, n) = Reach-Nested w h in (i ∷ s, step-start w w' s i p (start-total w s i p n) e)
Reach-Nested w' (yields {w} i h at e) =
    let (s, n) = Reach-Nested w h in let (s', cons, n') = step-yield w w' s i n at e in (s', n')
Reach-Nested w' (finishes {w} i ret h at e) =
    let (s, n) = Reach-Nested w h in
    let (s', cons, n') = step-finish w w' s i ret n at e in (s', n')

Started-aborts : (w : World) (s : List ℕ) (i p : ℕ) → Started w s i p → start w i p ≢ aborts
Started-aborts w s i p (runs w' go n d r) e = cc
Started-aborts w s i p (is_without_context go r) e = cc
Started-aborts w s i p (is_without_runner go r) e = cc
Started-aborts w s i p (is_on_stack go r) e = cc
Started-aborts w s i p (has_exited go r) e = cc

-- In a world that a thread can reach no call aborts: a `start` of any context, and a `yield` or a
-- return by the coroutine that runs.
pub Reach-progress :
    (w : World) (i p : ℕ)
    → Reach w
    → (start w i p ≢ aborts)
      × (w.this_co ≡ some i → (w' : World) × (yield w i ≡ switches w') × Reach w')
      × (w.this_co ≡ some i → (w' : World) × (finish w i p ≡ switches w') × Reach w')
Reach-progress w i p h =
    let (s, n) = Reach-Nested w h in
    (
      Started-aborts w s i p (start-total w s i p n),
      (λ at.
          let (s', cons) = top-cons s i (sym n.current ∙ at) in
          let (w', go, _, _, _) = yield-Nested w s' i (subst (Nested w) cons n) in
          (w', go, yields i h at go)),
      (λ at.
          let (s', cons) = top-cons s i (sym n.current ∙ at) in
          let (w', go, _, _, _) = finish-Nested w s' i (subst (Nested w) cons n) p in
          (w', go, finishes i p h at go)),
    )
