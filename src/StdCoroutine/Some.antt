-- ===== src/StdCoroutine/Some.antt =====
-- include/libcopp/coroutine/callable_promise.h: `some_delegate_base`, the wait for some of several
-- futures, which are known by number. Its coroutine is cut where it waits.
pub mod Scan
mod Tests
use libcopp.Base.{
  ℕ, zero, suc, ◌+◌, ◌-◌, ◌*◌, ◌/◌, ◌%◌, ◌^◌, ◌≤◌, ◌<◌, ◌≡◌, refl, sym, ap, ◌∙◌, subst, ◌≢◌, ◌↔◌,
  ◌⊎◌, inl, inr, Bool, true, false, not, ◌&&◌, ◌||◌, Option, none, some, List, [], ◌∷◌, ◌++◌, map,
  arith, ltb, leb, ◌==◌, if◌then◌else◌, size_mod, Bool-cases, Option-cases, length, is_empty,
  length-append, All, All-append, All-parts, All-mono, sum_by, sum_by-append, update,
}
use libcopp.StdCoroutine.Callers.{HandleDelegate, null_delegate}
use libcopp.StdCoroutine.Promise.{
  PromiseStatus, invalid, created, running, done, cancle, killed, timeout, status_rank,
}

-- `some_delegate_context`
pub record SomeContext : Type 0 where
  pub pending : List ℕ
  pub ready : List ℕ
  pub ready_bound : ℕ
  pub scan_bound : ℕ
  pub status : PromiseStatus
  pub caller_handle : HandleDelegate

-- The action type of the futures, and what is asked of the promise of the coroutine that waits: its
-- status, and its flag `kInternalWaitting`. The state of futures and promises is `W`.
pub record SomeActions (W : Type 0) : Type 0 where
  pub is_pending : W → ℕ → Bool
  pub suspend_future : W → HandleDelegate → ℕ → W
  pub resume_future : W → HandleDelegate → ℕ → W
  pub promise_status : W → ℕ → PromiseStatus
  pub set_internal_waitting : W → ℕ → Bool → W

-- The test at the head of the loop in `run`, with the status of the coroutine's own promise, and
-- whether it goes on to wait.
pub loop_head : SomeContext → PromiseStatus → SomeContext × Bool
loop_head c current_status =
    if leb (status_rank done) (status_rank c.status)
    then (c, false)
    else if leb (status_rank done) (status_rank current_status)
    then (record c { status = current_status }, false)
    else (c, true)

pub await_ready : SomeContext → Bool
await_ready c = leb (status_rank done) (status_rank c.status) || is_empty c.pending

-- The bound on ready futures: `output_size` is the size of `ready_futures`, which `run` gets.
pub clamp_count : ℕ → ℕ → ℕ → ℕ
clamp_count ready_count pending_size output_size =
    if leb (pending_size + output_size) ready_count then pending_size + output_size else ready_count

module _ {W : Type 0} (acts : SomeActions W) where
  -- The futures that are pending and the others, in order.
  pub classify : W → List ℕ → List ℕ × List ℕ
  classify w [] = ([], [])
  classify w (f ∷ l) =
      let (pending, ready) = classify w l in
      if acts.is_pending w f then (f ∷ pending, ready) else (pending, f ∷ ready)

  -- `run` up to its loop, and whether it goes on with the loop.
  pub begin_some : W → ℕ → ℕ → List ℕ → SomeContext × Bool
  unfolding classify clamp_count
  begin_some w output_size ready_count futures =
      let (pending, ready) = classify w futures in
      let c : SomeContext = record {
        pending = pending;
        ready = ready;
        ready_bound = 0;
        scan_bound = 0;
        status = created;
        caller_handle = null_delegate;
      } in
      if leb ready_count (length ready) then (c, false) else (
        record c {
          ready_bound = clamp_count ready_count (length pending) output_size;
          scan_bound = length ready;
          status = running;
        },
        true,
      )

  -- The loop of `scan_ready`: what stays pending, what is ready, and the world.
  pub scan : W → HandleDelegate → List ℕ → List ℕ × List ℕ × W
  scan w caller [] = ([], [], w)
  scan w caller (f ∷ l) = elim (acts.is_pending w f) [
    | true ↦ let (pending, ready, w') = scan w caller l in (f ∷ pending, ready, w')
    | false ↦
        let (pending, ready, w') = scan (acts.resume_future w caller f) caller l in
        (pending, f ∷ ready, w')
  ]

  pub scan_ready : SomeContext × W → SomeContext × W
  unfolding scan
  scan_ready s =
      let (c, w) = s in
      let (pending, ready, w') = scan w c.caller_handle c.pending in
      (record c { pending = pending; ready = c.ready ++ ready }, w')

  -- The caller is the coroutine `h` of the promise `p`.
  pub suspend_all : W → HandleDelegate → List ℕ → W
  suspend_all w caller [] = w
  suspend_all w caller (f ∷ l) = suspend_all (acts.suspend_future w caller f) caller l

  pub await_suspend : SomeContext × W → ℕ → ℕ → (SomeContext × W) × Bool
  unfolding suspend_all
  await_suspend s h p =
      let (c, w) = s in
      let caller : HandleDelegate = record { handle = some h; promise = some p } in
      let w' = acts.set_internal_waitting w p true in
      if leb (status_rank done) (status_rank (acts.promise_status w p))
      then (s, false)
      else elim c.caller_handle.handle [
        | none ↦ ((record c { caller_handle = caller }, suspend_all w' caller c.pending), true)
        | some k ↦ ((c, w'), true)
      ]

  pub end_waitting : W → HandleDelegate → W
  end_waitting w caller = elim caller.handle [
    | none ↦ w
    | some h ↦ elim caller.promise [ none ↦ w | some p ↦ acts.set_internal_waitting w p false ]
  ]

  -- The part of `await_resume` past the scan.
  pub count_ready : SomeContext → SomeContext
  count_ready c =
      let n = length c.ready in
      record c {
        scan_bound = n;
        status =
            if leb c.ready_bound n && ltb (status_rank c.status) (status_rank done)
            then done
            else c.status;
      }

  -- `caller` is the one that the awaitable has kept.
  pub await_resume : SomeContext × W → HandleDelegate → SomeContext × W
  unfolding scan_ready count_ready end_waitting
  await_resume s caller =
      let c = record s.0 { scan_bound = s.0.scan_bound + 1 } in
      let w = end_waitting s.1 caller in
      if leb c.ready_bound c.scan_bound
      then (let (c', w') = scan_ready (c, w) in (count_ready c', w'))
      else (c, w)

  pub resume_futures : W → HandleDelegate → List ℕ → W
  resume_futures w caller [] = w
  resume_futures w caller (f ∷ l) = resume_futures (acts.resume_future w caller f) caller l

  -- The status that a wait gets which ends before its bound is met.
  pub forced_status : W → SomeContext → PromiseStatus
  forced_status w c =
      let own : PromiseStatus = elim c.caller_handle.promise [
        | none ↦ c.status
        | some p ↦ acts.promise_status w p
      ] in
      let status = if ltb (status_rank c.status) (status_rank done) then own else c.status in
      if ltb (status_rank status) (status_rank done) then killed else status

  pub force_resume_all : SomeContext × W → SomeContext × W
  unfolding resume_futures forced_status
  force_resume_all s =
      let (c, w) = s in
      let w' = resume_futures w c.caller_handle c.pending in
      (record c { status = forced_status w' c; caller_handle = null_delegate }, w')

  -- The end of `run`: the destructor of the promise, the output and the result.
  pub end_some : SomeContext × W → (List ℕ × PromiseStatus) × W
  unfolding force_resume_all
  end_some s =
      let (c, w) = elim s.0.caller_handle.handle as (λ o. SomeContext × W) [
        | none ↦ s
        | some h ↦ force_resume_all s
      ] in
      ((c.ready, c.status), w)
