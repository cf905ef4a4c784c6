-- ===== src/Coroutine/Switch.antt =====
-- The contexts of one thread, by number, and the jumps between them (coroutine_context.cpp, built
-- without fibers, segmented stacks and exceptions). `copp_jump_fcontext_v2` and
-- `copp_make_fcontext_v2` are assembly; an `FContext` says what runs on when it is jumped to. A call
-- that switches returns only when a later jump lands in its frame, with `COPP_EC_SUCCESS`.
pub mod Nested
pub mod Entering
pub mod Leaving
pub mod Runs
mod Tests
use libcopp.Base.{
  ℕ, zero, suc, Bool, true, false, not, ◌||◌, Option, none, some, ltb, leb, ◌==◌, if◌then◌else◌,
  update,
}
use libcopp.Errno.{
  CoppErrorCode, success, unknown, not_inited, already_inited, not_ready, not_running, is_running,
  already_exist, args_error, fcontext_make_failed,
}
use libcopp.Coroutine.Flags.{Bits, only, finished_bit, check_flags}
use libcopp.Coroutine.Layout.{Request, Placed, place}

-- `status_type`
pub data Status : Type 0 where
  invalid ready running finished exited : Status

abbrev pub rank : Status → ℕ
rank invalid = 0
rank ready = 1
rank running = 2
rank finished = 3
rank exited = 4

-- A machine context: a coroutine that has not begun, or a frame that waits in `jump_to`, called by
-- `start` of a coroutine from another one (or from the thread), or by `yield` of a coroutine.
pub data FContext : Type 0 where
  entry : ℕ → FContext
  in_start : Option ℕ → ℕ → FContext
  in_yield : ℕ → FContext

pub record Context : Type 0 where
  pub status : Status
  pub flags : Bits
  pub has_runner : Bool
  pub runner_ret_code : ℕ
  pub caller : Option FContext
  pub callee : Option FContext
  pub placed : Option Placed

-- The constructor.
abbrev pub new_context : Context
new_context = record {
  status = invalid;
  flags = λ _. false;
  has_runner = false;
  runner_ret_code = 0;
  caller = none;
  callee = none;
  placed = none;
}

-- `jump_src_data_t`
pub record JumpSrc : Type 0 where
  pub from_co : Option ℕ
  pub to_co : Option ℕ
  pub priv_data : ℕ

-- `this_co` is the thread's current coroutine; `delivered i` is the private data that the body of
-- `i` got last, as its runner's argument or from `yield`.
pub record World : Type 0 where
  pub ctx : ℕ → Context
  pub this_co : Option ℕ
  pub delivered : ℕ → ℕ

abbrev pub with_ctx : World → ℕ → Context → World
with_ctx w i c = record w { ctx = update w.ctx i c }

-- What a call does: it returns a code, it hands control to another frame, or it aborts.
pub data Outcome : Type 0 where
  returns : World → CoppErrorCode → Outcome
  switches : World → Outcome
  aborts : Outcome

-- `compare_exchange_strong(expected, desired)` on a status.
pub cas_status : Status → Status → Status → Bool × Status × Status
cas_status status expected desired =
    if rank status == rank expected then (true, expected, desired) else (false, status, status)

pub is_finished : Context → Bool
is_finished c = leb (rank finished) (rank c.status)

-- `check_flags(EN_CFT_FINISHED)`
pub is_marked_finished : Bits → Bool
is_marked_finished flags = check_flags flags (only finished_bit)

pub set_runner : Context → Bool → Context × CoppErrorCode
unfolding cas_status
set_runner c runner =
    let (done, seen, status) = cas_status c.status invalid ready in
    if not runner
    then (c, args_error)
    else if not done
    then (c, already_inited)
    else (record c { status = status; has_runner = true }, success)

-- `create` of context `i` on a request; `made` is whether `copp_make_fcontext_v2` succeeds.
pub create : World → ℕ → Bool → Request → Bool → World × CoppErrorCode
unfolding set_runner
create w i runner r made = elim (place r) [
  | none ↦ (w, args_error)
  | some q ↦
      let c = record ((set_runner (w.ctx i) runner).0) { placed = some q } in
      if made
      then (with_ctx w i (record c { callee = some (entry i) }), success)
      else (with_ctx w i (record c { callee = none }), fcontext_make_failed)
]

-- `set_caller` and `set_callee`, on the context of a coroutine that may be null.
pub set_caller : World → Option ℕ → FContext → World
set_caller w none f = w
set_caller w (some i) f = with_ctx w i (record (w.ctx i) { caller = some f })

pub set_callee : World → Option ℕ → FContext → World
set_callee w none f = w
set_callee w (some i) f = with_ctx w i (record (w.ctx i) { callee = some f })

abbrev pub deliver : World → ℕ → ℕ → World
deliver w i priv_data = record w { delivered = update w.delivered i priv_data }

-- The end of `start`, back in its frame.
pub after_start : World → ℕ → World
after_start w i =
    if is_marked_finished (w.ctx i).flags
    then with_ctx w i (record (w.ctx i) { status = exited })
    else w

-- What runs when a jump from the frame `back` with `src` lands in a context.
pub land : FContext → FContext → JumpSrc → World → Outcome
unfolding set_caller set_callee after_start
land (entry i) back src w = elim src.to_co [
  | none ↦ aborts
  | some j ↦ switches (
      deliver
        (record (set_callee (set_caller w (some j) back) src.from_co back) { this_co = some j }) j
        src.priv_data)
]
land (in_start from to) back src w = switches (
    after_start
      (record (set_callee (set_caller w src.to_co back) src.from_co back) { this_co = from }) to)
land (in_yield self) back src w = switches (
    deliver
      (record (set_callee (set_caller w src.to_co back) src.from_co back) { this_co = some self })
      self src.priv_data)

-- A jump through a context that was never saved is not defined.
abbrev pub jump_to : Option FContext → FContext → JumpSrc → World → Outcome
jump_to none back src w = aborts
jump_to (some f) back src w = land f back src w

-- The loop at the head of `start`: the status that it stores, or the code that it returns.
pub data Claim : Type 0 where
  claimed : Status → Claim
  refused : CoppErrorCode → Claim
  spins : Claim

pub claim : ℕ → Status → Status → Claim
unfolding cas_status
claim zero from status = spins
claim (suc fuel) from status =
    let (done, seen, now) = cas_status status from running in
    let again = claim fuel seen status in
    if ltb (rank from) (rank ready)
    then refused not_inited
    else if done
    then claimed now
    else if ltb (rank running) (rank seen)
    then refused not_ready
    else if rank seen == rank running
    then refused is_running
    else again

-- `start` of coroutine `i` by the running coroutine, or by the thread, from what it finds in
-- `callee_` and in the status; `resume` is the same.
pub start_from : World → ℕ → ℕ → Option FContext → Claim → Outcome
unfolding land
start_from w i priv_data none c = returns w not_inited
start_from w i priv_data (some f) (refused code) = returns w code
start_from w i priv_data (some f) spins = aborts
start_from w i priv_data (some f) (claimed s) =
    land f (in_start w.this_co i)
      (record { from_co = w.this_co; to_co = some i; priv_data = priv_data })
      (with_ctx w i (record (w.ctx i) { status = s }))

pub start : World → ℕ → ℕ → Outcome
unfolding claim start_from
start w i priv_data = start_from w i priv_data (w.ctx i).callee (claim 3 ready (w.ctx i).status)

-- The code that `yield` returns for the status that it found.
pub yield_code : Status → CoppErrorCode
yield_code invalid = not_inited
yield_code ready = not_running
yield_code finished = already_exist
yield_code exited = already_exist
yield_code running = unknown

-- `yield` of coroutine `i`, from what it finds in `callee_`, by its compare-exchange, and in
-- `caller_`. It leaves `jump_data.priv_data` unset, and no frame reads it: here 0.
pub yield_from : World → ℕ → Option FContext → Bool × Status × Status → Option FContext → Outcome
unfolding yield_code land
yield_from w i none r caller = returns w not_inited
yield_from w i (some _) (false, seen, now) caller = returns w (yield_code seen)
yield_from w i (some _) (true, seen, now) caller =
    jump_to caller (in_yield i) (record { from_co = some i; to_co = none; priv_data = 0 })
      (with_ctx w i (record (w.ctx i) { status = now }))

pub yield : World → ℕ → Outcome
unfolding cas_status yield_from
yield w i =
    let c = w.ctx i in
    let to_status = if is_marked_finished c.flags then finished else ready in
    yield_from w i c.callee (cas_status c.status running to_status) c.caller

-- The runner of coroutine `i` returns `ret`: the end of `coroutine_context_callback`.
pub finish : World → ℕ → ℕ → Outcome
unfolding yield
finish w i ret =
    let c = w.ctx i in
    yield
      (with_ctx w i (record c {
        runner_ret_code = if c.has_runner then ret else c.runner_ret_code;
        flags = λ j. c.flags j || only finished_bit j;
      }))
      i

-- `this_coroutine::yield`
pub this_yield : World → Outcome
unfolding yield
this_yield w = elim w.this_co [ none ↦ returns w not_running | some i ↦ yield w i ]
