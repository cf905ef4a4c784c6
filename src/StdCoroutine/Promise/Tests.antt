-- ===== src/StdCoroutine/Promise/Tests.antt =====
-- Promise 1 of coroutine 10 waits for coroutine 20 of promise 2, which has it as its caller.
use libcopp.Base.{◌≡◌, refl, true, false, some, ◌==◌, if◌then◌else◌, update}
use libcopp.StdCoroutine.Callers.{HandleDelegate}
use libcopp.StdCoroutine.Callers.Variant.{single}
use libcopp.StdCoroutine.Promise.{
  new_promise, World, Resume, resume_waiting, resume_from, waiting_for,
}

abbrev outer : HandleDelegate
outer = record { handle = some 10; promise = some 1 }

abbrev inner : HandleDelegate
inner = record { handle = some 20; promise = some 2 }

abbrev waiting_world : World (Unit {0})
waiting_world = record {
  promises = λ i.
      if i == 1
      then record new_promise { current_waiting = inner }
      else if i == 2
      then record new_promise { caller_manager = single outer }
      else new_promise;
  is_done = λ h. false;
  others = tt;
}

-- A coroutine that ends when it is resumed.
abbrev ends : Resume (Unit {0})
ends w h = record w { is_done = update w.is_done h true }

-- The coroutine that is waited for is resumed.
resumed_inner : (resume_waiting ends waiting_world 1 outer true).is_done 20 ≡ true
unfolding resume_waiting resume_from waiting_for
resumed_inner = refl
