-- ===== src/StdCoroutine/Callers.antt =====
-- `promise_caller_manager`: the coroutines that wait for a promise. A handle is a number, and so is a
-- promise; null is `none`.
pub mod Sets
pub mod Variant
pub mod Pair
pub mod Agreement
mod Tests
use libcopp.Base.{
  [], ℕ, ◌+◌, Bool, true, false, not, ◌&&◌, ◌||◌, Option, none, some, List, ◌∷◌, ◌==◌,
  if◌then◌else◌,
}

-- `handle_delegate`
pub record HandleDelegate : Type 0 where
  pub handle : Option ℕ
  pub promise : Option ℕ

abbrev pub null_delegate : HandleDelegate
null_delegate = record { handle = none; promise = none }

-- `operator==` looks at the handles.
pub same_handle : Option ℕ → Option ℕ → Bool
same_handle none none = true
same_handle (some a) (some b) = a == b
same_handle _ _ = false

-- `std::unordered_set<handle_delegate>`; in which order it is walked is not specified.
pub has : Option ℕ → List HandleDelegate → Bool
unfolding same_handle
has h [] = false
has h (d ∷ l) = same_handle d.handle h || has h l

pub insert : HandleDelegate → List HandleDelegate → List HandleDelegate
unfolding has
insert d l = if has d.handle l then l else d ∷ l

pub erase : HandleDelegate → List HandleDelegate → List HandleDelegate
unfolding same_handle
erase d [] = []
erase d (e ∷ l) = let rest = erase d l in if same_handle e.handle d.handle then rest else e ∷ rest

-- What the manager asks of the runtime: `handle.done()`, `promise->check_flag(kDestroying)`, and
-- `handle.resume()`, which runs a coroutine and may change everything.
pub record Runtime (W : Type 0) : Type 0 where
  pub is_done : W → ℕ → Bool
  pub is_destroying : W → ℕ → Bool
  pub resume : W → ℕ → W

-- The test at the head of `add_caller`.
pub is_addable : (ℕ → Bool) → HandleDelegate → Bool
is_addable is_done d = elim d.handle [ none ↦ false | some h ↦ not (is_done h) ]

module _ {W : Type 0} (rt : Runtime W) where
  pub is_resumable : W → HandleDelegate → ℕ → Bool
  is_resumable w d h =
      not (rt.is_done w h) && elim d.promise [ none ↦ true | some p ↦ not (rt.is_destroying w p) ]

  -- One caller of `resume_callers`, with the count.
  unfoldable pub resume_caller : W → HandleDelegate → W × ℕ
  unfolding is_resumable
  resume_caller w d = elim d.handle [
    | none ↦ (w, 0)
    | some h ↦ if is_resumable w d h then (rt.resume w h, 1) else (w, 0)
  ]

  unfoldable pub resume_all : W → List HandleDelegate → W × ℕ
  unfolding resume_caller
  resume_all w [] = (w, 0)
  resume_all w (d ∷ l) =
      let (w', n) = resume_caller w d in let (w'', n') = resume_all w' l in (w'', n + n')
