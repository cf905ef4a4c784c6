-- ===== src/StdCoroutine/Callers/Pair.antt =====
-- The manager that is built without `std::variant`: a first caller, and a set of further ones.
pub mod Holds
use libcopp.Base.{
  ℕ, zero, suc, ◌+◌, ◌-◌, ◌*◌, ◌/◌, ◌%◌, ◌^◌, ◌≤◌, ◌<◌, ◌≡◌, refl, sym, ap, ◌∙◌, subst, ◌≢◌, ◌↔◌,
  ◌⊎◌, inl, inr, Bool, true, false, not, ◌&&◌, ◌||◌, Option, none, some, List, [], ◌∷◌, ◌++◌, map,
  arith, ltb, leb, ◌==◌, if◌then◌else◌, size_mod, Bool-cases, Option-cases, length, is_empty,
  length-append, All, All-append, sum_by, sum_by-append, update,
}
use libcopp.StdCoroutine.Callers.{
  HandleDelegate, null_delegate, same_handle, has, insert, erase, Runtime, is_addable, is_resumable,
  resume_caller, resume_all,
}

-- A null `multiple_callers_` is the empty set.
pub record Callers : Type 0 where
  pub unique_caller : HandleDelegate
  pub multiple_callers : List HandleDelegate

abbrev pub no_callers : Callers
no_callers = record { unique_caller = null_delegate; multiple_callers = [] }

-- The part of `add_caller` past the test; the first argument is the handle of the first caller.
pub put_after : Option ℕ → Callers → HandleDelegate → Callers
unfolding insert
put_after none m d = record m { unique_caller = d }
put_after (some h) m d = record m { multiple_callers = insert d m.multiple_callers }

pub put_caller : Callers → HandleDelegate → Callers
unfolding put_after
put_caller m d = put_after m.unique_caller.handle m d

pub add_caller : (ℕ → Bool) → Callers → HandleDelegate → Callers
unfolding is_addable put_caller
add_caller is_done m d = if is_addable is_done d then put_caller m d else m

pub remove_caller : Callers → HandleDelegate → Callers × Bool
unfolding erase has same_handle
remove_caller m d =
    if same_handle m.unique_caller.handle d.handle
    then (record m { unique_caller = null_delegate }, true)
    else (
      record m { multiple_callers = erase d m.multiple_callers },
      has d.handle m.multiple_callers,
    )

pub resume_callers : {W : Type 0} → Runtime W → W → Callers → Callers × W × ℕ
unfolding resume_caller resume_all
resume_callers rt w m =
    let (w', n) = resume_caller rt w m.unique_caller in
    let (w'', n') = resume_all rt w' m.multiple_callers in (no_callers, w'', n + n')

pub has_multiple_callers : {W : Type 0} → Runtime W → W → Callers → Bool
unfolding is_resumable
has_multiple_callers rt w m =
    let first : ℕ = elim m.unique_caller.handle [
      | none ↦ 0
      | some h ↦ if is_resumable rt w m.unique_caller h then 1 else 0
    ] in
    ltb 1 (first + length m.multiple_callers)

-- Whether the coroutine `h` waits.
pub contains : ℕ → Callers → Bool
unfolding has same_handle
contains h m = same_handle m.unique_caller.handle (some h) || has (some h) m.multiple_callers
