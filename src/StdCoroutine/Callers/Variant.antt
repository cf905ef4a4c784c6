-- ===== src/StdCoroutine/Callers/Variant.antt =====
-- The manager that is built with `std::variant`: one caller, or a set of them.
pub mod Holds
use libcopp.Base.{
  ℕ, zero, suc, ◌+◌, ◌-◌, ◌*◌, ◌/◌, ◌%◌, ◌^◌, ◌≤◌, ◌<◌, ◌≡◌, refl, sym, ap, ◌∙◌, subst, ◌≢◌, ◌↔◌,
  ◌⊎◌, inl, inr, Bool, true, false, not, ◌&&◌, ◌||◌, Option, none, some, List, [], ◌∷◌, ◌++◌, map,
  arith, ltb, leb, ◌==◌, if◌then◌else◌, size_mod, Bool-cases, Option-cases, length, is_empty,
  length-append, All, All-append, sum_by, sum_by-append, update,
}
use libcopp.StdCoroutine.Callers.{
  HandleDelegate, null_delegate, same_handle, has, insert, erase, Runtime, is_addable,
  resume_caller, resume_all,
}

pub data Callers : Type 0 where
  single : HandleDelegate → Callers
  multi : List HandleDelegate → Callers

abbrev pub no_callers : Callers
no_callers = single null_delegate

-- The part of `add_caller` past the test.
pub put_caller : Callers → HandleDelegate → Callers
unfolding insert
put_caller (multi l) d = multi (insert d l)
put_caller (single c) d = elim c.handle [
  | none ↦ single d
  | some h ↦ multi (insert d (insert c []))
]

pub add_caller : (ℕ → Bool) → Callers → HandleDelegate → Callers
unfolding is_addable put_caller
add_caller is_done m d = if is_addable is_done d then put_caller m d else m

pub remove_caller : Callers → HandleDelegate → Callers × Bool
unfolding erase has same_handle
remove_caller (multi l) d = (multi (erase d l), has d.handle l)
remove_caller (single c) d =
    if same_handle c.handle d.handle then (single null_delegate, true) else (single c, false)

-- `resume_callers` leaves this before the first of the callers runs,
pub emptied : Callers → Callers
emptied (single c) = single null_delegate
emptied (multi l) = multi []

-- and then runs these.
unfoldable pub resume_taken : {W : Type 0} → Runtime W → W → Callers → W × ℕ
unfolding resume_caller resume_all
resume_taken rt w (single c) = resume_caller rt w c
resume_taken rt w (multi l) = resume_all rt w l

pub resume_callers : {W : Type 0} → Runtime W → W → Callers → Callers × W × ℕ
unfolding emptied resume_taken
resume_callers rt w m = let (w', n) = resume_taken rt w m in (emptied m, w', n)

pub has_multiple_callers : Callers → Bool
has_multiple_callers (single c) = false
has_multiple_callers (multi l) = ltb 1 (length l)

-- Whether the coroutine `h` waits.
pub contains : ℕ → Callers → Bool
unfolding has same_handle
contains h (single c) = same_handle c.handle (some h)
contains h (multi l) = has (some h) l
