-- ===== src/IntrusivePtr/Tests.antt =====
-- Three variables and one object.
use libcopp.Base.{◌≡◌, refl, true, none, some, arith, length}
use libcopp.IntrusivePtr.{
  Store, get, set, copy_assign, move_assign, reset_to, reset, swap_temporary, construct,
  copy_construct, move_construct, destruct, intrusive_ptr_add_ref, intrusive_ptr_release,
}
use libcopp.IntrusivePtr.Counts.{IsCounted}
use libcopp.IntrusivePtr.Programs.{fresh, copies, resets_to, Reach, begins, later, Reach-IsCounted}

abbrev made : Store
made = reset_to (fresh 3) 0 (some 7) true

abbrev shared : Store
shared = copy_assign made 1 0

abbrev moved : Store
moved = move_assign shared 2 0

abbrev last_gone : Store
last_gone = reset (reset moved 1) 2

last_gone-deleted :
    (moved.intrusive_ref_counter 7 ≡ 2)
    × (last_gone.deleted 7 ≡ 1)
    × (last_gone.intrusive_ref_counter 7 ≡ 0)
unfolding reset_to reset swap_temporary construct copy_construct move_construct destruct
    intrusive_ptr_add_ref intrusive_ptr_release copy_assign move_assign get set
last_gone-deleted = (refl, refl, refl)

shared-Reach : Reach 3 shared
unfolding reset_to swap_temporary construct destruct intrusive_ptr_add_ref intrusive_ptr_release get
    set
shared-Reach =
    later (later begins (λ p. ground arith) (resets_to 0 (some 7) true (ground arith) refl))
      (λ p. ground arith) (copies 1 0 (ground arith))

Reach-IsCounted_example : IsCounted shared none
Reach-IsCounted_example = Reach-IsCounted 3 shared shared-Reach

made-length : length made.vars ≡ 3
unfolding reset_to swap_temporary construct destruct intrusive_ptr_add_ref intrusive_ptr_release get
    set
made-length = refl
