-- ===== src/Coroutine/Switch/Tests.antt =====
-- A thread that creates two coroutines and starts one from the other.
use libcopp.Base.{ℕ, ◌≡◌, refl, ◌≢◌, true, some, List, []}
use libcopp.Coroutine.Layout.{Request, place, is_refused, stack_offset, align_stack_size}
use libcopp.Coroutine.Switch.{
  ready, entry, World, create, start, yield, finish, switches, aborts, set_runner, cas_status,
}
use libcopp.Coroutine.Switch.Nested.{Nested}
use libcopp.Coroutine.Switch.Runs.{
  new_world, Reach, begins, creates, Started, start-total, create-Nested, new_world-Nested,
  Reach-Nested, Reach-progress,
}

abbrev on_a_stack : Request
on_a_stack = record {
  object_size = 208;
  p = 9000;
  callee_stack = record { size = 4096; sp = 10000 };
  coroutine_size = 960;
  private_buffer_size = 64;
}

abbrev one_made : World
one_made = (create new_world 3 true on_a_stack true).0

abbrev two_made : World
two_made = (create one_made 5 true on_a_stack true).0

two_made-Reach : Reach two_made
unfolding create set_runner cas_status place is_refused stack_offset align_stack_size
two_made-Reach =
    creates 5 true on_a_stack true (creates 3 true on_a_stack true begins (λ h. cc)) (λ h. cc)

Reach-Nested_example : (s : List ℕ) × Nested two_made s
Reach-Nested_example = Reach-Nested two_made two_made-Reach

Reach-progress_example :
    (start two_made 3 40 ≢ aborts)
    × (two_made.this_co ≡ some 3 → (w' : World) × (yield two_made 3 ≡ switches w') × Reach w')
    × (two_made.this_co ≡ some 3 → (w' : World) × (finish two_made 3 40 ≡ switches w') × Reach w')
Reach-progress_example = Reach-progress two_made 3 40 two_made-Reach

two_made-Nested : Nested two_made []
unfolding create set_runner cas_status place is_refused stack_offset align_stack_size
two_made-Nested =
    create-Nested one_made [] 5 true on_a_stack true
      (create-Nested new_world [] 3 true on_a_stack true new_world-Nested (λ h. cc)) (λ h. cc)

two_made-ready : ((two_made.ctx 3).callee ≡ some (entry 3)) × ((two_made.ctx 3).status ≡ ready)
unfolding create set_runner cas_status place is_refused stack_offset align_stack_size
two_made-ready = (refl, refl)

start-total_example : Started two_made [] 3 40
start-total_example = start-total two_made [] 3 40 two_made-Nested
