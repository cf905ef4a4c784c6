-- ===== src/Future/Storage/Tests.antt =====
-- Three storages of numbers, the second moved to the first and swapped with the third.
use libcopp.Base.{ℕ, ◌≡◌, refl, none, some, List, [], ◌∷◌}
use libcopp.Future.Storage.{Op, takes, holds, moves, resets, swaps, promised}
use libcopp.Future.Storage.Void
use libcopp.Future.Storage.Small
use libcopp.Future.Storage.Heap
use libcopp.Future.Storage.Agreement.{run, Agree, programs-Agree}

abbrev program : List (Op ℕ)
program = holds 2 7 ∷ moves 1 2 ∷ takes 3 (some 8) ∷ swaps 1 3 ∷ resets 3 ∷ []

programs-Agree_example :
    Agree
      (run Void.step program (λ _. none))
      (run (Small.step 0) program (λ _. record { value = 0; pointer = none }))
      (run Heap.step program (λ _. none))
      (run promised program (λ _. none))
programs-Agree_example = programs-Agree 0 program (tt, (refl, (tt, (tt, (tt, tt)))))

-- A storage that is moved to itself is empty then, but for one on the heap.
moved_to_itself :
    (Void.move_storage (λ _. some 1) 1 1 1 ≡ none)
    × ((Small.move_storage {T = ℕ} 0 (λ _. record { value = 7; pointer = some 1 }) 1 1 1).pointer
        ≡ none)
    × (Heap.move_storage {T = ℕ} (λ _. some 7) 1 1 1 ≡ some 7)
unfolding Void.move_storage Small.move_storage Small.reset Small.construct_value Heap.move_storage
moved_to_itself = (refl, refl, refl)
