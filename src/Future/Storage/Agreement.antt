-- ===== src/Future/Storage/Agreement.antt =====
-- The three kinds of storage keep the one promise.
use libcopp.Base.{ℕ, ◌≡◌, refl, inl, Option, none, List, [], ◌∷◌, All}
use libcopp.Future.Storage.{Op, defaults, takes, holds, moves, resets, swaps, promised, IsProper}
use libcopp.Future.Storage.Void
use libcopp.Future.Storage.Small
use libcopp.Future.Storage.Small.{Pair}
use libcopp.Future.Storage.Heap
use libcopp.Future.Storage.Marks.{Marks, step-Marks}
use libcopp.Future.Storage.Holds.{Holds, step-Holds}

module _ {T : Type 0} (a : ℕ → Option T) where
  heap_step :
      (o : Op T) (m : ℕ → Option T)
      → ((i : ℕ) → m i ≡ a i)
      → IsProper o
      → (j : ℕ) → Heap.step o m j ≡ promised o a j
  unfolding promised Heap.step Heap.construct_storage Heap.move_storage Heap.swap
  heap_step (defaults i) m h p j = rw (h j) refl
  heap_step (takes i o) m h p j = rw (h j) refl
  heap_step (holds i v) m h p j = rw (h j) refl
  heap_step (resets i) m h p j = rw (h j) refl
  heap_step (moves out from) m h p j = rw (p, h j, h from) refl
  heap_step (swaps l r) m h p j = rw (h j, h l, h r) refl

-- The operations of a program, the first one first.
abbrev pub run : {T S : Type 0} → (Op T → S → S) → List (Op T) → S → S
run step [] s = s
run step (o ∷ l) s = run step l (step o s)

-- What the three kinds of storage, as they are, have promised.
pub record Agree {T : Type 0} (v : ℕ → Option ℕ) (s : ℕ → Pair T) (u a : ℕ → Option T)
    : Type 0 where
  pub marks : Marks v a
  pub holds : Holds s a
  pub owns : (i : ℕ) → u i ≡ a i

module _ {T : Type 0} (zeros : T) where
  run-Agree :
      (l : List (Op T)) {v : ℕ → Option ℕ} {s : ℕ → Pair T} {u a : ℕ → Option T}
      → Agree v s u a
      → All IsProper l
      → Agree
          (run Void.step l v)
          (run (Small.step zeros) l s)
          (run Heap.step l u)
          (run promised l a)
  run-Agree [] g p = g
  run-Agree (o ∷ l) {v} {s} {u} {a} g p =
      run-Agree l
        record {
          marks = step-Marks a o v g.marks p.0;
          holds = step-Holds a zeros o s g.holds p.0;
          owns = heap_step a o u g.owns p.0;
        }
        p.1

  -- After any program on new storages that moves none to itself, all three kinds of storage have kept
  -- what was promised: the mark says whether there is a value, the value in the storage and the one on
  -- the heap are the promised one, and no storage points into another one.
  pub programs-Agree :
      (l : List (Op T))
      → All IsProper l
      → Agree
          (run Void.step l (λ _. none))
          (run (Small.step zeros) l (λ _. record { value = zeros; pointer = none }))
          (run Heap.step l (λ _. none))
          (run promised l (λ _. none))
  programs-Agree l p =
      run-Agree l
        record { marks = λ i. inl (refl, refl); holds = λ i. inl (refl, refl); owns = λ i. refl } p
