-- ===== src/Coroutine/Switch/Nested.antt =====
-- The order that the jumps keep: the coroutines that run stand on a stack, each with the frame of
-- the one that started it as its caller, and all others rest at their entry or in their `yield`.
use libcopp.Base.{
  ℕ, ◌≡◌, ◌≢◌, ◌⊎◌, inl, inr, Bool, true, false, ◌||◌, Option, none, some, List, [], ◌∷◌, arith,
  ◌==◌, Bool-cases,
}
use libcopp.Coroutine.Switch.{
  running, finished, exited, FContext, entry, in_start, in_yield, Context, World,
  is_marked_finished,
}

abbrev pub elem : ℕ → List ℕ → Bool
elem i [] = false
elem i (j ∷ s) = (i == j) || elem i s

abbrev pub top : List ℕ → Option ℕ
top [] = none
top (i ∷ s) = some i

-- Coroutine `i`, started by `below`, runs or waits for one that it started.
pub record IsActive (below : Option ℕ) (i : ℕ) (c : Context) : Type 0 where
  pub is_running : c.status ≡ running
  pub unmarked : is_marked_finished c.flags ≡ false
  pub back : c.caller ≡ some (in_start below i)
  pub saved : c.callee ≢ none

pub record IsIdle (i : ℕ) (c : Context) : Type 0 where
  pub not_running : c.status ≢ running
  pub not_finished : c.status ≢ finished
  pub unmarked : c.status ≢ exited → is_marked_finished c.flags ≡ false
  pub rests : (f : FContext) → c.callee ≡ some f → (f ≡ entry i) ⊎ (f ≡ in_yield i)

abbrev pub Chain : (ℕ → Context) → List ℕ → Type 0
Chain c [] = Unit
Chain c (i ∷ s) = (elem i s ≡ false) × IsActive (top s) i (c i) × Chain c s

-- The stack `s`, the running coroutine first.
pub record Nested (w : World) (s : List ℕ) : Type 0 where
  pub current : w.this_co ≡ top s
  pub active : Chain w.ctx s
  pub idle : (j : ℕ) → elem j s ≡ false → IsIdle j (w.ctx j)

-- Contexts may change as long as those on the stack stay active.
pub Chain-mono :
    (c c' : ℕ → Context) (s : List ℕ)
    → ((j : ℕ) (b : Option ℕ) → elem j s ≡ true → IsActive b j (c j) → IsActive b j (c' j))
    → Chain c s
    → Chain c' s
Chain-mono c c' [] h a = tt
Chain-mono c c' (i ∷ s) h a =
    (a.0, h i (top s) (ground arith) a.1, Chain-mono c c' s (λ j b e. h j b (ground arith)) a.2)

pub Chain-running :
    (c : ℕ → Context) (s : List ℕ) (j : ℕ) → Chain c s → elem j s ≡ true → (c j).status ≡ running
Chain-running c [] j a h = cc
Chain-running c (i ∷ s) j a h = elim (Bool-cases (j == i)) [
  | inl e ↦ let same : j ≡ i = ground arith in rw same a.1.is_running
  | inr e ↦ Chain-running c s j a.2 (ground arith)
]

-- A coroutine that does not run is not on the stack.
pub elem-false :
    (w : World) (s : List ℕ) (i : ℕ) → Nested w s → (w.ctx i).status ≢ running → elem i s ≡ false
elem-false w s i n h = elim (Bool-cases (elem i s)) [
  | inl e ↦ absurd (h (Chain-running w.ctx s i n.active e))
  | inr e ↦ e
]

pub top-elem : (s : List ℕ) (k : ℕ) → top s ≡ some k → elem k s ≡ true
top-elem [] k h = cc
top-elem (i ∷ s) k h = ground arith
