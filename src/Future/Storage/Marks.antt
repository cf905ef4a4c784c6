-- ===== src/Future/Storage/Marks.antt =====
-- The storage of a poller for nothing: it keeps its mark.
use libcopp.Base.{ℕ, ◌≡◌, refl, ◌≢◌, ◌⊎◌, inl, inr, Option, none, some, arith, ◌==◌, Bool-cases}
use libcopp.Future.Storage.{Op, defaults, takes, holds, moves, resets, swaps, promised, IsProper}
use libcopp.Future.Storage.Void

-- A storage without room for a value is empty, or ready and points to itself.
abbrev pub Marks : {T : Type 0} → (ℕ → Option ℕ) → (ℕ → Option T) → Type 0
Marks m a = (i : ℕ) → ((m i ≡ none) × (a i ≡ none)) ⊎ ((m i ≡ some i) × (a i ≢ none))

module _ {T : Type 0} (a : ℕ → Option T) where
  pub step-Marks :
      (o : Op T) (m : ℕ → Option ℕ) → Marks m a → IsProper o → Marks (Void.step o m) (promised o a)
  unfolding promised Void.step Void.construct_default_storage Void.construct_storage
      Void.move_storage Void.reset Void.swap
  step-Marks (defaults i) m h p j = elim (Bool-cases (i == j)) [
    | inl e ↦ rw e (inl (refl, refl))
    | inr e ↦ rw e (h j)
  ]
  step-Marks (takes i none) m h p j = elim (Bool-cases (i == j)) [
    | inl e ↦ rw e (inl (refl, refl))
    | inr e ↦ rw e (h j)
  ]
  step-Marks (takes i (some v)) m h p j = elim (Bool-cases (i == j)) [
    | inl e ↦ rw e (inr (ground (arith, e), λ k. cc))
    | inr e ↦ rw e (h j)
  ]
  step-Marks (holds i v) m h p j = elim (Bool-cases (i == j)) [
    | inl e ↦ rw e (inr (ground (arith, e), λ k. cc))
    | inr e ↦ rw e (h j)
  ]
  step-Marks (resets i) m h p j = elim (Bool-cases (i == j)) [
    | inl e ↦ rw e (inl (refl, refl))
    | inr e ↦ rw e (h j)
  ]
  step-Marks (moves out from) m h p j = elim (Bool-cases (from == j)) [
    | inl e ↦ simp e (inl (refl, refl))
    | inr e ↦ elim (Bool-cases (out == j)) [
      | inl k ↦ elim (h from) [
        | inl (f, g) ↦ simp (e, k, f, Void.move_storage) (inl (refl, g))
        | inr (f, g) ↦ simp (e, k, f, Void.move_storage) (inr (ground (arith, k), g))
      ]
      | inr k ↦ elim (h from) [
        | inl (f, g) ↦ simp (e, k, f, Void.move_storage) (h j)
        | inr (f, g) ↦ simp (e, k, f, Void.move_storage) (h j)
      ]
    ]
  ]
  step-Marks (swaps l r) m h p j = elim (Bool-cases (r == j)) [
    | inl e ↦ elim (h l) [
      | inl (f, g) ↦ elim (h r) [
        | inl (f', g') ↦ simp (e, f, f', Void.swap) (inl (ground (arith, e, f'), g))
        | inr (f', g') ↦ simp (e, f, f', Void.swap) (inl (refl, g))
      ]
      | inr (f, g) ↦ elim (h r) [
        | inl (f', g') ↦ simp (e, f, f', Void.swap) (inr (ground (arith, e), g))
        | inr (f', g') ↦ simp (e, f, f', Void.swap) (inr (ground (arith, e, f'), g))
      ]
    ]
    | inr e ↦ elim (Bool-cases (l == j)) [
      | inl k ↦ elim (h l) [
        | inl (f, g) ↦ elim (h r) [
          | inl (f', g') ↦ simp (e, k, f, f', Void.swap) (inl (ground (arith, k, f), g'))
          | inr (f', g') ↦ simp (e, k, f, f', Void.swap) (inr (ground (arith, k), g'))
        ]
        | inr (f, g) ↦ elim (h r) [
          | inl (f', g') ↦ simp (e, k, f, f', Void.swap) (inl (refl, g'))
          | inr (f', g') ↦ simp (e, k, f, f', Void.swap) (inr (ground (arith, k, f), g'))
        ]
      ]
      | inr k ↦ elim (h l) [
        | inl (f, g) ↦ elim (h r) [
          | inl (f', g') ↦ simp (e, k, f, f', Void.swap) (h j)
          | inr (f', g') ↦ simp (e, k, f, f', Void.swap) (h j)
        ]
        | inr (f, g) ↦ elim (h r) [
          | inl (f', g') ↦ simp (e, k, f, f', Void.swap) (h j)
          | inr (f', g') ↦ simp (e, k, f, f', Void.swap) (h j)
        ]
      ]
    ]
  ]
