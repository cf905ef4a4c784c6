-- ===== src/Future/Storage/Holds.antt =====
-- The storage of a small value: it keeps the value, and its pointer stays its own.
use libcopp.Base.{
  ℕ, ◌≡◌, refl, sym, ap, ◌∙◌, ◌⊎◌, inl, inr, false, Option, none, some, arith, ◌==◌, if◌then◌else◌,
  Bool-cases, update,
}
use libcopp.Future.Storage.{Op, defaults, takes, holds, moves, resets, swaps, promised, IsProper}
use libcopp.Future.Storage.Small
use libcopp.Future.Storage.Small.{Pair}

-- A small one is empty or points to its own value, and to no other storage.
abbrev pub Holds : {T : Type 0} → (ℕ → Pair T) → (ℕ → Option T) → Type 0
Holds m a =
    (i : ℕ)
    → (((m i).pointer ≡ none) × (a i ≡ none))
      ⊎ (((m i).pointer ≡ some i) × (a i ≡ some (m i).value))

module _ {T : Type 0} (a : ℕ → Option T) where
  module _ (zeros : T) where
    -- The values are exchanged first, and no pointer.
    swap_values-at :
        (m : ℕ → Pair T) (l r j : ℕ)
        → ((Small.swap_values zeros m l r j).pointer ≡ (m j).pointer)
          × ((Small.swap_values zeros m l r j).value
              ≡ (if r == j then (m l).value else if l == j then (m r).value else (m j).value))
    unfolding Small.swap_values
    swap_values-at m l r j = elim (Bool-cases (r == j)) [
      | inl e ↦ elim (Bool-cases (l == r)) [
        | inl k ↦ ground (arith, e, k)
        | inr k ↦ ground (arith, e, k)
      ]
      | inr e ↦ elim (Bool-cases (l == j)) [
        | inl k ↦ rw (e, k) (ground (arith, k), refl)
        | inr k ↦ rw (e, k) (refl, refl)
      ]
    ]

    swap_values-elsewhere :
        (m : ℕ → Pair T) (l r j : ℕ)
        → (((m j).pointer ≡ none) × (a j ≡ none))
          ⊎ (((m j).pointer ≡ some j) × (a j ≡ some (m j).value))
        → (r == j) ≡ false
        → (l == j) ≡ false
        → (((Small.swap_values zeros m l r j).pointer ≡ none) × (a j ≡ none))
          ⊎ (((Small.swap_values zeros m l r j).pointer ≡ some j)
              × (a j ≡ some (Small.swap_values zeros m l r j).value))
    swap_values-elsewhere m l r j h e k =
        let (q, v) = swap_values-at m l r j in
        let val = v ∙ rw (e, k) refl in
        elim h [
          | inl (x, y) ↦ inl (q ∙ x, y)
          | inr (x, y) ↦ inr (q ∙ x, y ∙ ap (λ z. some z) (sym val))
        ]

    swap-Holds :
        (m : ℕ → Pair T) (l r : ℕ)
        → Holds m a
        → Holds (Small.swap zeros m l r) (update (update a l (a r)) r (a l))
    unfolding Small.swap Small.reset Small.point
    swap-Holds m l r h j =
        let (q, v) = swap_values-at m l r j in
        let elsewhere = swap_values-elsewhere m l r j (h j) in
        elim (h l) [
          | inl (f, g) ↦
              let at_l = (swap_values-at m l r l).0 ∙ f in
              elim (h r) [
                | inl (f', g') ↦
                    let at_r = (swap_values-at m l r r).0 ∙ f' in
                    elim (Bool-cases (r == j)) [
                      | inl e ↦
                          simp (e, at_l, at_r, Small.swap) (inl (q ∙ ground (arith, e, f'), g))
                      | inr e ↦ elim (Bool-cases (l == j)) [
                        | inl k ↦
                            simp (e, k, at_l, at_r, Small.swap) (inl (q ∙ ground (arith, k, f), g'))
                        | inr k ↦ simp (e, k, at_l, at_r, Small.swap) (elsewhere e k)
                      ]
                    ]
                | inr (f', g') ↦
                    let at_r = (swap_values-at m l r r).0 ∙ f' in
                    elim (Bool-cases (r == j)) [
                      | inl e ↦ simp (e, at_l, at_r, Small.swap, Small.reset) (inl (refl, g))
                      | inr e ↦ elim (Bool-cases (l == j)) [
                        | inl k ↦
                            let same : l ≡ j = ground (arith, k) in
                            let val : (Small.swap_values zeros m l r l).value ≡ (m r).value =
                              (swap_values-at m l r l).1 ∙ ground (arith, e, k) in
                            simp (e, k, at_l, at_r, Small.swap, Small.reset, Small.point)
                              (inr (ap (λ x. some x) same, g' ∙ ap (λ x. some x) (sym val)))
                        | inr k ↦
                            simp (e, k, at_l, at_r, Small.swap, Small.reset, Small.point)
                              (elsewhere e k)
                      ]
                    ]
              ]
          | inr (f, g) ↦
              let at_l = (swap_values-at m l r l).0 ∙ f in
              elim (h r) [
                | inl (f', g') ↦
                    let at_r = (swap_values-at m l r r).0 ∙ f' in
                    elim (Bool-cases (r == j)) [
                      | inl e ↦
                          let same : r ≡ j = ground (arith, e) in
                          let apart : (l == r) ≡ false = ground (arith, f, f') in
                          let val : (Small.swap_values zeros m l r r).value ≡ (m l).value =
                            (swap_values-at m l r r).1 ∙ ground arith in
                          simp (e, apart, at_l, at_r, Small.swap, Small.reset, Small.point)
                            (inr (ap (λ x. some x) same, g ∙ ap (λ x. some x) (sym val)))
                      | inr e ↦ elim (Bool-cases (l == j)) [
                        | inl k ↦
                            simp (e, k, at_l, at_r, Small.swap, Small.reset, Small.point)
                              (inl (refl, g'))
                        | inr k ↦
                            simp (e, k, at_l, at_r, Small.swap, Small.reset, Small.point)
                              (elsewhere e k)
                      ]
                    ]
                | inr (f', g') ↦
                    let at_r = (swap_values-at m l r r).0 ∙ f' in
                    elim (Bool-cases (r == j)) [
                      | inl e ↦
                          simp (e, at_l, at_r, Small.swap)
                            (inr (
                              q ∙ ground (arith, e, f'),
                              g ∙ ap (λ x. some x) (sym (v ∙ rw e refl)),
                            ))
                      | inr e ↦ elim (Bool-cases (l == j)) [
                        | inl k ↦
                            simp (e, k, at_l, at_r, Small.swap)
                              (inr (
                                q ∙ ground (arith, k, f),
                                g' ∙ ap (λ x. some x) (sym (v ∙ rw (e, k) refl)),
                              ))
                        | inr k ↦ simp (e, k, at_l, at_r, Small.swap) (elsewhere e k)
                      ]
                    ]
              ]
        ]

    pub step-Holds :
        (o : Op T) (m : ℕ → Pair T)
        → Holds m a
        → IsProper o
        → Holds (Small.step zeros o m) (promised o a)
    unfolding promised Small.step Small.construct_default_storage Small.construct_storage
        Small.construct_value Small.move_storage Small.reset
    step-Holds (defaults i) m h p j = elim (Bool-cases (i == j)) [
      | inl e ↦ rw e (inl (refl, refl))
      | inr e ↦ rw e (h j)
    ]
    step-Holds (takes i none) m h p j = elim (Bool-cases (i == j)) [
      | inl e ↦ rw e (inl (refl, refl))
      | inr e ↦ rw e (h j)
    ]
    step-Holds (takes i (some v)) m h p j = elim (Bool-cases (i == j)) [
      | inl e ↦ rw e (inr (ground (arith, e), refl))
      | inr e ↦ rw e (h j)
    ]
    step-Holds (holds i v) m h p j = elim (Bool-cases (i == j)) [
      | inl e ↦ rw e (inr (ground (arith, e), refl))
      | inr e ↦ rw e (h j)
    ]
    step-Holds (resets i) m h p j = elim (Bool-cases (i == j)) [
      | inl e ↦ rw e (inl (refl, refl))
      | inr e ↦ rw e (h j)
    ]
    step-Holds (moves out from) m h p j = elim (Bool-cases (from == j)) [
      | inl e ↦ elim (h from) [
        | inl (f, g) ↦
            let n : (out == j) ≡ false = ground (arith, e, p) in
            simp (f, e, n, Small.move_storage) (inl (ground (arith, e, f), refl))
        | inr (f, g) ↦ simp (f, e, Small.move_storage) (inl (refl, refl))
      ]
      | inr e ↦ elim (Bool-cases (out == j)) [
        | inl k ↦ elim (h from) [
          | inl (f, g) ↦ simp (e, k, f, Small.move_storage) (inl (refl, g))
          | inr (f, g) ↦ simp (e, k, f, Small.move_storage) (inr (ground (arith, k), g))
        ]
        | inr k ↦ elim (h from) [
          | inl (f, g) ↦ simp (e, k, f, Small.move_storage) (h j)
          | inr (f, g) ↦ simp (e, k, f, Small.move_storage) (h j)
        ]
      ]
    ]
    step-Holds (swaps l r) m h p j = swap-Holds m l r h j
