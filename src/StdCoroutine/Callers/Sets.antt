-- ===== src/StdCoroutine/Callers/Sets.antt =====
-- The sets of callers.
use libcopp.Base.{
  ℕ, ◌≡◌, refl, sym, ap, ◌∙◌, inl, inr, true, false, not, ◌&&◌, ◌||◌, Option, none, some, List, [],
  ◌∷◌, arith, Bool-cases,
}
use libcopp.StdCoroutine.Callers.{HandleDelegate, same_handle, has, insert, erase}

pub same_handle-≡ : (a b : Option ℕ) → same_handle a b ≡ true → a ≡ b
unfolding same_handle
same_handle-≡ none none h = refl
same_handle-≡ none (some b) h = cc
same_handle-≡ (some a) none h = cc
same_handle-≡ (some a) (some b) h = ap some (ground arith)

pub same_handle_refl : (a : Option ℕ) → same_handle a a ≡ true
unfolding same_handle
same_handle_refl none = refl
same_handle_refl (some a) = ground arith

pub has-insert :
    (h : Option ℕ) (d : HandleDelegate) (l : List HandleDelegate)
    → has h (insert d l) ≡ (has h l || same_handle d.handle h)
unfolding has insert
has-insert h d l = elim (Bool-cases (has d.handle l)) [
  | inr e ↦ rw (e, insert, has) (ground arith)
  | inl e ↦ elim (Bool-cases (same_handle d.handle h)) [
    | inl s ↦
        let at = same_handle-≡ d.handle h s in
        rw (e, insert) (ground (arith, sym (ap (λ x. has x l) at) ∙ e, s))
    | inr s ↦ rw (e, insert) (ground (arith, s))
  ]
]

pub same_handle_other :
    (a b c : Option ℕ) → same_handle a b ≡ true → same_handle a c ≡ same_handle b c
same_handle_other a b c h = ap (λ x. same_handle x c) (same_handle-≡ a b h)

pub same_handle_comm : (a b : Option ℕ) → same_handle a b ≡ same_handle b a
unfolding same_handle
same_handle_comm none none = refl
same_handle_comm none (some b) = refl
same_handle_comm (some a) none = refl
same_handle_comm (some a) (some b) = ground arith

pub same_handle_apart :
    (a b c : Option ℕ) → same_handle a b ≡ false → same_handle a c ≡ true → same_handle b c ≡ false
same_handle_apart a b c h k =
    ap (same_handle b) (sym (same_handle-≡ a c k)) ∙ same_handle_comm b a ∙ h

pub has-erase :
    (h : Option ℕ) (d : HandleDelegate) (l : List HandleDelegate)
    → has h (erase d l) ≡ (has h l && not (same_handle d.handle h))
unfolding has erase
has-erase h d [] = refl
has-erase h d (e ∷ l) = elim (Bool-cases (same_handle e.handle d.handle)) [
  | inl s ↦ rw (s, erase) (ground (arith, has-erase h d l, same_handle_other e.handle d.handle h s))
  | inr s ↦ elim (Bool-cases (same_handle e.handle h)) [
    | inl k ↦ rw (s, erase) (ground (arith, s, k, same_handle_apart e.handle d.handle h s k))
    | inr k ↦ rw (s, erase) (ground (arith, k, has-erase h d l))
  ]
]
