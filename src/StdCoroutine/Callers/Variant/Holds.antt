-- ===== src/StdCoroutine/Callers/Variant/Holds.antt =====
-- Which coroutines the manager holds after a call.
use libcopp.Base.{
  ℕ, ◌≡◌, refl, sym, ap, ◌∙◌, inl, inr, Bool, false, not, ◌&&◌, ◌||◌, some, List, ◌∷◌, [], arith,
  ◌==◌, Bool-cases, Option-cases,
}
use libcopp.StdCoroutine.Callers.{
  HandleDelegate, same_handle, has, insert, is_addable, Runtime, resume_caller, resume_all,
}
use libcopp.StdCoroutine.Callers.Sets.{has-insert, has-erase, same_handle_apart, same_handle_other}
use libcopp.StdCoroutine.Callers.Variant.{
  no_callers, Callers, single, multi, put_caller, add_caller, remove_caller, emptied, resume_taken,
  resume_callers, contains,
}

is_same :
    (d : HandleDelegate) (h : ℕ) (k : ℕ)
    → d.handle ≡ some k
    → same_handle d.handle (some h) ≡ (k == h)
unfolding same_handle
is_same d h k e = rw (e, same_handle) refl

put_caller-contains :
    (m : Callers) (d : HandleDelegate) (h : ℕ)
    → contains h (put_caller m d) ≡ (contains h m || same_handle d.handle (some h))
unfolding put_caller contains same_handle has
put_caller-contains (multi l) d h = has-insert (some h) d l
put_caller-contains (single c) d h = elim (Option-cases c.handle) [
  | inl e ↦ rw (e, put_caller) refl
  | inr (k, e) ↦
      rw (e, put_caller)
        (has-insert (some h) d (insert c [])
          ∙ ap (λ b. b || same_handle d.handle (some h))
              (has-insert (some h) c [] ∙ is_same c h k e))
]

pub add_caller-contains :
    (is_done : ℕ → Bool) (m : Callers) (d : HandleDelegate) (h : ℕ)
    → contains h (add_caller is_done m d)
      ≡ (contains h m || (is_addable is_done d && same_handle d.handle (some h)))
unfolding add_caller
add_caller-contains is_done m d h = elim (Bool-cases (is_addable is_done d)) [
  | inl e ↦ rw (e, add_caller) (put_caller-contains m d h)
  | inr e ↦ rw (e, add_caller) (ground arith)
]

pub remove_caller-contains :
    (m : Callers) (d : HandleDelegate) (h : ℕ)
    → contains h (remove_caller m d).0 ≡ (contains h m && not (same_handle d.handle (some h)))
unfolding remove_caller contains
remove_caller-contains (multi l) d h = has-erase (some h) d l
remove_caller-contains (single c) d h = elim (Bool-cases (same_handle c.handle d.handle)) [
  | inl e ↦ rw (e, remove_caller) (ground (arith, same_handle_other c.handle d.handle (some h) e))
  | inr e ↦ elim (Bool-cases (same_handle c.handle (some h))) [
    | inl k ↦
        rw (e, remove_caller) (ground (arith, k, same_handle_apart c.handle d.handle (some h) e k))
    | inr k ↦ rw (e, remove_caller) (ground (arith, k))
  ]
]

pub remove_caller-found :
    (m : Callers) (d : HandleDelegate) (k : ℕ)
    → d.handle ≡ some k
    → (remove_caller m d).1 ≡ contains k m
unfolding remove_caller contains
remove_caller-found (multi l) d k e = ap (λ o. has o l) e
remove_caller-found (single c) d k e = elim (Bool-cases (same_handle c.handle d.handle)) [
  | inl s ↦ rw (s, remove_caller) (sym (sym (ap (same_handle c.handle) e) ∙ s))
  | inr s ↦ rw (s, remove_caller) (sym (sym (ap (same_handle c.handle) e) ∙ s))
]

pub no_callers-contains : (h : ℕ) → contains h no_callers ≡ false
unfolding contains same_handle
no_callers-contains h = refl

pub emptied-contains : (m : Callers) (h : ℕ) → contains h (emptied m) ≡ false
unfolding contains emptied same_handle has
emptied-contains (single c) h = refl
emptied-contains (multi l) h = refl

-- The callers that a manager resumes.
abbrev pub taken : Callers → List HandleDelegate
taken (single c) = c ∷ []
taken (multi l) = l

pub has-taken : (m : Callers) (h : ℕ) → has (some h) (taken m) ≡ contains h m
unfolding contains has
has-taken (single c) h = ground arith
has-taken (multi l) h = refl

pub resume_callers-taken :
    {W : Type 0} (rt : Runtime W) (w : W) (m : Callers)
    → let (m', w', n) = resume_callers rt w m in (w', n) ≡ resume_all rt w (taken m)
unfolding resume_callers resume_taken resume_all
resume_callers-taken rt w (single c) = ap (λ (n : ℕ). ((resume_caller rt w c).0, n)) (omega arith)
resume_callers-taken rt w (multi l) = refl

pub resumed-contains :
    {W : Type 0} (rt : Runtime W) (w : W) (m : Callers) (h : ℕ)
    → contains h (resume_callers rt w m).0 ≡ false
unfolding resume_callers
resumed-contains rt w m h = emptied-contains m h
