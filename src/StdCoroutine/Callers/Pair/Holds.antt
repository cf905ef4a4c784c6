-- ===== src/StdCoroutine/Callers/Pair/Holds.antt =====
-- Which coroutines the manager holds after a call.
use libcopp.Base.{
  ℕ, ◌≡◌, refl, sym, ap, ◌∙◌, subst, inl, inr, Bool, true, false, not, ◌&&◌, ◌||◌, Option, none,
  some, List, ◌∷◌, arith, Bool-cases, Option-cases,
}
use libcopp.StdCoroutine.Callers.{
  HandleDelegate, same_handle, has, insert, is_addable, Runtime, resume_all,
}
use libcopp.StdCoroutine.Callers.Sets.{
  same_handle-≡, has-insert, has-erase, same_handle_apart, same_handle_other, same_handle_comm,
}
use libcopp.StdCoroutine.Callers.Pair.{
  no_callers, Callers, put_after, put_caller, add_caller, remove_caller, resume_callers, contains,
}

-- The first caller is not among the further ones.
abbrev pub IsOnce : Callers → Type 0
IsOnce m = (h : ℕ) → m.unique_caller.handle ≡ some h → has (some h) m.multiple_callers ≡ false

null_same : (d : HandleDelegate) (h : ℕ) → d.handle ≡ none → same_handle d.handle (some h) ≡ false
unfolding same_handle
null_same d h e = rw (e, same_handle) refl

put_after-contains :
    (o : Option ℕ) (m : Callers) (d : HandleDelegate) (h : ℕ)
    → m.unique_caller.handle ≡ o
    → contains h (put_after o m d) ≡ (contains h m || same_handle d.handle (some h))
unfolding put_after contains
put_after-contains none m d h e = ground (arith, null_same m.unique_caller h e)
put_after-contains (some k) m d h e = ground (arith, has-insert (some h) d m.multiple_callers)

put_after-IsOnce :
    (o : Option ℕ) (m : Callers) (d : HandleDelegate) (k : ℕ)
    → IsOnce m
    → m.unique_caller.handle ≡ o
    → d.handle ≡ some k
    → contains k m ≡ false
    → IsOnce (put_after o m d)
unfolding put_after contains
put_after-IsOnce none m d k o e at f h p = let same : h ≡ k = cc in rw same (ground (arith, f))
put_after-IsOnce (some u) m d k o e at f h p =
    let apart : same_handle (some h) (some k) ≡ false =
      ap (λ x. same_handle x (some k)) (sym p) ∙ ground (arith, f) in
    has-insert (some h) d m.multiple_callers
    ∙ ground (
      arith,
      o h p,
      ap (λ x. same_handle x (some h)) at ∙ same_handle_comm (some k) (some h) ∙ apart,
    )

pub add_caller-contains :
    (is_done : ℕ → Bool) (m : Callers) (d : HandleDelegate) (h : ℕ)
    → contains h (add_caller is_done m d)
      ≡ (contains h m || (is_addable is_done d && same_handle d.handle (some h)))
unfolding add_caller put_caller
add_caller-contains is_done m d h = elim (Bool-cases (is_addable is_done d)) [
  | inl e ↦ rw (e, add_caller) (put_after-contains m.unique_caller.handle m d h refl)
  | inr e ↦ rw (e, add_caller) (ground arith)
]

pub add_caller-IsOnce :
    (is_done : ℕ → Bool) (m : Callers) (d : HandleDelegate)
    → IsOnce m
    → ((k : ℕ) → d.handle ≡ some k → contains k m ≡ false)
    → IsOnce (add_caller is_done m d)
unfolding add_caller put_caller is_addable
add_caller-IsOnce is_done m d o f = elim (Option-cases d.handle) [
  | inl e ↦ let no : is_addable is_done d ≡ false = rw (e, is_addable) refl in rw (no, add_caller) o
  | inr (k, e) ↦ elim (Bool-cases (is_addable is_done d)) [
    | inl a ↦ rw (a, add_caller) (put_after-IsOnce m.unique_caller.handle m d k o refl e (f k e))
    | inr a ↦ rw (a, add_caller) o
  ]
]

pub remove_caller-contains :
    (m : Callers) (d : HandleDelegate) (h : ℕ)
    → IsOnce m
    → contains h (remove_caller m d).0 ≡ (contains h m && not (same_handle d.handle (some h)))
unfolding remove_caller contains
remove_caller-contains m d h o = elim (Bool-cases (same_handle m.unique_caller.handle d.handle)) [
  | inl s ↦
      let first = same_handle_other m.unique_caller.handle d.handle (some h) s in
      elim (Bool-cases (same_handle d.handle (some h))) [
        | inl k ↦
            let off = o h (same_handle-≡ m.unique_caller.handle (some h) (first ∙ k)) in
            rw (s, remove_caller) (ground (arith, first, k, off))
        | inr k ↦ rw (s, remove_caller) (ground (arith, first, k))
      ]
  | inr s ↦
      let rest = has-erase (some h) d m.multiple_callers in
      elim (Bool-cases (same_handle m.unique_caller.handle (some h))) [
        | inl k ↦
            rw (s, remove_caller)
              (ground
                (arith, k, rest, same_handle_apart m.unique_caller.handle d.handle (some h) s k))
        | inr k ↦ rw (s, remove_caller) (ground (arith, k, rest))
      ]
]

pub remove_caller-IsOnce :
    (m : Callers) (d : HandleDelegate) → IsOnce m → IsOnce (remove_caller m d).0
unfolding remove_caller
remove_caller-IsOnce m d o = elim (Bool-cases (same_handle m.unique_caller.handle d.handle)) [
  | inl s ↦ rw (s, remove_caller) (λ h e. cc)
  | inr s ↦
      rw (s, remove_caller) (λ h e. has-erase (some h) d m.multiple_callers ∙ ground (arith, o h e))
]

pub remove_caller-found :
    (m : Callers) (d : HandleDelegate) (k : ℕ)
    → d.handle ≡ some k
    → (remove_caller m d).1 ≡ contains k m
unfolding remove_caller contains
remove_caller-found m d k e =
    let at = ap (same_handle m.unique_caller.handle) e in
    let more = ap (λ o. has o m.multiple_callers) e in
    elim (Bool-cases (same_handle m.unique_caller.handle d.handle)) [
      | inl s ↦ rw (s, remove_caller) (ground (arith, sym at ∙ s))
      | inr s ↦ rw (s, remove_caller) (more ∙ ground (arith, sym at ∙ s))
    ]

pub no_callers-contains : (h : ℕ) → contains h no_callers ≡ false
unfolding contains same_handle has
no_callers-contains h = refl

-- The callers that a manager resumes.
abbrev pub taken : Callers → List HandleDelegate
taken m = m.unique_caller ∷ m.multiple_callers

pub has-taken : (m : Callers) (h : ℕ) → has (some h) (taken m) ≡ contains h m
unfolding contains has
has-taken m h = refl

pub resume_callers-taken :
    {W : Type 0} (rt : Runtime W) (w : W) (m : Callers)
    → let (m', w', n) = resume_callers rt w m in (w', n) ≡ resume_all rt w (taken m)
unfolding resume_callers resume_all
resume_callers-taken rt w m = refl

pub resumed-contains :
    {W : Type 0} (rt : Runtime W) (w : W) (m : Callers) (h : ℕ)
    → contains h (resume_callers rt w m).0 ≡ false
unfolding resume_callers contains same_handle has
resumed-contains rt w m h = refl

pub resumed-IsOnce :
    {W : Type 0} (rt : Runtime W) (w : W) (m : Callers) → IsOnce (resume_callers rt w m).0
unfolding resume_callers has
resumed-IsOnce rt w m h e = refl

some_twice :
    (is_done : ℕ → Bool) (h : ℕ) (p : Option ℕ)
    → is_done h ≡ false
    → let d : HandleDelegate = record { handle = some h; promise = p } in
      contains h (remove_caller (add_caller is_done (add_caller is_done no_callers d) d) d).0 ≡ true
unfolding contains remove_caller add_caller put_caller put_after is_addable insert has same_handle
some_twice is_done h p f = ground (arith, f)

pub adds_twice :
    (is_done : ℕ → Bool) (d : HandleDelegate) (h : ℕ)
    → d.handle ≡ some h
    → is_done h ≡ false
    → contains h (remove_caller (add_caller is_done (add_caller is_done no_callers d) d) d).0 ≡ true
adds_twice is_done d h e f =
    let at : record { handle = some h; promise = d.promise } ≡ d =
      ap (λ (o : Option ℕ). record d { handle = o }) (sym e) in
    subst
      (λ (x : HandleDelegate).
        contains h (remove_caller (add_caller is_done (add_caller is_done no_callers x) x) x).0
        ≡ true)
      at (some_twice is_done h d.promise f)
