-- ===== src/StdCoroutine/Callers/Agreement.antt =====
-- Both managers hold the set of the coroutines that wait.
use libcopp.Base.{ℕ, ◌≡◌, ap, ◌∙◌, Bool, true, false, not, ◌&&◌, ◌||◌, some, List, [], ◌∷◌, arith}
use libcopp.StdCoroutine.Callers.{HandleDelegate, same_handle, has, is_addable, Runtime, resume_all}
use libcopp.StdCoroutine.Callers.Sets.{same_handle_refl}
use libcopp.StdCoroutine.Callers.Variant
use libcopp.StdCoroutine.Callers.Variant.Holds as VariantHolds
use libcopp.StdCoroutine.Callers.Pair
use libcopp.StdCoroutine.Callers.Pair.Holds as PairHolds
use libcopp.StdCoroutine.Callers.Pair.Holds.{IsOnce}

-- A call, with the world in which it is made: which coroutines are done may change from call to call.
-- `resume_callers` empties the manager before the first caller runs, so the calls that the callers
-- make come after it.
pub data Op (W : Type 0) : Type 0 where
  adds : W → HandleDelegate → Op W
  removes : HandleDelegate → Op W
  resumes : W → Op W

module _ {W : Type 0} (rt : Runtime W) where
  -- The set after a history, the last call first.
  unfoldable pub waits : List (Op W) → ℕ → Bool
  waits [] h = false
  waits (adds w d ∷ ops) h =
      waits ops h || (is_addable (rt.is_done w) d && same_handle d.handle (some h))
  waits (removes d ∷ ops) h = waits ops h && not (same_handle d.handle (some h))
  waits (resumes w ∷ ops) h = false

  -- No coroutine is added while it waits.
  abbrev pub AddsOnce : List (Op W) → Type 0
  AddsOnce [] = Unit
  AddsOnce (adds w d ∷ ops) = ((h : ℕ) → d.handle ≡ some h → waits ops h ≡ false) × AddsOnce ops
  AddsOnce (removes d ∷ ops) = AddsOnce ops
  AddsOnce (resumes w ∷ ops) = AddsOnce ops

  pub run_variant : List (Op W) → Variant.Callers
  run_variant [] = Variant.no_callers
  run_variant (adds w d ∷ ops) = Variant.add_caller (rt.is_done w) (run_variant ops) d
  run_variant (removes d ∷ ops) = (Variant.remove_caller (run_variant ops) d).0
  run_variant (resumes w ∷ ops) = (Variant.resume_callers rt w (run_variant ops)).0

  pub run_pair : List (Op W) → Pair.Callers
  run_pair [] = Pair.no_callers
  run_pair (adds w d ∷ ops) = Pair.add_caller (rt.is_done w) (run_pair ops) d
  run_pair (removes d ∷ ops) = (Pair.remove_caller (run_pair ops) d).0
  run_pair (resumes w ∷ ops) = (Pair.resume_callers rt w (run_pair ops)).0

  run_variant-contains :
      (ops : List (Op W)) (h : ℕ) → Variant.contains h (run_variant ops) ≡ waits ops h
  unfolding run_variant waits
  run_variant-contains [] h = VariantHolds.no_callers-contains h
  run_variant-contains (adds w d ∷ ops) h =
      VariantHolds.add_caller-contains (rt.is_done w) (run_variant ops) d h
      ∙ ap (λ b. b || (is_addable (rt.is_done w) d && same_handle d.handle (some h)))
          (run_variant-contains ops h)
  run_variant-contains (removes d ∷ ops) h =
      VariantHolds.remove_caller-contains (run_variant ops) d h
      ∙ ap (λ b. b && not (same_handle d.handle (some h))) (run_variant-contains ops h)
  run_variant-contains (resumes w ∷ ops) h = VariantHolds.resumed-contains rt w (run_variant ops) h

  run_pair-contains :
      (ops : List (Op W))
      → AddsOnce ops
      → IsOnce (run_pair ops) × ((h : ℕ) → Pair.contains h (run_pair ops) ≡ waits ops h)
  unfolding run_pair waits
  run_pair-contains [] once = ((λ h e. cc), (λ h. PairHolds.no_callers-contains h))
  run_pair-contains (adds w d ∷ ops) once =
      let (o, c) = run_pair-contains ops once.1 in
      (
        PairHolds.add_caller-IsOnce (rt.is_done w) (run_pair ops) d o (λ k e. c k ∙ once.0 k e),
        (λ h.
            PairHolds.add_caller-contains (rt.is_done w) (run_pair ops) d h
            ∙ ap (λ b. b || (is_addable (rt.is_done w) d && same_handle d.handle (some h))) (c h)),
      )
  run_pair-contains (removes d ∷ ops) once =
      let (o, c) = run_pair-contains ops once in
      (
        PairHolds.remove_caller-IsOnce (run_pair ops) d o,
        (λ h.
            PairHolds.remove_caller-contains (run_pair ops) d h o
            ∙ ap (λ b. b && not (same_handle d.handle (some h))) (c h)),
      )
  run_pair-contains (resumes w ∷ ops) once = (
    PairHolds.resumed-IsOnce rt w (run_pair ops),
    (λ h. PairHolds.resumed-contains rt w (run_pair ops) h),
  )

  -- After any history of additions, removals and resumptions that adds no coroutine while it waits,
  -- both managers hold exactly the coroutines of the abstract set; the next removal of a coroutine
  -- says in both whether it was there, and the next resumption goes, in both, through a list of
  -- exactly the coroutines of the set.
  pub managers-agree :
      (ops : List (Op W)) (h : ℕ) (d : HandleDelegate) (w : W)
      → AddsOnce ops
      → d.handle ≡ some h
      → (Variant.contains h (run_variant ops) ≡ waits ops h)
        × (Pair.contains h (run_pair ops) ≡ waits ops h)
        × ((Variant.remove_caller (run_variant ops) d).1 ≡ waits ops h)
        × ((Pair.remove_caller (run_pair ops) d).1 ≡ waits ops h)
        × ((l : List HandleDelegate) × ((k : ℕ) → has (some k) l ≡ waits ops k)
            × (let (m, w', n) = Variant.resume_callers rt w (run_variant ops) in
                (w', n) ≡ resume_all rt w l))
        × ((l : List HandleDelegate) × ((k : ℕ) → has (some k) l ≡ waits ops k)
            × (let (m, w', n) = Pair.resume_callers rt w (run_pair ops) in
                (w', n) ≡ resume_all rt w l))
  managers-agree ops h d w once e =
      let v = run_variant-contains ops in
      let p = (run_pair-contains ops once).1 in
      let mv = run_variant ops in
      let mp = run_pair ops in
      (
        v h,
        p h,
        (VariantHolds.remove_caller-found mv d h e ∙ v h),
        (PairHolds.remove_caller-found mp d h e ∙ p h),
        (
          VariantHolds.taken mv,
          (λ k. VariantHolds.has-taken mv k ∙ v k),
          VariantHolds.resume_callers-taken rt w mv,
        ),
        (
          PairHolds.taken mp,
          (λ k. PairHolds.has-taken mp k ∙ p k),
          PairHolds.resume_callers-taken rt w mp,
        ),
      )

  -- A coroutine that is added twice and removed once waits no more in the first manager, and waits
  -- still in the second.
  pub added_twice :
      (w : W) (d : HandleDelegate) (h : ℕ)
      → d.handle ≡ some h
      → rt.is_done w h ≡ false
      → let ops = removes d ∷ adds w d ∷ adds w d ∷ [] in
        (Variant.contains h (run_variant ops) ≡ false) × (Pair.contains h (run_pair ops) ≡ true)
  unfolding run_pair waits
  added_twice w d h e f =
      let same = ap (λ o. same_handle o (some h)) e ∙ same_handle_refl (some h) in
      (
        run_variant-contains (removes d ∷ adds w d ∷ adds w d ∷ []) h ∙ ground (arith, same),
        PairHolds.adds_twice (rt.is_done w) d h e f,
      )
