-- ===== src/StdCoroutine/Callers/Tests.antt =====
-- A history of three coroutines, which end when they are resumed.
use libcopp.Base.{ℕ, ◌≡◌, refl, sym, Bool, ◌==◌, ◌||◌, true, false, none, some, List, [], ◌∷◌}
use libcopp.StdCoroutine.Callers.{HandleDelegate, has, is_addable, same_handle, Runtime, resume_all}
use libcopp.StdCoroutine.Callers.Variant
use libcopp.StdCoroutine.Callers.Pair
use libcopp.StdCoroutine.Callers.Agreement.{
  Op, adds, removes, resumes, waits, AddsOnce, run_variant, run_pair, managers-agree, added_twice,
}

abbrev is_in : ℕ → List ℕ → Bool
is_in h [] = false
is_in h (k ∷ l) = (k == h) || is_in h l

abbrev coroutine : ℕ → HandleDelegate
coroutine h = record { handle = some h; promise = none }

-- The world is the list of the coroutines that were resumed, all of which end by it.
abbrev trace : Runtime (List ℕ)
trace = record { is_done = λ w h. is_in h w; is_destroying = λ w p. false; resume = λ w h. h ∷ w }

-- 3 and 5 are added and 3 is removed, 5 is resumed, and 3 and 7 are added then.
abbrev history : List (Op (List ℕ))
history =
    adds (5 ∷ []) (coroutine 7)
    ∷ adds (5 ∷ []) (coroutine 3)
    ∷ resumes []
    ∷ removes (coroutine 3)
    ∷ adds [] (coroutine 5)
    ∷ adds [] (coroutine 3)
    ∷ []

history-AddsOnce : AddsOnce trace history
unfolding waits is_addable same_handle
history-AddsOnce = (
  (λ h e. let at : 7 ≡ h = cc in rw (sym at) refl),
  ((λ h e. refl), ((λ h e. let at : 5 ≡ h = cc in rw (sym at) refl), ((λ h e. refl), tt))),
)

managers-agree_example :
    (Variant.contains 3 (run_variant trace history) ≡ waits trace history 3)
    × (Pair.contains 3 (run_pair trace history) ≡ waits trace history 3)
    × ((Variant.remove_caller (run_variant trace history) (coroutine 3)).1 ≡ waits trace history 3)
    × ((Pair.remove_caller (run_pair trace history) (coroutine 3)).1 ≡ waits trace history 3)
    × ((l : List HandleDelegate) × ((k : ℕ) → has (some k) l ≡ waits trace history k)
        × (let (m, w', n) = Variant.resume_callers trace (5 ∷ []) (run_variant trace history) in
            (w', n) ≡ resume_all trace (5 ∷ []) l))
    × ((l : List HandleDelegate) × ((k : ℕ) → has (some k) l ≡ waits trace history k)
        × (let (m, w', n) = Pair.resume_callers trace (5 ∷ []) (run_pair trace history) in
            (w', n) ≡ resume_all trace (5 ∷ []) l))
managers-agree_example = managers-agree trace history 3 (coroutine 3) (5 ∷ []) history-AddsOnce refl

added_twice_example :
    let ops = removes (coroutine 3) ∷ adds [] (coroutine 3) ∷ adds [] (coroutine 3) ∷ [] in
    (Variant.contains 3 (run_variant trace ops) ≡ false)
    × (Pair.contains 3 (run_pair trace ops) ≡ true)
added_twice_example = added_twice trace [] (coroutine 3) 3 refl refl
