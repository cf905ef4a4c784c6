-- ===== src/StdCoroutine/Promise/Tasks/Counts.antt =====
-- The counter of futures of a context.
use libcopp.Base.{
  ℕ, zero, suc, ◌+◌, ◌%◌, ◌≤◌, ◌<◌, ◌≡◌, refl, ap, Option, none, some, List, [], ◌∷◌, ◌++◌, arith,
  size_mod, length, length-append, sum_by-append,
}
use libcopp.IntrusivePtr.{get, set}
use libcopp.IntrusivePtr.Counts.{holds, refs, refs-set, length-set}
use libcopp.StdCoroutine.Promise.Tasks.{TaskStore, Tasks}
use libcopp.StdCoroutine.Promise.Tasks.Lifetime.{kill_unfinished}
use libcopp.StdCoroutine.Promise.Tasks.Futures.{
  future_context, with_future, count_future, construct_future, move_future, uncount_future,
}

refs-append :
    (l : List (Option ℕ)) (v : Option ℕ) (c : ℕ) → refs (l ++ (v ∷ [])) c ≡ refs l c + holds v c
refs-append l v c = omega (arith, sum_by-append (λ (u : Option ℕ). holds u c) l (v ∷ []))

-- What is copied from a variable to another stays in the variable.
pub get-set-get :
    (l : List (Option ℕ)) (f g : ℕ) → f < length l → get (set l f (get l g)) g ≡ get l g
unfolding get set
get-set-get [] f g h = absurd (omega arith)
get-set-get (u ∷ l) zero zero h = refl
get-set-get (u ∷ l) zero (suc g) h = refl
get-set-get (u ∷ l) (suc f) zero h = refl
get-set-get (u ∷ l) (suc f) (suc g) h = get-set-get l f g (omega arith)

module _ {T : Type 0} where
  abbrev pub counter_of : TaskStore T → ℕ → ℕ
  counter_of s c = (s.contexts c).future_counter

  -- There are `n` variables at least, and each counter is the number of the variables that hold the
  -- context, modulo 2^64.
  pub record IsCounted (n : ℕ) (s : TaskStore T) : Type 0 where
    pub room : n ≤ length s.futures
    pub counted : (c : ℕ) → counter_of s c ≡ refs s.futures c % size_mod

  set-room :
      (n : ℕ) (s : TaskStore T) (f : ℕ) (v : Option ℕ)
      → IsCounted n s
      → n ≤ length (set s.futures f v)
  set-room n s f v i = omega (arith, i.room, length-set s.futures f v)

  -- A variable that loses its context, counted out.
  pub uncount_future-IsCounted :
      (n : ℕ) (w : Tasks T) (f c : ℕ)
      → IsCounted n w.others
      → f < n
      → future_context w f ≡ some c
      → IsCounted n (uncount_future (with_future w f none) c).others
  unfolding uncount_future future_context
  uncount_future-IsCounted n w f c i h e = record {
    room = set-room n w.others f none i;
    counted = λ j.
        let lost = refs-set w.others.futures f j none (omega (arith, i.room)) in
        let held : holds (get w.others.futures f) j ≡ holds (some c) j = ap (λ v. holds v j) e in
        ground (arith, lost, held, i.counted j);
  }

  -- A variable that holds nothing, and then a context that is counted in.
  pub count_future-IsCounted :
      (n : ℕ) (w : Tasks T) (f : ℕ) (v : Option ℕ)
      → IsCounted n w.others
      → f < n
      → future_context w f ≡ none
      → IsCounted n (with_future (count_future w v) f v).others
  unfolding count_future future_context
  count_future-IsCounted n w f none i h e = record {
    room = set-room n w.others f none i;
    counted = λ j.
        let lost = refs-set w.others.futures f j none (omega (arith, i.room)) in
        let held : holds (get w.others.futures f) j ≡ 0 = ap (λ v. holds v j) e in
        omega (arith, lost, held, i.counted j);
  }
  count_future-IsCounted n w f (some c) i h e = record {
    room = set-room n w.others f (some c) i;
    counted = λ j.
        let lost = refs-set w.others.futures f j (some c) (omega (arith, i.room)) in
        let held : holds (get w.others.futures f) j ≡ 0 = ap (λ v. holds v j) e in
        ground (arith, lost, held, i.counted j);
  }

  -- Two variables exchange what they hold.
  pub swap-IsCounted :
      (n : ℕ) (w : Tasks T) (f g : ℕ)
      → IsCounted n w.others
      → f < n
      → g < n
      → IsCounted n
          (with_future (with_future w f (future_context w g)) g (future_context w f)).others
  unfolding future_context
  swap-IsCounted n w f g i h k =
      let l = w.others.futures in
      let a = get l f in
      let b = get l g in
      record {
        room = omega (arith, i.room, length-set l f b, length-set (set l f b) g a);
        counted = λ j.
            let first = refs-set l f j b (omega (arith, i.room)) in
            let second = refs-set (set l f b) g j a (omega (arith, i.room, length-set l f b)) in
            let between : holds (get (set l f b) g) j ≡ holds b j =
              ap (λ v. holds v j) (get-set-get l f g (omega (arith, i.room))) in
            omega (arith, first, second, between, i.counted j);
      }

  pub construct_future-IsCounted :
      (n : ℕ) (w : Tasks T) (v : Option ℕ)
      → IsCounted n w.others
      → IsCounted n (construct_future w v).others
  unfolding construct_future count_future
  construct_future-IsCounted n w none i = record {
    room = omega (arith, i.room, length-append w.others.futures (none ∷ []));
    counted = λ j. omega (arith, refs-append w.others.futures none j, i.counted j);
  }
  construct_future-IsCounted n w (some c) i = record {
    room = omega (arith, i.room, length-append w.others.futures (some c ∷ []));
    counted = λ j. ground (arith, refs-append w.others.futures (some c) j, i.counted j);
  }

  pub move_future-IsCounted :
      (n : ℕ) (w : Tasks T) (g : ℕ)
      → IsCounted n w.others
      → g < n
      → IsCounted n (move_future w g).others
  unfolding move_future future_context
  move_future-IsCounted n w g i h =
      let l = w.others.futures in
      let l' = set l g none in
      record {
        room = omega (arith, i.room, length-set l g none, length-append l' (get l g ∷ []));
        counted = λ j.
            let lost = refs-set l g j none (omega (arith, i.room)) in
            omega (arith, lost, refs-append l' (get l g) j, i.counted j);
      }

  pub kill_unfinished-others : (w : Tasks T) (c : ℕ) → (kill_unfinished w c).others ≡ w.others
  unfolding kill_unfinished
  kill_unfinished-others w c = ground arith
