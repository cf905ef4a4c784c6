-- ===== src/StdCoroutine/Promise/Tasks/Futures.antt =====
-- `task_future_base`. A variable that holds a future is a number.
use libcopp.Base.{
  ℕ, ◌+◌, ◌-◌, ◌%◌, Bool, true, false, not, ◌||◌, Option, none, some, [], ◌∷◌, ◌++◌, leb, ◌==◌,
  if◌then◌else◌, size_mod, update,
}
use libcopp.IntrusivePtr.{get, set}
use libcopp.StdCoroutine.Promise.{
  PromiseStatus, invalid, done, cancle, killed, timeout, status_rank, has_returned, check_flag,
}
use libcopp.StdCoroutine.Promise.Tasks.{Tasks, TaskRuntime, context_of, with_context, get_status}
use libcopp.StdCoroutine.Promise.Tasks.Lifetime.{release, force_finish}

-- `==` of two pointers to a context.
abbrev pub same_context : Option ℕ → Option ℕ → Bool
same_context none none = true
same_context (some a) (some b) = a == b
same_context _ _ = false

module _ {T : Type 0} where
  -- `context_`
  unfoldable pub future_context : Tasks T → ℕ → Option ℕ
  unfolding get
  future_context w f = get w.others.futures f

  abbrev pub with_future : Tasks T → ℕ → Option ℕ → Tasks T
  with_future w f c = record w { others = record w.others { futures = set w.others.futures f c } }

  -- `++future_counter_`, which is a `size_t`, of a context with a new owner.
  unfoldable pub count_future : Tasks T → Option ℕ → Tasks T
  count_future w none = w
  count_future w (some c) = record w {
    others = record w.others {
      contexts = update w.others.contexts c (record (context_of w c) {
        future_counter = ((context_of w c).future_counter + 1) % size_mod;
      });
      use_count = update w.others.use_count c (w.others.use_count c + 1);
    };
  }

  -- The constructors, into a new variable: from a context, as a copy, and by a move.
  unfoldable pub construct_future : Tasks T → Option ℕ → Tasks T
  unfolding count_future
  construct_future w c =
      let w' = count_future w c in
      record w' { others = record w'.others { futures = w'.others.futures ++ (c ∷ []) } }

  unfoldable pub copy_future : Tasks T → ℕ → Tasks T
  unfolding construct_future future_context
  copy_future w g = construct_future w (future_context w g)

  unfoldable pub move_future : Tasks T → ℕ → Tasks T
  unfolding future_context
  move_future w g =
      let w' = with_future w g none in
      record w' {
        others = record w'.others { futures = w'.others.futures ++ (future_context w g ∷ []) };
      }

  -- The variable of a future whose context is out gives its count up.
  unfoldable pub uncount_future : Tasks T → ℕ → Tasks T
  uncount_future w c = with_context w c (record (context_of w c) {
    future_counter = ((context_of w c).future_counter + (size_mod - 1)) % size_mod;
  })

  unfoldable pub future_status : Tasks T → ℕ → PromiseStatus
  unfolding future_context get_status
  future_status w f = elim (future_context w f) [ none ↦ invalid | some c ↦ get_status w c ]

  pub get_ref_future_count : Tasks T → ℕ → ℕ
  unfolding future_context
  get_ref_future_count w f = elim (future_context w f) [
    | none ↦ 0
    | some c ↦ (context_of w c).future_counter
  ]

  pub future_id : Tasks T → ℕ → ℕ
  unfolding future_context
  future_id w f = elim (future_context w f) [ none ↦ 0 | some c ↦ (context_of w c).id ]

  pub is_canceled : Tasks T → ℕ → Bool
  unfolding future_status
  is_canceled w f = status_rank (future_status w f) == status_rank cancle

  pub is_faulted : Tasks T → ℕ → Bool
  unfolding future_status
  is_faulted w f = leb (status_rank killed) (status_rank (future_status w f))

  pub is_timeout : Tasks T → ℕ → Bool
  unfolding future_status
  is_timeout w f = leb (status_rank timeout) (status_rank (future_status w f))

  unfoldable pub is_exiting : Tasks T → ℕ → Bool
  unfolding future_status
  is_exiting w f =
      let status = status_rank (future_status w f) in
      leb (status_rank done) status || (status == status_rank invalid)

  pub is_finished : Tasks T → ℕ → Bool
  unfolding check_flag
  is_finished w c =
      let d = (context_of w c).current_handle in
      elim d.handle [
        | none ↦ true
        | some h ↦
            w.is_done h
            || elim d.promise [ none ↦ true | some p ↦ check_flag (w.promises p) has_returned ]
      ]

  pub is_completed : Tasks T → ℕ → Bool
  unfolding is_exiting is_finished future_context
  is_completed w f =
      if not (is_exiting w f)
      then false
      else elim (future_context w f) [ none ↦ true | some c ↦ is_finished w c ]

module _ {T : Type 0} (rt : TaskRuntime T) where
  -- `reset`; the last future of a task finishes it. `none` when that does not end in `fuel` rounds.
  unfoldable pub reset : ℕ → Tasks T → ℕ → Option (Tasks T)
  unfolding future_context uncount_future force_finish release
  reset fuel w f = elim (future_context w f) [
    | none ↦ some w
    | some c ↦
        let w' = uncount_future (with_future w f none) c in
        if (context_of w' c).future_counter == 0
        then elim (force_finish rt fuel w' c) [ none ↦ none | some w'' ↦ release rt fuel w'' c ]
        else release rt fuel w' c
  ]

  -- `assign`, of a copy and of a moved future.
  unfoldable pub assign : ℕ → Tasks T → ℕ → ℕ → Option (Tasks T)
  unfolding reset future_context count_future
  assign fuel w f g =
      if same_context (future_context w f) (future_context w g)
      then some w
      else elim (reset fuel w f) [
        | none ↦ none
        | some w' ↦ let c = future_context w' g in some (with_future (count_future w' c) f c)
      ]

  unfoldable pub move_assign : ℕ → Tasks T → ℕ → ℕ → Option (Tasks T)
  unfolding reset future_context
  move_assign fuel w f g =
      if same_context (future_context w f) (future_context w g)
      then some w
      else elim (reset fuel w f) [
        | none ↦ none
        | some w' ↦
            some (with_future (with_future w' f (future_context w' g)) g (future_context w' f))
      ]
