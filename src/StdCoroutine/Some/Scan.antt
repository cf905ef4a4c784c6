-- ===== src/StdCoroutine/Some/Scan.antt =====
-- Which futures a wait for some of them finds ready, and when it ends.
use libcopp.Base.{
  ℕ, ◌+◌, ◌≤◌, ◌<◌, ◌≡◌, refl, ap, ◌∙◌, ◌⊎◌, inl, inr, Bool, true, false, not, ◌&&◌, List, [], ◌∷◌,
  ◌++◌, arith, ltb, leb, if◌then◌else◌, Bool-cases, Option-cases, length, length-append,
}
use mathlib.Core.Path.{fun_ext}
use libcopp.StdCoroutine.Callers.{HandleDelegate, null_delegate}
use libcopp.StdCoroutine.Promise.{running, done, status_rank}
use libcopp.StdCoroutine.Some.{
  SomeContext, SomeActions, classify, clamp_count, begin_some, scan, scan_ready, end_waitting,
  count_ready, await_resume,
}

-- The entries that pass a test, in order.
abbrev pub select : (ℕ → Bool) → List ℕ → List ℕ
select test [] = []
select test (f ∷ l) = let rest = select test l in if test f then f ∷ rest else rest

module _ {W : Type 0} (acts : SomeActions W) where
  -- A future is pending by itself, whoever waits for it.
  pub record IsStable : Type 0 where
    pub resume_stable :
        (w : W) (d : HandleDelegate) (f g : ℕ)
        → acts.is_pending (acts.resume_future w d f) g ≡ acts.is_pending w g
    pub waitting_stable :
        (w : W) (p g : ℕ) (b : Bool)
        → acts.is_pending (acts.set_internal_waitting w p b) g ≡ acts.is_pending w g

  abbrev pub is_ready_in : W → ℕ → Bool
  is_ready_in w f = not (acts.is_pending w f)

  scan-select :
      IsStable
      → (w : W) (d : HandleDelegate) (l : List ℕ)
      → ((scan acts w d l).0 ≡ select (acts.is_pending w) l)
        × ((scan acts w d l).1 ≡ select (is_ready_in w) l)
  unfolding scan
  scan-select stable w d [] = (refl, refl)
  scan-select stable w d (f ∷ l) = elim (Bool-cases (acts.is_pending w f)) [
    | inl e ↦ let (p, r) = scan-select stable w d l in rw (e, scan) (ap (λ x. f ∷ x) p, r)
    | inr e ↦
        let w' = acts.resume_future w d f in
        let same : acts.is_pending w' ≡ acts.is_pending w =
          fun_ext (λ g. stable.resume_stable w d f g) in
        let (p, r) = scan-select stable w' d l in
        let p' = p ∙ ap (λ (t : ℕ → Bool). select t l) same in
        let r' = r ∙ ap (λ (t : ℕ → Bool). select (λ g. not (t g)) l) same in
        rw (e, scan) (p', ap (λ x. f ∷ x) r')
  ]

  end_waitting-is_pending :
      IsStable
      → (w : W) (d : HandleDelegate) → acts.is_pending (end_waitting acts w d) ≡ acts.is_pending w
  unfolding end_waitting
  end_waitting-is_pending stable w d = elim (Option-cases d.handle) [
    | inl e ↦ rw (e, end_waitting) refl
    | inr (h, e) ↦ elim (Option-cases d.promise) [
      | inl k ↦ rw (e, end_waitting, k) refl
      | inr (p, k) ↦ rw (e, end_waitting, k) (fun_ext (λ g. stable.waitting_stable w p g false))
    ]
  ]

  -- What `await_resume` makes of `c` in the world `w`.
  pub record Scanned (w : W) (c c' : SomeContext) : Type 0 where
    pub still_pending : c'.pending ≡ select (acts.is_pending w) c.pending
    pub found_ready : c'.ready ≡ c.ready ++ select (is_ready_in w) c.pending
    pub rescan_at : c'.scan_bound ≡ length c'.ready
    pub ends : status_rank c'.status ≡ (
        if leb c.ready_bound (length c'.ready) && ltb (status_rank c.status) 3
        then 3
        else status_rank c.status)

  -- Where a future is pending by itself, whoever waits for it, as callables are: a
  -- wake-up below the bound is only counted. At the bound the pending futures are looked through:
  -- those that are pending stay, the others follow the ready ones in their order, and the wait is
  -- done if at least as many as the bound are ready then and it has no final status yet.
  pub await_resume-Scanned :
      IsStable
      → (c : SomeContext) (w : W) (caller : HandleDelegate)
      → let c' = (await_resume acts (c, w) caller).0 in
        (c.scan_bound + 1 < c.ready_bound) × (c' ≡ record c { scan_bound = c.scan_bound + 1 })
        ⊎ (c.ready_bound ≤ c.scan_bound + 1) × Scanned w c c'
  unfolding await_resume scan_ready count_ready
  await_resume-Scanned stable c w caller =
      elim (Bool-cases (leb c.ready_bound (c.scan_bound + 1))) [
        | inr e ↦ inl (ground (arith, e), rw (e, await_resume) refl)
        | inl e ↦
            let w' = end_waitting acts w caller in
            let same = end_waitting-is_pending stable w caller in
            let (p, r) = scan-select stable w' c.caller_handle c.pending in
            inr (
              ground (arith, e),
              rw (e, await_resume)
                  (record {
                    still_pending = p ∙ ap (λ (t : ℕ → Bool). select t c.pending) same;
                    found_ready =
                        ap (λ x. c.ready ++ x)
                          (r ∙ ap (λ (t : ℕ → Bool). select (λ g. not (t g)) c.pending) same);
                    rescan_at = refl;
                    ends = ground arith;
                  }),
            )
      ]

  classify-length :
      (w : W) (l : List ℕ) → length (classify acts w l).0 + length (classify acts w l).1 ≡ length l
  unfolding classify
  classify-length w [] = omega arith
  classify-length w (f ∷ l) = ground (arith, classify-length w l)

  -- The wait that `run` begins for all futures with an empty output.
  abbrev pub begun : List ℕ → List ℕ → SomeContext
  begun pending ready = record {
    pending = pending;
    ready = ready;
    ready_bound = length pending;
    scan_bound = length ready;
    status = running;
    caller_handle = null_delegate;
  }

  begin_some-begun :
      (w : W) (futures : List ℕ)
      → let (pending, ready) = classify acts w futures in
        0 < length pending
        → begin_some acts w 0 (length futures) futures ≡ (begun pending ready, true)
  unfolding begin_some clamp_count
  begin_some-begun w futures some_pending =
      let (pending, ready) = classify acts w futures in
      let all = classify-length w futures in
      let few : leb (length futures) (length ready) ≡ false = ground (arith, all, some_pending) in
      let bound : clamp_count (length futures) (length pending) 0 ≡ length pending =
        ground (arith, all) in
      simp (few, begin_some, bound) refl

  await_resume-begun :
      (w : W) (pending ready : List ℕ) (caller : HandleDelegate)
      → length pending ≤ length ready
      → (await_resume acts (begun pending ready, w) caller).0.status ≡ done
  unfolding await_resume scan_ready count_ready
  await_resume-begun w pending ready caller more =
      let found = (scan acts (end_waitting acts w caller) null_delegate pending).1 in
      let woken : leb (length pending) (length ready + 1) ≡ true = ground (arith, more) in
      let enough : leb (length pending) (length (ready ++ found)) ≡ true =
        ground (arith, more, length-append ready found) in
      rw (woken, await_resume, enough) refl

  -- A wait for all of some futures, with an empty output, of which some are pending and at least as
  -- many are ready already: its bound is the number of the pending ones, not that of all, so it goes
  -- on to wait and is done with the first `await_resume`, whichever futures are pending then.
  pub all_stops_early :
      (w w' : W) (futures : List ℕ) (caller : HandleDelegate)
      → 0 < length (classify acts w futures).0
      → length (classify acts w futures).0 ≤ length (classify acts w futures).1
      → let (c, goes_on) = begin_some acts w 0 (length futures) futures in
        (goes_on ≡ true)
        × (c.ready_bound ≡ length (classify acts w futures).0)
        × ((await_resume acts (c, w') caller).0.status ≡ done)
  all_stops_early w w' futures caller some_pending more_ready =
      let (pending, ready) = classify acts w futures in
      let same = begin_some-begun w futures some_pending in
      (
        ap (λ (x : SomeContext × Bool). x.1) same,
        ap (λ (x : SomeContext × Bool). x.0.ready_bound) same,
        ap (λ (x : SomeContext × Bool). (await_resume acts (x.0, w') caller).0.status) same
            ∙ await_resume-begun w' pending ready caller more_ready,
      )
