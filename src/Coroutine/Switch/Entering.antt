-- ===== src/Coroutine/Switch/Entering.antt =====
-- What `start` does to the stack of running coroutines.
use libcopp.Base.{
  ℕ, ◌≡◌, refl, sym, ap, ◌∙◌, subst, ◌≢◌, ◌⊎◌, inl, inr, false, Option, none, some, List, ◌∷◌,
  arith, ◌==◌,
}
use mathlib.Core.Path.{ap₂}
use libcopp.Coroutine.Switch.{
  ready, running, FContext, entry, in_start, in_yield, World, with_ctx, set_caller, set_callee,
  deliver, switches, is_marked_finished, Claim, claim, land, start_from, start,
}
use libcopp.Coroutine.Switch.Nested.{
  elem, top, IsActive, IsIdle, Nested, Chain-mono, elem-false, top-elem,
}

-- The world in which `i` runs, started by `below` with `p`.
entered : Option ℕ → World → ℕ → ℕ → World
unfolding set_caller set_callee
entered below w i p =
    let back = in_start below i in
    let claimed_ctx = with_ctx w i (record (w.ctx i) { status = running }) in
    deliver
      (record (set_callee (set_caller claimed_ctx (some i) back) below back) { this_co = some i }) i
      p

land-entered :
    (f : FContext) (w : World) (below : Option ℕ) (i p : ℕ)
    → (f ≡ entry i) ⊎ (f ≡ in_yield i)
    → land f
        (in_start below i)
        (record { from_co = below; to_co = some i; priv_data = p })
        (with_ctx w i (record (w.ctx i) { status = running }))
      ≡ switches (entered below w i p)
unfolding land entered
land-entered f w below i p (inl e) = rw e
land-entered f w below i p (inr e) = rw e

claim-ready : claim 3 ready ready ≡ Claim.claimed running
unfolding claim
claim-ready = refl

start-entered :
    (w : World) (i p : ℕ) (f : FContext)
    → (w.ctx i).callee ≡ some f
    → (w.ctx i).status ≡ ready
    → (f ≡ entry i) ⊎ (f ≡ in_yield i)
    → start w i p ≡ switches (entered w.this_co w i p)
unfolding start
start-entered w i p f e r at =
    ap₂ (start_from w i p) e (ap (claim 3 ready) r ∙ claim-ready)
    ∙ land-entered f w w.this_co i p at

entered-other :
    (t : Option ℕ) (w : World) (i p j : ℕ)
    → (j == i) ≡ false
    → t ≢ some j
    → (entered t w i p).ctx j ≡ w.ctx j
unfolding entered
entered-other none w i p j h k = ground arith
entered-other (some b) w i p j h k = ground arith

entered-current : (t : Option ℕ) (w : World) (i p : ℕ) → (entered t w i p).this_co ≡ some i
unfolding entered
entered-current none w i p = refl
entered-current (some k) w i p = refl

entered-delivered : (t : Option ℕ) (w : World) (i p : ℕ) → (entered t w i p).delivered i ≡ p
unfolding entered
entered-delivered none w i p = ground arith
entered-delivered (some k) w i p = ground arith

entered-IsActive :
    (t : Option ℕ) (w : World) (i p j : ℕ) (b : Option ℕ)
    → (j == i) ≡ false
    → IsActive b j (w.ctx j)
    → IsActive b j ((entered t w i p).ctx j)
unfolding entered
entered-IsActive none w i p j b h a = record {
  is_running = ground arith;
  unmarked = ground arith;
  back = ground arith;
  saved = ground arith;
}
entered-IsActive (some k) w i p j b h a = record {
  is_running = ground arith;
  unmarked = ground arith;
  back = ground arith;
  saved = ground arith;
}

entered_top :
    (t : Option ℕ) (w : World) (i p : ℕ) (f : FContext)
    → (w.ctx i).callee ≡ some f
    → is_marked_finished (w.ctx i).flags ≡ false
    → t ≢ some i
    → IsActive t i ((entered t w i p).ctx i)
unfolding entered
entered_top none w i p f e u h = record {
  is_running = ground arith;
  unmarked = ground arith;
  back = ground arith;
  saved = ground arith;
}
entered_top (some k) w i p f e u h = record {
  is_running = ground arith;
  unmarked = ground arith;
  back = ground arith;
  saved = ground arith;
}

module _ (w : World) (s : List ℕ) (i : ℕ) (n : Nested w s) where
  entered-Nested :
      (p : ℕ) (f : FContext)
      → (w.ctx i).callee ≡ some f
      → (w.ctx i).status ≡ ready
      → Nested (entered (top s) w i p) (i ∷ s)
  entered-Nested p f e r =
      let out = elem-false w s i n (λ h. cc) in
      let above : (j : ℕ) → elem j s ≡ false → top s ≢ some j = λ j h k. cc (top-elem s j k) in
      record {
        current = entered-current (top s) w i p;
        active = (
          out,
          entered_top (top s) w i p f e ((n.idle i out).unmarked (λ h. cc)) (above i out),
          Chain-mono w.ctx _ s
              (λ j b el a. entered-IsActive (top s) w i p j b (ground (arith, out)) a) n.active,
        );
        idle = λ j h.
            subst (IsIdle j)
              (sym (entered-other (top s) w i p j (ground arith) (above j (ground arith))))
              (n.idle j (ground arith));
      }

  -- A coroutine that is ready and has a context to jump to, started by whatever runs, runs on top
  -- of the stack, with the private data of the call; nothing else on the stack or off it is lost.
  pub start-Nested :
      (p : ℕ) (f : FContext)
      → (w.ctx i).callee ≡ some f
      → (w.ctx i).status ≡ ready
      → (w' : World) × (start w i p ≡ switches w') × Nested w' (i ∷ s) × (w'.delivered i ≡ p)
  start-Nested p f e r =
      let out = elem-false w s i n (λ h. cc) in
      (
        entered (top s) w i p,
        start-entered w i p f e r ((n.idle i out).rests f e)
            ∙ ap (λ t. switches (entered t w i p)) n.current,
        entered-Nested p f e r,
        entered-delivered (top s) w i p,
      )
