-- ===== src/IntrusivePtr/Programs.antt =====
-- Programs that construct, assign, reset, swap and detach pointers in any order.
use libcopp.Base.{
  ℕ, zero, suc, ◌<◌, ◌≡◌, refl, sym, ap, ◌∙◌, subst, inl, inr, Bool, true, false, Option, none,
  some, List, [], ◌∷◌, arith, ◌==◌, if◌then◌else◌, Option-cases, length,
}
use libcopp.IntrusivePtr.{
  Store, get, set, intrusive_ptr_add_ref, hand_over, construct, copy_construct, move_construct,
  swap_temporary, copy_assign, move_assign, reset, reset_to, swap, detach, destruct,
  intrusive_ptr_release,
}
use libcopp.IntrusivePtr.Counts.{
  holds, refs, refs-set, length-set, IsCounted, HasRoom, add_ref-IsCounted, set-IsCounted,
  get-alive, swap_temporary-IsCounted,
}

abbrev pub nulls : ℕ → List (Option ℕ)
nulls zero = []
nulls (suc n) = none ∷ nulls n

-- `n` variables that hold null, and no object that was ever counted.
abbrev pub fresh : ℕ → Store
fresh n = record {
  vars = nulls n;
  intrusive_ref_counter = λ p. 0;
  deleted = λ p. 0;
  raw = λ p. 0;
  is_managed = λ p. false;
}

-- A raw pointer is given to `reset` while its object is alive, and without a count only by a caller
-- that keeps a reference.
abbrev pub MayTake : Store → Option ℕ → Bool → Type 0
MayTake s none add_ref = Unit
MayTake s (some p) true = s.deleted p ≡ 0
MayTake s (some p) false = 0 < s.raw p

pub data Step (s : Store) : Store → Type 0 where
  copies : (i j : ℕ) → i < length s.vars → Step s (copy_assign s i j)
  moves : (i j : ℕ) → i < length s.vars → j < length s.vars → Step s (move_assign s i j)
  resets : (i : ℕ) → i < length s.vars → Step s (reset s i)
  resets_to :
      (i : ℕ) (p : Option ℕ) (add_ref : Bool)
      → i < length s.vars
      → MayTake s p add_ref
      → Step s (reset_to s i p add_ref)
  swaps : (i j : ℕ) → i < length s.vars → j < length s.vars → Step s (swap s i j)
  detaches : (i : ℕ) → i < length s.vars → Step s (detach s i).0

-- The number of references to an object stays below 2 ^ 64.
pub data Reach (n : ℕ) : Store → Type 0 where
  begins : Reach n (fresh n)
  later : {s t : Store} → Reach n s → HasRoom 2 s → Step s t → Reach n t

nulls-refs : (n p : ℕ) → refs (nulls n) p ≡ 0
nulls-refs zero p = refl
nulls-refs (suc n) p = omega (arith, nulls-refs n p)

copy_assign-IsCounted :
    (s : Store) (i j : ℕ)
    → IsCounted s none
    → HasRoom 2 s
    → i < length s.vars
    → IsCounted (copy_assign s i j) none
unfolding copy_assign copy_construct intrusive_ptr_add_ref
copy_assign-IsCounted s i j c room h = elim (Option-cases (get s.vars j)) [
  | inl e ↦ rw (e, copy_assign, copy_construct) (swap_temporary-IsCounted s none i c room h)
  | inr (p, e) ↦
      rw (e, copy_assign, copy_construct)
        (swap_temporary-IsCounted (intrusive_ptr_add_ref s (some p)) (some p) i
          (add_ref-IsCounted s p c (λ q. omega (arith, room q)) (get-alive s j p c e)) room h)
]

move_assign-IsCounted :
    (s : Store) (i j : ℕ)
    → IsCounted s none
    → HasRoom 2 s
    → i < length s.vars
    → j < length s.vars
    → IsCounted (move_assign s i j) none
unfolding move_assign move_construct
move_assign-IsCounted s i j c room h k =
    swap_temporary-IsCounted (record s { vars = set s.vars j none }) (get s.vars j) i
      (set-IsCounted s none j c k) (λ p. omega (arith, refs-set s.vars j p none k, room p))
      (omega (arith, length-set s.vars j none))

reset_to-IsCounted :
    (s : Store) (i : ℕ) (p : Option ℕ) (add_ref : Bool)
    → IsCounted s none
    → HasRoom 2 s
    → i < length s.vars
    → MayTake s p add_ref
    → IsCounted (reset_to s i p add_ref) none
unfolding reset_to construct intrusive_ptr_add_ref
reset_to-IsCounted s i none true c room h k = swap_temporary-IsCounted s none i c room h
reset_to-IsCounted s i none false c room h k = swap_temporary-IsCounted s none i c room h
reset_to-IsCounted s i (some p) true c room h k =
    swap_temporary-IsCounted (intrusive_ptr_add_ref s (some p)) (some p) i
      (add_ref-IsCounted s p c (λ q. omega (arith, room q)) k) room h
reset_to-IsCounted s i (some p) false c room h k =
    swap_temporary-IsCounted (hand_over s (some p)) (some p) i
      (record {
        counted = λ q. ground (arith, c.counted q, k);
        alive = c.alive;
        once = c.once;
        gone = c.gone;
        managed = c.managed;
      })
      (λ q. ground (arith, room q)) h

-- The variable `j` keeps what it holds when `i` gets it.
get-set_same : (l : List (Option ℕ)) (i j : ℕ) → get (set l i (get l j)) j ≡ get l j
unfolding get set
get-set_same [] i j = refl
get-set_same (v ∷ l) zero zero = refl
get-set_same (v ∷ l) zero (suc j) = refl
get-set_same (v ∷ l) (suc i) zero = refl
get-set_same (v ∷ l) (suc i) (suc j) = get-set_same l i j

swap-IsCounted :
    (s : Store) (i j : ℕ)
    → IsCounted s none
    → i < length s.vars
    → j < length s.vars
    → IsCounted (swap s i j) none
unfolding swap
swap-IsCounted s i j c h k =
    let one = set s.vars i (get s.vars j) in
    record {
      counted = λ q.
          let first = refs-set s.vars i q (get s.vars j) h in
          let next =
            refs-set one j q (get s.vars i)
              (omega (arith, length-set s.vars i (get s.vars j), k)) in
          let kept : holds (get one j) q ≡ holds (get s.vars j) q =
            ap (λ v. holds v q) (get-set_same s.vars i j) in
          omega (arith, c.counted q, first, next, kept);
      alive = c.alive;
      once = c.once;
      gone = c.gone;
      managed = c.managed;
    }

detach-IsCounted :
    (s : Store) (i : ℕ) → IsCounted s none → i < length s.vars → IsCounted (detach s i).0 none
unfolding detach
detach-IsCounted s i c h = elim (Option-cases (get s.vars i)) [
  | inl e ↦ rw (e, detach) (subst (IsCounted _) e (set-IsCounted s none i c h))
  | inr (p, e) ↦
      let t : IsCounted (record s { vars = set s.vars i none }) (some p) =
        subst (IsCounted _) e (set-IsCounted s none i c h) in
      rw (e, detach)
        (record {
          counted = λ q. ground (arith, t.counted q);
          alive = t.alive;
          once = t.once;
          gone = t.gone;
          managed = t.managed;
        })
]

Step-IsCounted : (s t : Store) → IsCounted s none → HasRoom 2 s → Step s t → IsCounted t none
unfolding reset
Step-IsCounted s _ c room (copies i j h) = copy_assign-IsCounted s i j c room h
Step-IsCounted s _ c room (moves i j h k) = move_assign-IsCounted s i j c room h k
Step-IsCounted s _ c room (resets i h) = swap_temporary-IsCounted s none i c room h
Step-IsCounted s _ c room (resets_to i p a h k) = reset_to-IsCounted s i p a c room h k
Step-IsCounted s _ c room (swaps i j h k) = swap-IsCounted s i j c h k
Step-IsCounted s _ c room (detaches i h) = detach-IsCounted s i c h

-- In every store that a program reaches, the counter of each object is the number of variables and
-- kept references that hold it, an object that is held is not deleted, none is deleted twice, and one
-- that was counted and is held no more is deleted.
pub Reach-IsCounted : (n : ℕ) (s : Store) → Reach n s → IsCounted s none
Reach-IsCounted n _ begins = record {
  counted = λ p. sym (omega (arith, nulls-refs n p));
  alive = λ p h. refl;
  once = λ p. omega arith;
  gone = λ p h k. absurd cc;
  managed = λ p h. absurd (omega arith);
}
Reach-IsCounted n t (later {s} r room st) = Step-IsCounted s t (Reach-IsCounted n s r) room st

pub get-set :
    (l : List (Option ℕ)) (i k : ℕ) (v : Option ℕ)
    → i < length l
    → get (set l i v) k ≡ (if i == k then v else get l k)
unfolding get set
get-set [] i k v h = absurd (omega arith)
get-set (u ∷ l) zero zero v h = refl
get-set (u ∷ l) zero (suc k) v h = ground arith
get-set (u ∷ l) (suc i) zero v h = ground arith
get-set (u ∷ l) (suc i) (suc k) v h = ground (arith, get-set l i k v (omega arith))

destruct-vars : (s : Store) (p : Option ℕ) → (destruct s p).vars ≡ s.vars
unfolding destruct intrusive_ptr_release
destruct-vars s none = refl
destruct-vars s (some p) = refl

add_ref-vars : (s : Store) (p : Option ℕ) → (intrusive_ptr_add_ref s p).vars ≡ s.vars
unfolding intrusive_ptr_add_ref
add_ref-vars s none = refl
add_ref-vars s (some p) = refl

-- After an assignment the variable holds what the other held; the other holds it still after a copy
-- and nothing after a move, unless they are the same variable, which keeps what it holds. All other
-- variables hold what they held.
pub assign-get :
    (s : Store) (i j k : ℕ)
    → i < length s.vars
    → j < length s.vars
    → (get (copy_assign s i j).vars k ≡ (if i == k then get s.vars j else get s.vars k))
      × (get (move_assign s i j).vars k
          ≡ (if i == k then get s.vars j else if j == k then none else get s.vars k))
unfolding copy_assign copy_construct move_assign move_construct swap_temporary
assign-get s i j k h h' =
    let added = add_ref-vars s (get s.vars j) in
    let moved = set s.vars j none in
    (
      ap (λ l. get l k) (destruct-vars _ (get (intrusive_ptr_add_ref s (get s.vars j)).vars i))
          ∙ ap (λ l. get (set l i (get s.vars j)) k) added
          ∙ get-set s.vars i k (get s.vars j) h,
      ap (λ l. get l k) (destruct-vars _ (get moved i))
          ∙ get-set moved i k (get s.vars j) (omega (arith, length-set s.vars j none, h))
          ∙ ap (λ v. if i == k then get s.vars j else v) (get-set s.vars j k none h'),
    )
