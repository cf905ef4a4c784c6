-- ===== src/IntrusivePtr/Counts.antt =====
-- The counter of an object is the number of pointers that hold it, in every program.
use libcopp.Base.{
  ℕ, zero, suc, ◌+◌, ◌-◌, ◌%◌, ◌≤◌, ◌<◌, ◌≡◌, refl, true, Option, none, some, List, [], ◌∷◌, arith,
  ◌==◌, if◌then◌else◌, size_mod, length, sum_by,
}
use libcopp.IntrusivePtr.{
  Store, get, set, intrusive_ptr_add_ref, intrusive_ptr_release, destruct, swap_temporary,
}

abbrev pub holds : Option ℕ → ℕ → ℕ
holds none p = 0
holds (some q) p = if q == p then 1 else 0

holds_max : (v : Option ℕ) (p : ℕ) → holds v p ≤ 1
holds_max none p = omega arith
holds_max (some q) p = ground arith

-- How many variables hold `p`.
abbrev pub refs : List (Option ℕ) → ℕ → ℕ
refs l p = sum_by (λ v. holds v p) l

pub refs-set :
    (l : List (Option ℕ)) (i p : ℕ) (v : Option ℕ)
    → i < length l
    → refs (set l i v) p + holds (get l i) p ≡ refs l p + holds v p
unfolding get set
refs-set [] i p v h = absurd (omega arith)
refs-set (u ∷ l) zero p v h = omega arith
refs-set (u ∷ l) (suc i) p v h = omega (arith, refs-set l i p v (omega arith))

pub length-set : (l : List (Option ℕ)) (i : ℕ) (v : Option ℕ) → length (set l i v) ≡ length l
unfolding set
length-set [] i v = refl
length-set (u ∷ l) zero v = refl
length-set (u ∷ l) (suc i) v = omega (arith, length-set l i v)

pub holds-get : (l : List (Option ℕ)) (i p : ℕ) → holds (get l i) p ≤ refs l p
unfolding get
holds-get [] i p = omega arith
holds-get (u ∷ l) zero p = omega arith
holds-get (u ∷ l) (suc i) p = omega (arith, holds-get l i p)

-- With a temporary that holds `t`. The counter of an object is the number of its references, an
-- object with a reference is alive, none is deleted twice, and one that was counted and has no
-- reference left is deleted.
pub record IsCounted (s : Store) (t : Option ℕ) : Type 0 where
  pub counted : (p : ℕ) → s.intrusive_ref_counter p ≡ refs s.vars p + holds t p + s.raw p
  pub alive : (p : ℕ) → 0 < s.intrusive_ref_counter p → s.deleted p ≡ 0
  pub once : (p : ℕ) → s.deleted p ≤ 1
  pub gone : (p : ℕ) → s.is_managed p ≡ true → s.intrusive_ref_counter p ≡ 0 → s.deleted p ≡ 1
  pub managed : (p : ℕ) → 0 < s.intrusive_ref_counter p → s.is_managed p ≡ true

-- There is room for `n` more references to each object.
abbrev pub HasRoom : ℕ → Store → Type 0
HasRoom n s = (p : ℕ) → refs s.vars p + s.raw p + n < size_mod

pub add_ref-IsCounted :
    (s : Store) (p : ℕ)
    → IsCounted s none
    → HasRoom 1 s
    → s.deleted p ≡ 0
    → IsCounted (intrusive_ptr_add_ref s (some p)) (some p)
unfolding intrusive_ptr_add_ref
add_ref-IsCounted s p c room live = record {
  counted = λ q. ground (arith, c.counted q, c.counted p, room p);
  alive = λ q h. ground (arith, c.alive q, h, live, c.counted p, room p);
  once = c.once;
  gone = λ q h k. ground (arith, c.gone q, h, k, c.counted p, room p);
  managed = λ q h. ground (arith, c.managed q, h);
}

-- A pointer that ends with `t`, whose reference is counted.
destruct-IsCounted :
    (s : Store) (t : Option ℕ) → IsCounted s t → HasRoom 1 s → IsCounted (destruct s t) none
unfolding destruct intrusive_ptr_release
destruct-IsCounted s none c room = c
destruct-IsCounted s (some p) c room =
    let here : s.intrusive_ref_counter p ≡ refs s.vars p + 1 + s.raw p =
      ground (arith, c.counted p) in
    let down : (s.intrusive_ref_counter p + (size_mod - 1)) % size_mod ≡ refs s.vars p + s.raw p =
      omega (arith, here, room p) in
    record {
      counted = λ q. ground (arith, c.counted q, down);
      alive = λ q h. ground (arith, down, here, c.alive p, c.alive q, h);
      once = λ q. ground (arith, down, here, c.alive p, c.once q);
      gone = λ q h k. ground (arith, down, here, c.alive p, c.gone q, h, k);
      managed = λ q h. ground (arith, down, here, c.managed p, c.managed q, h);
    }

pub set-IsCounted :
    (s : Store) (t : Option ℕ) (i : ℕ)
    → IsCounted s t
    → i < length s.vars
    → IsCounted (record s { vars = set s.vars i t }) (get s.vars i)
set-IsCounted s t i c h = record {
  counted = λ q. omega (arith, c.counted q, refs-set s.vars i q t h);
  alive = c.alive;
  once = c.once;
  gone = c.gone;
  managed = c.managed;
}

-- What a variable holds is alive.
pub get-alive : (s : Store) (i p : ℕ) → IsCounted s none → get s.vars i ≡ some p → s.deleted p ≡ 0
get-alive s i p c e = c.alive p (
    omega (
      arith,
      c.counted p,
      holds-get s.vars i p,
      (let h : holds (get s.vars i) p ≡ 1 = rw e (ground arith) in h),
    ))

pub swap_temporary-IsCounted :
    (s : Store) (t : Option ℕ) (i : ℕ)
    → IsCounted s t
    → HasRoom 2 s
    → i < length s.vars
    → IsCounted (swap_temporary (s, t) i) none
unfolding swap_temporary
swap_temporary-IsCounted s t i c room h =
    destruct-IsCounted (record s { vars = set s.vars i t }) (get s.vars i) (set-IsCounted s t i c h)
      (λ p. omega (arith, refs-set s.vars i p t h, room p, holds_max t p))
