-- ===== src/IntrusivePtr.antt =====
-- include/libcopp/utils/intrusive_ptr.h: the pointer, and the counter that its macros put into an
-- object. Objects and pointer variables are numbers; null is `none`. The counter is a `size_t`.
pub mod Counts
pub mod Programs
mod Tests
use libcopp.Base.{
  [], ℕ, zero, suc, ◌+◌, ◌-◌, ◌%◌, Bool, true, Option, none, some, List, ◌∷◌, ◌==◌, if◌then◌else◌,
  size_mod, update,
}

-- The variables that hold an `intrusive_ptr`, and, of each object, its counter and how often it was
-- deleted. `raw` counts the references that a caller of `detach` keeps, and `is_managed` says
-- whether a pointer to the object was ever counted: the program keeps neither.
pub record Store : Type 0 where
  pub vars : List (Option ℕ)
  pub intrusive_ref_counter : ℕ → ℕ
  pub deleted : ℕ → ℕ
  pub raw : ℕ → ℕ
  pub is_managed : ℕ → Bool

-- `get`, which is the variable's `px`.
unfoldable pub get : List (Option ℕ) → ℕ → Option ℕ
get [] i = none
get (v ∷ l) zero = v
get (v ∷ l) (suc i) = get l i

unfoldable pub set : List (Option ℕ) → ℕ → Option ℕ → List (Option ℕ)
set [] i p = []
set (v ∷ l) zero p = p ∷ l
set (v ∷ l) (suc i) p = v ∷ set l i p

pub intrusive_ptr_add_ref : Store → Option ℕ → Store
intrusive_ptr_add_ref s none = s
intrusive_ptr_add_ref s (some p) = record s {
  intrusive_ref_counter =
      update s.intrusive_ref_counter p ((s.intrusive_ref_counter p + 1) % size_mod);
  is_managed = update s.is_managed p true;
}

-- The decrement wraps; at 0 the object is deleted.
pub intrusive_ptr_release : Store → Option ℕ → Store
intrusive_ptr_release s none = s
intrusive_ptr_release s (some p) =
    let ref = (s.intrusive_ref_counter p + (size_mod - 1)) % size_mod in
    record s {
      intrusive_ref_counter = update s.intrusive_ref_counter p ref;
      deleted = if ref == 0 then update s.deleted p (s.deleted p + 1) else s.deleted;
    }

-- A caller hands over a reference that it kept.
abbrev pub hand_over : Store → Option ℕ → Store
hand_over s none = s
hand_over s (some p) = record s { raw = update s.raw p (s.raw p - 1) }

-- The constructors, and what the constructed pointer holds.
pub construct : Store → Option ℕ → Bool → Store × Option ℕ
unfolding intrusive_ptr_add_ref
construct s p add_ref = (if add_ref then intrusive_ptr_add_ref s p else hand_over s p, p)

pub copy_construct : Store → ℕ → Store × Option ℕ
unfolding intrusive_ptr_add_ref
copy_construct s rhs = (intrusive_ptr_add_ref s (get s.vars rhs), get s.vars rhs)

pub move_construct : Store → ℕ → Store × Option ℕ
unfolding get set
move_construct s rhs = (record s { vars = set s.vars rhs none }, get s.vars rhs)

-- The destructor of a pointer that holds `px`.
pub destruct : Store → Option ℕ → Store
unfolding intrusive_ptr_release
destruct s px = intrusive_ptr_release s px

-- A temporary that holds `px` swaps with the variable, and ends.
pub swap_temporary : Store × Option ℕ → ℕ → Store
unfolding destruct
swap_temporary t this =
    let (s, px) = t in destruct (record s { vars = set s.vars this px }) (get s.vars this)

pub copy_assign : Store → ℕ → ℕ → Store
unfolding copy_construct
copy_assign s this rhs = swap_temporary (copy_construct s rhs) this

pub move_assign : Store → ℕ → ℕ → Store
unfolding move_construct
move_assign s this rhs = swap_temporary (move_construct s rhs) this

-- `reset()` and `reset(rhs, add_ref)`.
pub reset : Store → ℕ → Store
unfolding swap_temporary
reset s this = swap_temporary (s, none) this

pub reset_to : Store → ℕ → Option ℕ → Bool → Store
unfolding construct swap_temporary
reset_to s this rhs add_ref = swap_temporary (construct s rhs add_ref) this

pub swap : Store → ℕ → ℕ → Store
swap s this rhs =
    let tmp = get s.vars this in record s { vars = set (set s.vars this (get s.vars rhs)) rhs tmp }

-- `detach`; the caller keeps the reference.
pub detach : Store → ℕ → Store × Option ℕ
detach s this =
    let ret = get s.vars this in
    let rest = record s { vars = set s.vars this none } in
    elim ret [
      | none ↦ (rest, none)
      | some p ↦ (record rest { raw = update s.raw p (s.raw p + 1) }, some p)
    ]
