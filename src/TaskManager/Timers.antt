-- ===== src/TaskManager/Timers.antt =====
-- `tickspec_t`, `task_timer_node` and the `std::set` of timers, a list in the order of the timers.
-- Times are not negative.
pub mod Order
use libcopp.Base.{
  ℕ, Bool, true, false, ◌&&◌, ◌||◌, List, [], ◌∷◌, ltb, leb, ◌==◌, if◌then◌else◌, ◌+◌,
}

pub record TickSpec : Type 0 where
  pub tv_sec : ℕ
  pub tv_nsec : ℕ

-- `operator<` and `operator<=`.
pub tick_before : TickSpec → TickSpec → Bool
tick_before l r = if l.tv_sec == r.tv_sec then ltb l.tv_nsec r.tv_nsec else ltb l.tv_sec r.tv_sec

pub tick_until : TickSpec → TickSpec → Bool
tick_until l r = if l.tv_sec == r.tv_sec then leb l.tv_nsec r.tv_nsec else leb l.tv_sec r.tv_sec

pub record TimerNode : Type 0 where
  pub expired_time : TickSpec
  pub task_id : ℕ

pub timer_same : TimerNode → TimerNode → Bool
timer_same l r =
    ((l.expired_time.tv_sec == r.expired_time.tv_sec)
      && (l.expired_time.tv_nsec == r.expired_time.tv_nsec))
    && (l.task_id == r.task_id)

pub timer_before : TimerNode → TimerNode → Bool
unfolding tick_before
timer_before l r =
    if (l.expired_time.tv_sec == r.expired_time.tv_sec)
      && (l.expired_time.tv_nsec == r.expired_time.tv_nsec)
    then ltb l.task_id r.task_id
    else tick_before l.expired_time r.expired_time

-- `insert`, with whether the timer was new.
unfoldable pub insert : TimerNode → List TimerNode → List TimerNode × Bool
insert t [] = (t ∷ [], true)
insert t (u ∷ l) =
    let rest = insert t l in
    if timer_before t u
    then (t ∷ u ∷ l, true)
    else if timer_same t u
    then (u ∷ l, false)
    else (u ∷ rest.0, rest.1)

-- `erase` of the timer that an iterator points to.
pub erase : TimerNode → List TimerNode → List TimerNode
erase t [] = []
erase t (u ∷ l) = let rest = erase t l in if timer_same t u then rest else u ∷ rest

unfoldable pub has : TimerNode → List TimerNode → Bool
has t [] = false
has t (u ∷ l) = timer_same t u || has t l

-- Each timer moved on by the time of the first tick.
pub shift : TickSpec → TimerNode → TimerNode
shift now t = record {
  expired_time = record {
    tv_sec = t.expired_time.tv_sec + now.tv_sec;
    tv_nsec = t.expired_time.tv_nsec + now.tv_nsec;
  };
  task_id = t.task_id;
}

pub shift_all : TickSpec → List TimerNode → List TimerNode
unfolding insert
shift_all now [] = []
shift_all now (t ∷ l) = (insert (shift now t) (shift_all now l)).0
