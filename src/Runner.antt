-- ===== src/Runner.antt =====
-- src/cyclic/cyclic_runner.cpp and src/cyclic/cyclic_runner.h: a thread that runs a task in a fixed
-- cycle. The caller's thread and the loop take turns: a turn of the loop goes from its waking to its
-- next sleep, with the time it wakes at. A task is a number, and `none` the empty std::function; the
-- cycle time is taken as not negative.
pub mod Pace
pub mod Halting
use mo_driver_pc_ether_cat.Common.{
  ℕ, ◌+◌, leb, Bool, true, false, Option, none, some, List, [], ◌∷◌, if◌then◌else◌,
}
use mo_driver_pc_ether_cat.Common.Int.{ℤ, pos, negsuc}

-- Where the loop stands: made and not yet run, asleep until a deadline, or at its end.
pub data Phase : Type 0 where
  starting ended : Phase
  sleeping : ℕ → Phase

pub record Call : Type 0 where
  pub task : ℕ
  pub time : ℕ

-- A call of pthread_setschedparam or of pthread_setaffinity_np, whose failure is logged only.
pub data Setting : Type 0 where
  scheduled pinned : ℕ → Setting

-- The fields of the class, with the thread as `none` where it is not joinable; whether the caller
-- is inside Stop; and what was done, the last call first.
pub record Runner : Type 0 where
  pub cycle_time_us : ℕ
  pub realtime_priority : ℤ
  pub cpu_affinity : ℤ
  pub running : Bool
  pub thread : Option Phase
  pub task : Option ℕ
  pub stopping : Bool
  pub calls : List Call
  pub settings : List Setting

-- CyclicRunner runner(cycle_time_us)
abbrev pub new_runner : ℕ → Runner
new_runner cycle_time_us = record {
  cycle_time_us = cycle_time_us;
  realtime_priority = negsuc 0;
  cpu_affinity = negsuc 0;
  running = false;
  thread = none;
  task = none;
  stopping = false;
  calls = [];
  settings = [];
}

-- A field that is not negative is applied.
abbrev pub apply_field : ℤ → (ℕ → Setting) → List Setting → List Setting
apply_field (pos n) setting settings = setting n ∷ settings
apply_field (negsuc n) setting settings = settings

unfoldable pub apply_thread_settings : Runner → Runner
apply_thread_settings r = record r {
  settings =
      apply_field r.cpu_affinity pinned (apply_field r.realtime_priority scheduled r.settings);
}

unfoldable pub start : Option ℕ → Runner → Bool × Runner
unfolding apply_thread_settings
start task r = if r.running then (false, r) else (
  true,
  apply_thread_settings (record r { task = task; running = true; thread = some starting }),
)

-- Stop, up to the join.
unfoldable pub stop : Runner → Runner
stop r = if r.running then record r { running = false; stopping = true } else r

-- The destructor, which waits as Stop does.
unfoldable pub destroy : Runner → Runner
unfolding stop
destroy r = stop r

-- The return of the join, once the loop is at its end.
unfoldable pub join : Runner → Runner
join r = elim r.thread [
  | some ended ↦ (if r.stopping then record r { thread = none; stopping = false } else r)
  | _ ↦ r
]

unfoldable pub is_running : Runner → Bool
is_running r = r.running

unfoldable pub set_realtime_priority : ℤ → Runner → Runner
set_realtime_priority priority r = record r { realtime_priority = priority }

unfoldable pub set_cpu_affinity : ℤ → Runner → Runner
set_cpu_affinity cpu_id r = record r { cpu_affinity = cpu_id }

-- task_(), unless it is empty
abbrev pub call_task : Option ℕ → ℕ → List Call → List Call
call_task none now calls = calls
call_task (some task) now calls = record { task = task; time = now } ∷ calls

-- The body of the `while` loop, from the test to the sleep.
unfoldable pub round : (next_time now : ℕ) → Runner → Runner
round next_time now r =
    if r.running
    then record r {
      calls = call_task r.task now r.calls;
      thread = some (sleeping (next_time + r.cycle_time_us));
    }
    else record r { thread = some ended }

-- A turn of RunLoop. A loop whose deadline has not come sleeps on.
unfoldable pub turn : ℕ → Runner → Runner
unfolding round
turn now r = elim r.thread [
  | some starting ↦ round now now r
  | some (sleeping next_time) ↦ (if leb next_time now then round next_time now r else r)
  | _ ↦ r
]

-- What can happen to a runner that one thread calls.
pub data Step : Type 0 where
  starts : Option ℕ → Step
  stops joins : Step
  sets_priority sets_affinity : ℤ → Step
  turns : ℕ → Step

-- While the caller is inside Stop, it can make no other call.
unfoldable pub step : Step → Runner → Runner
unfolding start stop join set_realtime_priority set_cpu_affinity turn
step (turns now) r = turn now r
step joins r = join r
step (starts task) r = if r.stopping then r else (start task r).1
step stops r = if r.stopping then r else stop r
step (sets_priority priority) r = if r.stopping then r else set_realtime_priority priority r
step (sets_affinity cpu_id) r = if r.stopping then r else set_cpu_affinity cpu_id r

-- The last step stands first.
unfoldable pub after_steps : List Step → Runner → Runner
unfolding step
after_steps [] r = r
after_steps (s ∷ steps) r = step s (after_steps steps r)
