-- ===== src/Runner/Pace.antt =====
-- The schedule of src/cyclic/cyclic_runner.cpp: deadlines at a fixed distance from the first.
use mo_driver_pc_ether_cat.Common.{
  ℕ, ◌+◌, ◌*◌, ◌≤◌, ◌≡◌, ◌≢◌, is_some, true, false, some, List, [], ◌∷◌, arith, length,
}
use native.Mathlib.Nat.{suc-mul}
use mo_driver_pc_ether_cat.Runner.{
  Runner, starting, sleeping, Call, Step, step, after_steps, start, stop, join, turn, round,
  set_realtime_priority, set_cpu_affinity, apply_thread_settings,
}
use mo_driver_pc_ether_cat.Runner.Halting.{is_start, Unstarted}

-- The call number k, from 0, is not before first + k * period.
pub IsPaced : (first period : ℕ) → List Call → Type 0
IsPaced first period [] = Unit
IsPaced first period (c ∷ calls) =
    (first + length calls * period ≤ c.time) × IsPaced first period calls

-- The deadline of a sleeping loop is that of its next call.
abbrev pub IsOnGrid : (first period : ℕ) → Runner → Type 0
IsOnGrid first period r = elim r.thread [
  | some (sleeping next_time) ↦ next_time ≡ first + length r.calls * period
  | _ ↦ Unit
]

-- A loop that took its first turn at `first`, and has slept to its own deadlines since then.
record IsRegular (first period : ℕ) (r : Runner) : Type 0 where
  pub paced : IsPaced first period r.calls
  pub on_grid : IsOnGrid first period r
  pub same_period : r.cycle_time_us ≡ period
  pub started : r.thread ≢ some starting
  pub armed : r.running ≡ true → is_some r.task ≡ true

step-IsRegular :
    (first period : ℕ) (s : Step) (r : Runner)
    → is_start s ≡ false
    → IsRegular first period r
    → IsRegular first period (step s r)
unfolding step start stop join set_realtime_priority set_cpu_affinity turn round IsPaced
step-IsRegular first period s r h w = record {
  paced = ground arith;
  on_grid = ground (arith, suc-mul (length r.calls) period);
  same_period = ground arith;
  started = ground arith;
  armed = λ e. ground arith;
}

begun :
    (first : ℕ) (task : ℕ) (r : Runner)
    → r.running ≡ false
    → r.calls ≡ []
    → IsRegular first r.cycle_time_us (turn first (start (some task) r).1)
unfolding start turn round apply_thread_settings IsPaced
begun first task r e k = record {
  paced = ground arith;
  on_grid = ground arith;
  same_period = ground arith;
  started = λ h. ground arith;
  armed = λ h. ground arith;
}

regular :
    (first : ℕ) (task : ℕ) (r : Runner) (steps : List Step)
    → r.running ≡ false
    → r.calls ≡ []
    → Unstarted steps
    → IsRegular first r.cycle_time_us (after_steps steps (turn first (start (some task) r).1))
unfolding after_steps
regular first task r [] e k h = begun first task r e k
regular first task r (s ∷ steps) e k h =
    step-IsRegular first r.cycle_time_us s (after_steps steps (turn first (start (some task) r).1))
      h.0 (regular first task r steps e k h.1)

-- After a Start on a stopped runner that has called nothing yet, whatever happens without another
-- Start: counted from 0, the call number k comes at k cycle times after the first turn of the loop
-- or later, and the loop sleeps until exactly that time of its next call, however late it was
-- woken before.
pub after_steps-IsPaced :
    (first : ℕ) (task : ℕ) (r : Runner) (steps : List Step)
    → r.running ≡ false
    → r.calls ≡ []
    → Unstarted steps
    → let r' = after_steps steps (turn first (start (some task) r).1) in
      IsPaced first r.cycle_time_us r'.calls × IsOnGrid first r.cycle_time_us r'
after_steps-IsPaced first task r steps e k h =
    let w = regular first task r steps e k h in (w.paced, w.on_grid)
