-- ===== src/Runner/Halting.antt =====
-- The thread of src/cyclic/cyclic_runner.cpp: when there is one, and how it ends.
use mo_driver_pc_ether_cat.Common.{
  ℕ, ◌≤◌, ◌≡◌, refl, Bool, true, false, Option, none, some, List, [], ◌∷◌, All, arith,
}
use mo_driver_pc_ether_cat.Runner.{
  Runner, Phase, starting, sleeping, Step, starts, step, after_steps, start, stop, join, turn,
  round, set_realtime_priority, set_cpu_affinity, apply_thread_settings, new_runner,
}

-- The loop can still run its task.
abbrev pub is_live : Option Phase → Bool
is_live (some starting) = true
is_live (some (sleeping next_time)) = true
is_live _ = false

-- The thread is there exactly from Start to the end of Stop.
pub record IsSound (r : Runner) : Type 0 where
  pub alive : r.running ≡ true → is_live r.thread ≡ true
  pub waiting : r.running ≡ true → r.stopping ≡ false
  pub joined : r.running ≡ false → r.stopping ≡ false → r.thread ≡ none

step-IsSound : (s : Step) (r : Runner) → IsSound r → IsSound (step s r)
unfolding step start stop join set_realtime_priority set_cpu_affinity turn round
    apply_thread_settings
step-IsSound s r w = record {
  alive = λ h. ground arith;
  waiting = λ h. ground arith;
  joined = λ h k. ground arith;
}

-- From a new runner on, whatever the caller and the thread do, in any order: while it runs there is
-- a live thread, and the thread is gone when Stop has returned, so that no Start overwrites a
-- thread that is still joinable.
pub after_steps-IsSound :
    (steps : List Step) (cycle_time_us : ℕ) → IsSound (after_steps steps (new_runner cycle_time_us))
unfolding after_steps
after_steps-IsSound [] cycle_time_us = record {
  alive = λ h. absurd cc;
  waiting = λ h. refl;
  joined = λ h k. refl;
}
after_steps-IsSound (s ∷ steps) cycle_time_us =
    step-IsSound s (after_steps steps (new_runner cycle_time_us))
      (after_steps-IsSound steps cycle_time_us)

-- The deadline of a sleeping loop has come.
abbrev pub IsDue : ℕ → Option Phase → Type 0
IsDue now (some (sleeping next_time)) = next_time ≤ now
IsDue now _ = Unit

-- A call of Stop on a sound runner that runs is over as soon as the loop has had one turn at its
-- deadline or later, and the task is not called again.
pub stop-returns :
    (now : ℕ) (r : Runner)
    → IsSound r
    → r.running ≡ true
    → IsDue now r.thread
    → ((join (turn now (stop r))).thread ≡ none)
      × ((join (turn now (stop r))).stopping ≡ false)
      × ((join (turn now (stop r))).calls ≡ r.calls)
unfolding stop turn round join
stop-returns now r w h k = (ground arith, ground arith, ground arith)

abbrev pub is_start : Step → Bool
is_start (starts task) = true
is_start _ = false

-- No Start among the steps.
abbrev pub Unstarted : List Step → Type 0
Unstarted = All (λ s. is_start s ≡ false)

still :
    (steps : List Step) (r : Runner)
    → r.running ≡ false
    → Unstarted steps
    → ((after_steps steps r).running ≡ false) × ((after_steps steps r).calls ≡ r.calls)
unfolding after_steps step start stop join set_realtime_priority set_cpu_affinity turn round
still [] r e h = (e, refl)
still (s ∷ steps) r e h = ground (arith, h.0, still steps r e h.1)

-- Once Stop was called, the task is not called again before the next Start, whatever else happens.
pub stopped-silent :
    (steps : List Step) (r : Runner)
    → Unstarted steps
    → (after_steps steps (stop r)).calls ≡ r.calls
unfolding stop
stopped-silent steps r h = ground (arith, still steps (stop r) (ground arith) h)
