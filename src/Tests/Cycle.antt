-- ===== src/Tests/Cycle.antt =====
-- The cyclic runner and the text of a runtime state at concrete inputs.
use mo_driver_pc_ether_cat.Common.{refl, true, some, List, [], ◌∷◌}
use mo_driver_pc_ether_cat.Common.Int.{pos}
use mo_driver_pc_ether_cat.Runner.{
  Runner, sleeping, Step, starts, stops, joins, turns, sets_priority, new_runner, after_steps,
  start, turn,
}
use mo_driver_pc_ether_cat.Runner.Halting.{IsSound, after_steps-IsSound}
use mo_driver_pc_ether_cat.Runner.Pace.{IsPaced, IsOnGrid, after_steps-IsPaced}

-- A start, two cycles of 1000, and a stop, the last step first.
abbrev life : List Step
life =
    joins
    ∷ turns 2105
    ∷ stops
    ∷ turns 1103
    ∷ turns 103
    ∷ starts (some 7)
    ∷ sets_priority (pos 80)
    ∷ []

abbrev asleep : Runner
asleep = record (new_runner 1000) { running = true; task = some 7; thread = some (sleeping 2103) }

asleep-IsSound : IsSound asleep
asleep-IsSound = record { alive = λ h. refl; waiting = λ h. refl; joined = λ h k. absurd cc }

after_steps-IsSound_example : IsSound (after_steps life (new_runner 1000))
after_steps-IsSound_example = after_steps-IsSound life 1000

after_steps-IsPaced_example :
    let r' =
      after_steps (turns 2500 ∷ turns 1900 ∷ []) (turn 103 (start (some 7) (new_runner 1000)).1) in
    IsPaced 103 1000 r'.calls × IsOnGrid 103 1000 r'
after_steps-IsPaced_example =
    after_steps-IsPaced 103 7 (new_runner 1000) (turns 2500 ∷ turns 1900 ∷ []) refl refl
      (refl, (refl, tt))
