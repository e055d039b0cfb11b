-- ===== src/Scheduler/Loop/Breaker.antt =====
-- nc/scheduler.py: the rounds of `run` and its circuit breaker.
use neocortex.State.Rows.{over}
use neocortex.State.Incidents.{incident}
use neocortex.Scheduler.Loop.{check_breaker, round, run_turns, stop_text}
use neocortex.Prelude.{
  Bool, Bool-cases, Option, inl, inr, ltb, ◌==◌, ◌||◌, String, arith, none, some, suc, true, zero,
  ℕ, ◌+◌, ◌<◌, ◌≡◌, ◌≢◌, ◌≤◌,
}
use neocortex.Scheduler.Turn.{StepResult}
use neocortex.State.Exec.{Result, err, pure, Exec, World, ok, ◌>>=◌}
use neocortex.Config.{Config}

abbrev pub read_twice : World → World
read_twice w = record w { reads = suc (suc w.reads) }

round_stopped :
    (step : Exec StepResult) (cfg : Config) (w : World) (text : String)
    → w.host.stop ≡ some text
    → round step cfg w ≡ (ok (some true), read_twice w)
unfolding round
round_stopped step cfg w text e = ground arith

breaker_result :
    (cfg : Config) (w : World)
    → cfg.max_consecutive_failures ≤ w.host.failures
    → let r = check_breaker cfg w in
      (r.0 ≡ ok (some true)) × (r.1.host.stop ≡ some (stop_text w.host.failures))
unfolding check_breaker incident
breaker_result cfg w h = ground arith

-- When the failures in a row have reached the limit, the breaker returns true, and a later round
-- over its state also returns true, with no step run and nothing written, whatever the step would be.
pub breaker_stays_down :
    (cfg cfg' : Config) (step : Exec StepResult) (w : World)
    → cfg.max_consecutive_failures ≤ w.host.failures
    → let r = check_breaker cfg w in
      (r.0 ≡ ok (some true)) × (round step cfg' r.1 ≡ (ok (some true), read_twice r.1))
breaker_stays_down cfg cfg' step w h =
    let (returned, stopped) = breaker_result cfg w h in
    (returned, round_stopped step cfg' (check_breaker cfg w).1 (stop_text w.host.failures) stopped)

-- What follows a round ends, if the rest of the loop does.
round_ends :
    (r : Result (Option Bool) × World) (k : Exec (Option Bool)) (w : World)
    → ((v : World) → (k v).0 ≢ ok none)
    → (((λ v. r) >>= λ o. elim o [ some b ↦ pure (some b) | none ↦ k ]) w).0 ≢ ok none
round_ends (ok none, v) k w h = h v
round_ends (ok (some b), v) k w h = λ e. cc
round_ends (err x, v) k w h = λ e. cc

-- `run` with a limit on turns, and with fuel for one round more than the turns left, always gets to
-- a result: the fuel does not run out, whatever the turns do.
pub run_turns_ends :
    (step : Exec StepResult) (cfg : Config) (max_turns turns fuel : ℕ) (w : World)
    → 0 < max_turns
    → turns ≤ max_turns
    → max_turns < turns + fuel
    → (run_turns step fuel cfg max_turns turns w).0 ≢ ok none
unfolding run_turns
run_turns_ends step cfg max_turns turns zero w p q h = absurd (omega arith)
run_turns_ends step cfg max_turns turns (suc fuel) w p q h =
    elim (Bool-cases (max_turns == 0 || ltb turns max_turns)) [
      | inl more ↦ rw more (
          round_ends (round step cfg w) (run_turns step fuel cfg max_turns (turns + 1)) w λ v.
            run_turns_ends step cfg max_turns (turns + 1) fuel v p (ground arith) (omega arith))
      | inr over ↦ rw over (λ e. cc)
    ]
