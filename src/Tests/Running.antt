-- ===== src/Tests/Running.antt =====
-- The application from its start to its end: src/psych.cc, Run and MainLoop.
use psych.Prelude.{suc, ◌≤◌, ◌≡◌, ◌≢◌, ◌⊎◌, true, false, none, some, [], refl}
use psych.Prelude.Bytes.{Bytes, codes}
use psych.Config.{Config, default_config}
use psych.Life.Stages.{Part, provider, Attempt, made, half_made}
use psych.Life.Run.{RunEnv, exit_failure, check_failed, run_application}
use psych.Life.Pump.{
  Loop, testing, left, Own, Reach, start, step, own, tests, returns, stops, left_over, Reach-ends,
}
use psych.Tests.Loading.{values}

-- A file that reads as the dictionary 0, and an Init whose provider does not start.
abbrev no_provider : Part → Attempt
no_provider provider = half_made
no_provider p = made

abbrev env : RunEnv values
env = record { file = some (codes "{}"); read_json = λ text. some 0; attempt = λ c. no_provider }

no_file : run_application values (record env { file = none }) default_config ≡ exit_failure []
unfolding run_application
no_file = refl

no_tree :
    run_application values (record env { read_json = λ text. none }) default_config ≡ check_failed
unfolding run_application
no_tree = refl

-- The queue is deactivated in the midst of a dispatch, which then returns.
abbrev late : Loop
late = record { is_active = false; point = testing; late = 1 }

late-Reach : Reach late
late-Reach = step (step (step start (own (tests refl))) (stops _)) (own (returns refl))

Reach-ends_example :
    (late.late ≤ 1)
    × (left_over late.point ≤ 2)
    × (((late.is_active ≡ true) × (late.late ≡ 0) × (late.point ≢ left) × ((t : Loop) × Own late t))
        ⊎ ((late.is_active ≡ false)
            × ((late.point ≡ left)
                ⊎ ((t : Loop) × Own late t × (suc (left_over t.point) ≡ left_over late.point)))))
Reach-ends_example = Reach-ends late-Reach
