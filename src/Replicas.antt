-- ===== src/Replicas.antt =====
-- pkg/pod-replicas-updater/pkg/logic.go: the state that both replica logics keep, and the part of
-- `computeReplica` that they have in common, from a proposed number of replicas on.
-- A time is in nanoseconds of the monotonic clock. One call reads the clock up to three times.
pub mod Hpa
pub mod Custom
pub mod Controller
pub mod Machine
use kosmos_v.Prelude.{ℕ, ◌-◌, ◌/◌, Bool, true, false, Option}
use kosmos_v.Prelude.Tests.{ltb, if◌then◌else◌}
use kosmos_v.Prelude.Int.{ℤ, ltb_ℤ}

pub data LogicState : Type 0 where
  scaling_up scaling_down steady : LogicState

pub record HpaLogic : Type 0 where
  pub start_scale_up_time : ℕ
  pub start_scale_down_time : ℕ
  pub stabilize_time : ℕ
  pub state : LogicState

-- `newHPALogic`, with its three readings of the clock.
abbrev pub new_hpa_logic : ℕ → ℕ → ℕ → HpaLogic
new_hpa_logic up down stabilize = record {
  start_scale_up_time = up;
  start_scale_down_time = down;
  stabilize_time = stabilize;
  state = steady;
}

abbrev pub scale_up_period_millis : ℕ
scale_up_period_millis = 15000

abbrev pub scale_down_period_millis : ℕ
scale_down_period_millis = 30000

abbrev pub stabilize_period_millis : ℕ
stabilize_period_millis = 150000

-- The clock when the stabilization, when the period is checked, and when a time is stored.
pub record Clock : Type 0 where
  pub checked : ℕ
  pub compared : ℕ
  pub stored : ℕ

-- `time.Since(t).Milliseconds()` at a reading of the clock, which is not before t.
abbrev pub millis_since : ℕ → ℕ → ℕ
millis_since now t = (now - t) / 1_000_000

-- The first test of both `computeReplica`.
abbrev pub is_stabilizing : Clock → HpaLogic → Bool
is_stabilizing clock l = ltb (millis_since clock.checked l.stabilize_time) stabilize_period_millis

-- From the branch "Scale Up" on: `n` replicas are proposed and `cur` are there.
scale_up : Clock → HpaLogic → ℤ → ℤ → LogicState → ℤ × HpaLogic
scale_up clock l cur n scaling_up =
    if ltb scale_up_period_millis (millis_since clock.compared l.start_scale_up_time)
    then (n, record l { state = steady; stabilize_time = clock.stored })
    else (cur, l)
scale_up clock l cur n _ =
    (cur, record l { state = scaling_up; start_scale_up_time = clock.stored })

scale_down : Clock → HpaLogic → ℤ → ℤ → LogicState → ℤ × HpaLogic
scale_down clock l cur n scaling_down =
    if ltb scale_down_period_millis (millis_since clock.compared l.start_scale_down_time)
    then (n, record l { state = steady; stabilize_time = clock.stored })
    else (cur, l)
scale_down clock l cur n _ =
    (cur, record l { state = scaling_down; start_scale_down_time = clock.stored })

unfoldable pub advance : Clock → HpaLogic → ℤ → ℤ → ℤ × HpaLogic
unfolding scale_up scale_down
advance clock l cur n =
    if ltb_ℤ cur n
    then scale_up clock l cur n l.state
    else (if ltb_ℤ n cur
        then scale_down clock l cur n l.state
        else (cur, record l { state = steady }))
