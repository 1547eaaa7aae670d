-- ===== src/Replicas/Machine.antt =====
-- The state machine of the replica logics: when a number of replicas may change.
use kosmos_v.Prelude.{ℕ, ◌+◌, ◌*◌, ◌≤◌, ◌<◌, ◌≡◌, ◌⊎◌, List, [], ◌∷◌, arith}
use kosmos_v.Prelude.Int.{ℤ, ◌<ℤ◌}
use kosmos_v.Replicas.{
  scaling_up, scaling_down, steady, HpaLogic, Clock, scale_up_period_millis,
  scale_down_period_millis, stabilize_period_millis, millis_since, advance,
}

-- The machine was scaling in the direction of the change for longer than that direction's period.
abbrev pub HasWaited : Clock → HpaLogic → ℤ → ℤ → Type 0
HasWaited clock l cur n =
    (cur <ℤ n)
      × (l.state ≡ scaling_up)
      × (scale_up_period_millis < millis_since clock.compared l.start_scale_up_time)
    ⊎ (n <ℤ cur)
      × (l.state ≡ scaling_down)
      × (scale_down_period_millis < millis_since clock.compared l.start_scale_down_time)

-- Either the replicas and the time of the last change stay, or the proposal is taken.
abbrev pub IsAdvance : Clock → HpaLogic → ℤ → ℤ → ℤ × HpaLogic → Type 0
IsAdvance clock l cur n (r, l') =
    (r ≡ cur) × (l'.stabilize_time ≡ l.stabilize_time)
    ⊎ (r ≡ n)
      × (l' ≡ record l { state = steady; stabilize_time = clock.stored })
      × HasWaited clock l cur n

pub advance-IsAdvance :
    (clock : Clock) (l : HpaLogic) (cur n : ℤ) → IsAdvance clock l cur n (advance clock l cur n)
unfolding advance
advance-IsAdvance clock l cur n = ground arith

-- One call, as seen from outside: the clock, the replicas before and after.
pub record Round : Type 0 where
  pub clock : Clock
  pub before : ℤ
  pub after : ℤ

-- A round that changes the replicas checks the clock at least the stabilization period after the
-- time t, and the next one counts from the time that this round stored.
abbrev pub Spaced : ℕ → List Round → Type 0
Spaced t [] = Unit
Spaced t (r ∷ rs) =
    (r.after ≡ r.before) × Spaced t rs
    ⊎ (t + stabilize_period_millis * 1_000_000 ≤ r.clock.checked) × Spaced r.clock.stored rs
