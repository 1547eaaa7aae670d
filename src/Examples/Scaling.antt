-- ===== src/Examples/Scaling.antt =====
-- The theorems on replica logics at concrete inputs.
use kosmos_v.Prelude.{ℕ, ◌*◌, ◌≡◌, refl, false, [], ◌∷◌, some, arith}
use kosmos_v.Prelude.Int.{pos, ◌≤ℤ◌, ◌+ℤ◌}
use kosmos_v.Float.{to_int, mul}
use kosmos_v.Quantity.Thousandths.{Thousandths, thousandths, thousandths_quantities}
use kosmos_v.Replicas.{HpaLogic, Clock, scaling_up, steady}
use kosmos_v.Replicas.Machine.{Spaced}
use kosmos_v.Replicas.Hpa.{compute_replica}
use kosmos_v.Replicas.Hpa.Bounds.{HasLimits, IsChange, compute_replica-IsChange}
use kosmos_v.Replicas.Hpa.Tolerance.{tolerance_blocks}
use kosmos_v.Replicas.Custom.{CustomLogic}
use kosmos_v.Replicas.Custom.Bounds.{
  Call, answer_call, run, custom_compute_replica-IsChange, run-Spaced,
}
use kosmos_v.Replicas.Custom.Growth.{compute_replica-limit}
use kosmos_v.Examples.Data.{
  exact_machine, exact_machine-IsIeee, amounts, meta_of, scale_of, pod_of, agreement,
}

-- The clock in milliseconds.
abbrev pub at : ℕ → Clock
at t = record { checked = t * 1_000_000; compared = t * 1_000_000; stored = t * 1_000_000 }

abbrev growing : HpaLogic
growing = record {
  start_scale_up_time = 170000 * 1_000_000;
  start_scale_down_time = 0;
  stabilize_time = 0;
  state = scaling_up;
}

HasLimits_example : HasLimits (agreement 500 3 7)
HasLimits_example = (refl, refl, omega arith)

compute_replica-IsChange_example : IsChange (agreement 500 3 7) (at 200000) (pos 3) growing (
    compute_replica exact_machine
      (agreement 500 3 7)
      (some (thousandths (pos 900)))
      (at 200000)
      (pos 3)
      growing)
compute_replica-IsChange_example =
    compute_replica-IsChange exact_machine exact_machine-IsIeee (agreement 500 3 7)
      (some (thousandths (pos 900))) (at 200000) (pos 3) growing HasLimits_example (omega arith)

-- A target of 5 ms, for which 4.0 to 6.0 are tolerated, and five replicas exactly.
tolerance_blocks_example :
    compute_replica exact_machine
      (agreement 5 5 5)
      (some (thousandths (pos 900)))
      (at 200000)
      (pos 5)
      growing
    ≡ (pos 5, record growing { state = steady })
unfolding to_int mul
tolerance_blocks_example =
    tolerance_blocks exact_machine exact_machine-IsIeee (agreement 5 5 5) (thousandths (pos 900))
      (at 200000) (pos 5) growing (refl, refl, omega arith) (omega arith) (omega arith)
      (omega arith)

abbrev pub custom : CustomLogic
custom = record { timers = growing; early_stop = false }

abbrev call_at : ℕ → Call Thousandths
call_at t = record {
  sla = agreement 500 3 7;
  scales = scale_of "a" 100 100 ∷ [];
  find_node = λ name.
      some (record {
        meta = meta_of name;
        capacity = amounts 250 1000;
        allocatable = amounts 250 900;
      });
  pods_of = λ name. some (pod_of "a" ∷ []);
  answer = some (thousandths (pos 900));
  clock = at t;
  cur = pos 3;
}

run-Spaced_example :
    Spaced 0 (run exact_machine custom (call_at 200000 ∷ call_at 210000 ∷ call_at 400000 ∷ []))
run-Spaced_example =
    run-Spaced exact_machine (call_at 200000 ∷ call_at 210000 ∷ call_at 400000 ∷ []) custom
      exact_machine-IsIeee (HasLimits_example, (HasLimits_example, (HasLimits_example, tt)))

custom_compute_replica-IsChange_example :
    let (r, l') = answer_call exact_machine (call_at 200000) custom in
    IsChange (agreement 500 3 7) (at 200000) (pos 3) growing (r, l'.timers)
custom_compute_replica-IsChange_example =
    custom_compute_replica-IsChange exact_machine (call_at 200000) custom exact_machine-IsIeee
      HasLimits_example

compute_replica-limit_example : (answer_call exact_machine (call_at 200000) custom).0 ≤ℤ pos 4
unfolding ◌+ℤ◌
compute_replica-limit_example =
    compute_replica-limit exact_machine (call_at 200000) custom (pos 4) exact_machine-IsIeee
      HasLimits_example (omega arith) (omega arith) (omega arith)
