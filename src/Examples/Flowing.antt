-- ===== src/Examples/Flowing.antt =====
-- The theorems on the pipeline at concrete inputs.
use kosmos_v.Prelude.{
  ◌⊎◌, str_eq, Option, none, ℕ, zero, suc, ◌≤◌, String, ◌≡◌, refl, subst, some, List, [], ◌∷◌,
  arith,
}
use kosmos_v.Prelude.Tests.{if◌then◌else◌}
use kosmos_v.Prelude.Lists.{length, All}
use kosmos_v.Prelude.Results.{ok}
use kosmos_v.Prelude.Int.{pos, ◌+ℤ◌, ◌-ℤ◌}
use kosmos_v.Quantity.Thousandths.{
  Thousandths, thousandths, thousandths_quantities, Thousandths-IsDecimal,
}
use kosmos_v.Float.{add, mul, div, max, min, trunc, to_int}
use kosmos_v.Api.{cpu_of, Node, Pod, PodScale, ServiceLevelAgreement}
use kosmos_v.Recommender.{
  container_to_scale, next_cores, apply_bounds, compute_memory_resource, with_desired,
  new_fixed_gain_logic, control_error, compute_cpu_fixed, compute_cpu_resource, compute_pod_scale,
}
use kosmos_v.Recommender.Loop.{recommend_container, recommend_all, recommend_node}
use kosmos_v.Contention.{
  panicked, process_node, all_present, new_contention_manager, visit_pods, visit_pod, add_requests,
  with_capacity, solve, settle, assign, sum_capped, proportional,
}
use kosmos_v.NodeScales.{NodeScales, contains}
use kosmos_v.Contention.Fits.{count}
use kosmos_v.ResourceUpdater.{
  ApiServer, update_one, sync_pod, resize_first, atomic_resource_update, update_resources,
}
use kosmos_v.Pipeline.Panic.{LacksContainer, missing_container_panics}
use kosmos_v.Pipeline.Stuck.{IsStuck, stuck_stays}
use kosmos_v.Pipeline.Progress.{IsIdle, CanWork, progress}
use kosmos_v.Pipeline.Bounds.{Reach-IsBounded}
use kosmos_v.Pipeline.Permits.{IsPermitted, IsSound, KeepsPermitted}
use kosmos_v.Pipeline.Writes.{Reach-Permitted}
use kosmos_v.Recommender.Within.{IsLimited}
use kosmos_v.Prelude.Branches.{if_branch}
use kosmos_v.Pipeline.{
  Proposal, Views, Pipeline, initial, recommend, propose, solve_node, grant, take, update, pick,
  send, move, move_recommend, move_propose, move_solve, move_grant, move_take, move_update, step,
}
use kosmos_v.Pipeline.Steps.{moves, Reach, start, later}
use kosmos_v.Examples.Data.{
  container_of, exact_machine, exact_machine-IsIeee, Thousandths-IsMilli, amounts, meta_of,
  scale_of, pod_of, agreement,
}

-- A pod that may be resized, on a node of its own.
abbrev kosmos_pod : Pod Thousandths
kosmos_pod = record (pod_of "a") {
  meta = record (meta_of "a") { labels = ("autoscaling", "Kosmos") ∷ [] };
}

abbrev one_node : Node Thousandths
one_node = record {
  meta = meta_of "node";
  capacity = amounts 400 4000;
  allocatable = amounts 400 4000;
}

abbrev one_view : Views Thousandths
one_view = record {
  find_pod = λ namespace name. some kosmos_pod;
  find_sla = λ namespace name. some (agreement 500 3 7);
  pod_metrics = λ pod. some (thousandths (pos 900));
  scales_on = λ node. some (scale_of "a" 300 400 ∷ []);
  find_node = λ name. some one_node;
  pods_on = λ name. some (kosmos_pod ∷ []);
}

-- A server that records the pod scales that are really updated.
abbrev recorder : ApiServer (List (PodScale Thousandths)) String Thousandths
recorder = record {
  update_pod = λ dry_run namespace pod s. (ok pod, s);
  update_pod_scale = λ dry_run namespace scale s. (ok scale, if dry_run then s else scale ∷ s);
}

abbrev Flow : Type 0
Flow = Pipeline (List (PodScale Thousandths)) Thousandths

-- The pod scale with 406 thousandths of CPU proposed, and with the 400 that the node has.
abbrev proposed_scale : PodScale Thousandths
proposed_scale = record (scale_of "a" 300 400) {
  spec = record ((scale_of "a" 300 400).spec) { desired_resources = amounts 406 400 };
  status = record { capped_resources = amounts 406 400; actual_resources = amounts 300 400 };
}

abbrev settled_scale : PodScale Thousandths
settled_scale = record proposed_scale {
  status = record { capped_resources = amounts 406 400; actual_resources = amounts 400 400 };
}

abbrev proposal : Proposal Thousandths
proposal = ("node", some proposed_scale ∷ [])

abbrev message : NodeScales Thousandths
message = record { node = "node"; pod_scales = settled_scale ∷ [] }

abbrev begun : Flow
begun = initial []

abbrev recommended : Flow
recommended = record begun {
  logics =
      (recommend_node exact_machine one_view.find_pod one_view.find_sla one_view.pod_metrics
        one_view.scales_on "node" begun.logics).1;
  recommending = proposal ∷ [];
}

abbrev proposed : Flow
proposed = record recommended { recommending = []; proposals = proposal ∷ [] }

abbrev solved : Flow
solved = record proposed { proposals = []; solving = message ∷ [] }

abbrev granted : Flow
granted = record solved { solving = []; grants = message ∷ [] }

abbrev taken : Flow
taken = record granted { grants = []; updating = (message, settled_scale ∷ []) ∷ [] }

abbrev updated : Flow
updated = record taken {
  updating = (message, []) ∷ [];
  server = settled_scale ∷ [];
  logged = settled_scale ∷ [];
}

is_recommended : step exact_machine recorder (recommend one_view "node") begun ≡ some recommended
unfolding step move move_recommend recommend_node recommend_all recommend_container
    compute_pod_scale container_to_scale compute_cpu_resource compute_cpu_fixed new_fixed_gain_logic
    control_error next_cores add mul div max min trunc to_int ◌+ℤ◌ ◌-ℤ◌ with_desired apply_bounds
    compute_memory_resource
is_recommended = refl

is_proposed : step exact_machine recorder (propose 0) recommended ≡ some proposed
unfolding step move move_propose pick send
is_proposed = refl

is_solved : step exact_machine recorder (solve_node one_view) proposed ≡ some solved
unfolding step move move_solve process_node all_present new_contention_manager visit_pods visit_pod
    add_requests contains with_capacity solve settle assign sum_capped proportional mul div trunc
    to_int ◌+ℤ◌ ◌-ℤ◌
is_solved = refl

is_granted : step exact_machine recorder (grant 0) solved ≡ some granted
unfolding step move move_grant pick send
is_granted = refl

is_taken : step exact_machine recorder take granted ≡ some taken
unfolding step move move_take
is_taken = refl

is_updated : step exact_machine recorder (update one_view 0) taken ≡ some updated
unfolding step move move_update pick update_one sync_pod resize_first atomic_resource_update
    update_resources
is_updated = refl

abbrev OnlyOne : Views Thousandths → Type 0
OnlyOne v = v ≡ one_view

abbrev Nobody : List (PodScale Thousandths) → List (PodScale Thousandths) → Type 0
Nobody s s' = s ≡ s'

flows_to_granted : Reach exact_machine recorder OnlyOne Nobody begun granted
flows_to_granted =
    later
      (later
        (later (later start (moves (recommend one_view "node") refl is_recommended))
          (moves (propose 0) tt is_proposed))
        (moves (solve_node one_view) refl is_solved))
      (moves (grant 0) tt is_granted)

flows : Reach exact_machine recorder OnlyOne Nobody begun updated
flows =
    later (later flows_to_granted (moves take tt is_taken))
      (moves (update one_view 0) refl is_updated)

agreement-IsLimited : IsLimited Thousandths-IsDecimal 1000 (agreement 500 3 7)
agreement-IsLimited = record {
  lo = amounts 50 50;
  hi = amounts 1000 1000;
  lo_is = refl;
  hi_is = refl;
  cpu_order = ((Thousandths-IsMilli (thousandths (pos 50)), refl), omega arith);
  memory_order = ((Thousandths-IsMilli (thousandths (pos 50)), refl), omega arith);
  cpu_whole = (Thousandths-IsMilli (thousandths (pos 1000)), refl);
  memory_whole = (Thousandths-IsMilli (thousandths (pos 1000)), refl);
  cpu_most = omega arith;
  memory_most = omega arith;
}

-- The only agreement that is found, and the only list of pod scales.
only_agreement :
    (v : Views Thousandths) (namespace name : String) (sla : ServiceLevelAgreement Thousandths)
    → OnlyOne v
    → v.find_sla namespace name ≡ some sla
    → agreement 500 3 7 ≡ sla
only_agreement v namespace name sla seen e =
    let found : v.find_sla namespace name ≡ some (agreement 500 3 7) = rw seen refl in cc

only_scales :
    (v : Views Thousandths) (node : String) (scales : List (PodScale Thousandths))
    → OnlyOne v
    → v.scales_on node ≡ some scales
    → length scales ≤ 100
only_scales v node scales seen e =
    let found : v.scales_on node ≡ some (scale_of "a" 300 400 ∷ []) = rw seen refl in
    let same : scale_of "a" 300 400 ∷ [] ≡ scales = cc in rw (← same) (omega arith)

flow-IsSound : IsSound Thousandths-IsDecimal OnlyOne 1000 100
flow-IsSound = record {
  limited = λ v namespace name sla seen e.
      subst (IsLimited Thousandths-IsDecimal 1000) (only_agreement v namespace name sla seen e)
        agreement-IsLimited;
  few_scales = only_scales;
}

-- No pod scale on the server has more than 1000 thousandths of CPU.
abbrev AtMost : List (PodScale Thousandths) → Type 0
AtMost s = All (λ p. count (cpu_of p.status.actual_resources) ≤ 1000) s

permitted-AtMost :
    (scale : PodScale Thousandths)
    → IsPermitted Thousandths-IsDecimal OnlyOne scale
    → count (cpu_of scale.status.actual_resources) ≤ 1000
permitted-AtMost scale (v, sla, seen, e, cpu, memory) =
    rw (← only_agreement v scale.spec.namespace scale.spec.sla sla seen e) at cpu

recorder-KeepsPermitted : KeepsPermitted Thousandths-IsDecimal recorder OnlyOne Nobody AtMost
recorder-KeepsPermitted = record {
  pod_kept = λ dry_run namespace pod new scale s permitted e h. h;
  scale_kept = λ dry_run namespace scale s permitted h.
      if_branch AtMost dry_run (λ _. h) (λ _. (permitted-AtMost scale permitted, h));
  others_kept = λ s s' same h. subst AtMost same h;
}

Reach-Permitted_example : AtMost updated.server
Reach-Permitted_example =
    Reach-Permitted Thousandths-IsDecimal exact_machine exact_machine-IsIeee recorder OnlyOne Nobody
      1000 100 (omega arith) flow-IsSound AtMost recorder-KeepsPermitted [] updated tt flows

copies : {A : Type 0} → ℕ → A → List A
copies zero x = []
copies (suc n) x = x ∷ copies n x

length-copies : {A : Type 0} (n : ℕ) (x : A) → length (copies n x) ≡ n
unfolding copies
length-copies zero x = refl
length-copies (suc n) x = omega (arith, length-copies n x)

-- The channel is full of messages, and four more are about to be put back.
abbrev stuck : Flow
stuck = record begun {
  recommending = proposal ∷ [];
  grants = copies 10_000 message;
  requeuing = copies 4 message;
}

-- A proposal is sent all the same.
abbrev still_stuck : Flow
still_stuck = record stuck { recommending = []; proposals = proposal ∷ [] }

is_still_stuck : step exact_machine recorder (propose 0) stuck ≡ some still_stuck
unfolding step move move_propose pick send
is_still_stuck = refl

stuck_stays_example :
    (still_stuck.grants ≡ stuck.grants)
    × (still_stuck.updating ≡ [])
    × (still_stuck.requeuing ≡ stuck.requeuing)
    × (still_stuck.logged ≡ [])
stuck_stays_example =
    stuck_stays exact_machine recorder stuck
      (length-copies 10_000 message, refl, length-copies 4 message) OnlyOne Nobody still_stuck
      (later start (moves (propose 0) tt is_still_stuck))

-- The pod of the second pod scale has a container of another name only.
abbrev other_pod : Pod Thousandths
other_pod = record (pod_of "b") { containers = container_of "other" 100 100 ∷ [] }

abbrev mixed_view : Views Thousandths
mixed_view = record one_view {
  find_pod = λ namespace name. if str_eq name "b" then some other_pod else some kosmos_pod;
  scales_on = λ node. some (scale_of "a" 300 400 ∷ scale_of "b" 300 400 ∷ []);
}

second-LacksContainer : LacksContainer exact_machine mixed_view (scale_of "b" 300 400)
unfolding container_to_scale
second-LacksContainer = record {
  pod = other_pod;
  sla = agreement 500 3 7;
  measured = thousandths (pos 900);
  pod_found = refl;
  sla_found = refl;
  metrics_found = refl;
  lacks = refl;
}

missing_container_panics_example :
    (scales : List (Option (PodScale Thousandths))) × ((recommend_node exact_machine
        mixed_view.find_pod mixed_view.find_sla mixed_view.pod_metrics mixed_view.scales_on "node"
        (λ key. none)).0
      ≡ some ("node", scales))
    × (process_node exact_machine one_view.find_node one_view.pods_on "node" scales ≡ panicked)
missing_container_panics_example =
    missing_container_panics exact_machine mixed_view (scale_of "a" 300 400 ∷ []) []
      (scale_of "b" 300 400) "node" (λ key. none) one_view.find_node one_view.pods_on one_node
      (kosmos_pod ∷ []) second-LacksContainer refl refl refl

progress_example :
    IsIdle granted ⊎ IsStuck granted ⊎ CanWork exact_machine recorder one_view granted
progress_example =
    progress exact_machine recorder one_view granted refl
      (Reach-IsBounded exact_machine recorder OnlyOne Nobody [] granted flows_to_granted)
