-- ===== src/Examples/Planning.antt =====
-- The theorems on contentions, pods and pod scales at concrete inputs.
use kosmos_v.Prelude.{
  String, ℕ, ◌≤◌, ◌≡◌, refl, true, false, not, ◌&&◌, ◌||◌, List, [], ◌∷◌, some, arith,
}
use kosmos_v.Prelude.Int.{pos}
use kosmos_v.Quantity.Thousandths.{
  Thousandths, thousandths, thousandths_quantities, Thousandths-IsDecimal,
}
use kosmos_v.Api.{cpu_of, Node, Pod, PodScale}
use kosmos_v.NodeScales.{NodeScales, remove}
use kosmos_v.NodeScales.Removal.{Removed, remove-Removed}
use kosmos_v.StateDiff.{marked, tracked_names, pod_names, diff_pods}
use kosmos_v.StateDiff.Convergence.{diff_pods_converges}
use kosmos_v.Contention.{
  ContentionManager, all_present, process_node, proportional, solve, capped_cpu, Untracked,
  visit_pods, new_contention_manager,
}
use kosmos_v.Contention.Fits.{total, IsCount, IsModest, solve_fits}
use kosmos_v.Contention.Grants.{IsGrant, solve-IsGrant}
use kosmos_v.Prelude.Lists.{All}
use kosmos_v.Contention.Counting.{HasCounts}
use kosmos_v.Contention.NodeFits.{FitsNode, process_node-FitsNode}
use kosmos_v.Contention.Tracking.{Managed, new_contention_manager-Managed}
use kosmos_v.Examples.Data.{
  exact_machine, exact_machine-IsIeee, Thousandths-IsMilli, amounts, meta_of, scale_of, pod_of,
  busy_manager,
}

busy_manager-IsModest :
    IsModest Thousandths-IsDecimal capped_cpu busy_manager.cpu_capacity busy_manager.pod_scales
busy_manager-IsModest = record {
  counts = (
    (Thousandths-IsMilli (thousandths (pos 700)), refl),
    (
      (Thousandths-IsMilli (thousandths (pos 800)), refl),
      ((Thousandths-IsMilli (thousandths (pos 300)), refl), tt),
    ),
  );
  capacity_count = (Thousandths-IsMilli (thousandths (pos 1000)), refl);
  total_exact = omega arith;
  capacity_exact = omega arith;
  product_small = omega arith;
}

solve_fits_example :
    total
      (λ (p : PodScale Thousandths). cpu_of p.status.actual_resources)
      (solve (proportional exact_machine) busy_manager)
    ≤ 1000
solve_fits_example =
    solve_fits Thousandths-IsDecimal exact_machine busy_manager exact_machine-IsIeee
      busy_manager-IsModest

-- Each pod asks for 4500 thousandths of memory in total of the 4000 that there are.
abbrev greedy_manager : ContentionManager Thousandths
greedy_manager = record busy_manager {
  pod_scales = scale_of "a" 700 1500 ∷ scale_of "b" 800 1500 ∷ scale_of "c" 300 1500 ∷ [];
}

abbrev three_counts :
    (a b c : ℕ)
    → All
        (IsCount Thousandths-IsDecimal)
        (thousandths (pos a) ∷ thousandths (pos b) ∷ thousandths (pos c) ∷ [])
three_counts a b c = (
  (Thousandths-IsMilli (thousandths (pos a)), refl),
  (
    (Thousandths-IsMilli (thousandths (pos b)), refl),
    ((Thousandths-IsMilli (thousandths (pos c)), refl), tt),
  ),
)

solve-IsGrant_example : All IsGrant (solve (proportional exact_machine) greedy_manager)
solve-IsGrant_example =
    solve-IsGrant Thousandths-IsDecimal exact_machine greedy_manager exact_machine-IsIeee
      (record { counts = three_counts 700 800 300; total_small = omega arith })
      (record { counts = three_counts 1500 1500 1500; total_small = omega arith }) refl refl

-- Pods a and b, pod scales of b and c.
abbrev two_pods : List (Pod Thousandths)
two_pods = pod_of "a" ∷ pod_of "b" ∷ []

abbrev two_scales : List (PodScale Thousandths)
two_scales = scale_of "b" 100 100 ∷ scale_of "c" 100 100 ∷ []

diff_pods_converges_example :
    let deleted = marked (tracked_names (diff_pods two_pods two_scales).delete_list) "c" in
    let added = marked (pod_names (diff_pods two_pods two_scales).add_list) "c" in
    (deleted ≡ true) × (added ≡ false) × ((true && not deleted || added) ≡ false)
diff_pods_converges_example = diff_pods_converges two_pods two_scales "c"

abbrev node_scales : NodeScales Thousandths
node_scales = record { node = "node"; pod_scales = two_scales }

remove-Removed_example : Removed "c" "default" node_scales (remove node_scales "c" "default")
remove-Removed_example = remove-Removed "c" "default" node_scales

abbrev small_node : Node Thousandths
small_node = record {
  meta = meta_of "node";
  capacity = amounts 1000 1000;
  allocatable = amounts 900 900;
}

new_contention_manager-Managed_example :
    (u : Untracked Thousandths) × (visit_pods
        (record { cpu = thousandths (pos 0); memory = thousandths (pos 0); scales = node_scales })
        two_pods
      ≡ some u)
    × Managed small_node u (new_contention_manager small_node node_scales two_pods)
new_contention_manager-Managed_example =
    new_contention_manager-Managed small_node node_scales two_pods

-- Pod a is counted, and pod b asks for more than it leaves.
abbrev busy_scales : NodeScales Thousandths
busy_scales = record { node = "node"; pod_scales = scale_of "b" 900 100 ∷ [] }

pod_of-HasCounts : (name : String) → HasCounts Thousandths-IsDecimal capped_cpu (pod_of name)
pod_of-HasCounts name = (
  (Thousandths-IsMilli (thousandths (pos 100)), refl),
  ((Thousandths-IsMilli (thousandths (pos 200)), refl), tt),
)

busy_scales-IsModest :
    IsModest Thousandths-IsDecimal capped_cpu (cpu_of small_node.capacity) busy_scales.pod_scales
busy_scales-IsModest = record {
  counts = ((Thousandths-IsMilli (thousandths (pos 900)), refl), tt);
  capacity_count = (Thousandths-IsMilli (thousandths (pos 1000)), refl);
  total_exact = omega arith;
  capacity_exact = omega arith;
  product_small = omega arith;
}

process_node-FitsNode_example :
    FitsNode Thousandths-IsDecimal exact_machine exact_machine-IsIeee small_node two_pods
      busy_scales
      (process_node exact_machine
        (λ name. some small_node)
        (λ name. some two_pods)
        "node"
        (some (scale_of "b" 900 100) ∷ []))
unfolding all_present
process_node-FitsNode_example =
    process_node-FitsNode Thousandths-IsDecimal exact_machine exact_machine-IsIeee small_node
      two_pods busy_scales ((refl, tt), (tt, tt)) (pod_of-HasCounts "a", (pod_of-HasCounts "b", tt))
      busy_scales-IsModest (λ name. some small_node) (λ name. some two_pods)
      (some (scale_of "b" 900 100) ∷ []) refl refl refl
