-- ===== src/Contention/NodeFits.antt =====
-- One message of `processNextNode`: what it sends fits the node beside all other pods.
use kosmos_v.Prelude.{
  ◌+◌, ◌≤◌, ◌<◌, String, ◌≡◌, subst, ap, ◌⊎◌, inl, inr, Option, none, some, List, arith,
}
use kosmos_v.Prelude.Branches.{some_branch}
use kosmos_v.Prelude.Lists.{All}
use kosmos_v.Quantity.{Quantities, IsDecimal}
use kosmos_v.Float.{Machine}
use kosmos_v.Float.Order.{IsIeee, scale}
use kosmos_v.Api.{cpu_of, memory_of, Pod, PodScale, Node}
use kosmos_v.NodeScales.{NodeScales}
use kosmos_v.Contention.{
  ContentionManager, NodeOutcome, returned, panicked, sent, all_present, proportional, solve,
  capped_cpu, Untracked, visit_pods, process_node,
}
use kosmos_v.Contention.Fits.{count, total, IsCount, IsModest, empty-IsCount, solve_fits}
use kosmos_v.Contention.Tracking.{
  IsNegative, IsNotNegative, Managed, new_contention_manager-Managed,
}
use kosmos_v.Contention.Counting.{shares, AreDistinct, HasCounts, AreFewer}
use kosmos_v.Contention.Remainder.{left-IsCount, overdrawn, visit_pods-IsCount}

module _ {Q : Type 0} ⦃q : Quantities Q⦄ (laws : IsDecimal Q) (m : Machine) (ieee : IsIeee m)
    (n : Node Q) (pods : List (Pod Q)) (ns : NodeScales Q) where
  abbrev capacity : Q
  capacity = cpu_of n.capacity

  -- The memory that is left is negative.
  abbrev pub LacksMemory : Type 0
  LacksMemory =
      (u : Untracked Q) × (visit_pods (record { cpu = q.empty; memory = q.empty; scales = ns }) pods
        ≡ some u)
      × IsNegative (q.add (memory_of n.capacity) (q.neg u.memory))

  -- The process panics only where the pods that are counted request more than the node has. Else
  -- what is sent fits the node beside them.
  abbrev pub FitsNode : NodeOutcome Q → Type 0
  FitsNode returned = ⊥
  FitsNode panicked = (count capacity < shares ns pods) ⊎ LacksMemory
  FitsNode (sent ns') =
      total (λ (p : PodScale Q). cpu_of p.status.actual_resources) ns'.pod_scales + shares ns pods
      ≤ count capacity

  module _ (distinct : AreDistinct pods) (counts : All (HasCounts laws capped_cpu) pods)
      (modest : IsModest laws capped_cpu capacity ns.pod_scales) where
    module _ (u : Untracked Q) (cpu : IsCount laws u.cpu) (is_sum : count u.cpu ≡ shares ns pods)
        (fewer : AreFewer laws capped_cpu ns.pod_scales u.scales.pod_scales) where
      abbrev left_cpu : Q
      left_cpu = q.add capacity (q.neg u.cpu)

      left-IsModest :
          IsCount laws left_cpu
          → count left_cpu ≤ count capacity
          → IsModest laws capped_cpu left_cpu u.scales.pod_scales
      left-IsModest h le =
          let wide = total capped_cpu ns.pod_scales in
          let narrow = total capped_cpu u.scales.pod_scales in
          record {
            counts = fewer.kept modest.counts;
            capacity_count = h;
            total_exact = omega (arith, fewer.less, modest.total_exact);
            capacity_exact = omega (arith, le, modest.capacity_exact);
            product_small = omega (
              arith,
              scale narrow wide (count left_cpu) fewer.less,
              scale (count left_cpu) (count capacity) wide le,
              modest.product_small,
            );
          }

      Managed-FitsNode :
          (node : String) (o : Option (ContentionManager Q))
          → visit_pods (record { cpu = q.empty; memory = q.empty; scales = ns }) pods ≡ some u
          → Managed n u o
          → FitsNode (elim o as (λ x. NodeOutcome Q) [
            | none ↦ panicked
            | some cm ↦ sent (record { node = node; pod_scales = solve (proportional m) cm })
          ])
      Managed-FitsNode node none e (inl negative) =
          inl (
            omega (arith, overdrawn laws capacity u.cpu modest.capacity_count cpu negative, is_sum))
      Managed-FitsNode node none e (inr lacks) = inr (u, e, lacks)
      Managed-FitsNode node (some cm) e (is_cpu, is_memory, not_negative, _, is_scales) =
          let (h, sum) =
            left-IsCount laws capacity u.cpu modest.capacity_count cpu
              (subst IsNotNegative is_cpu not_negative) in
          let small : IsModest laws capped_cpu cm.cpu_capacity cm.pod_scales =
            rw (is_cpu, is_scales) (left-IsModest h (omega (arith, sum))) in
          omega (arith, solve_fits laws m cm ieee small, ap count is_cpu, sum, is_sum)

    -- A node with pods of different names, all requests, the node's CPU and the capped CPUs whole
    -- thousandths that are not negative, the capped ones and the capacity of at most 53 bits with a
    -- product below 2 ^ 51, on a machine with IEEE 754 floats: where the node and its pods are read
    -- and the message has no nil pod scale, `processNextNode` sends actual CPUs that fit the node
    -- together with the requests of all pods that are not both tracked and guaranteed; or it panics,
    -- and then these requests are more than the CPU of the node or leave a negative memory.
    pub process_node-FitsNode :
        (find_node : String → Option (Node Q)) (pods_on : String → Option (List (Pod Q)))
        (scales : List (Option (PodScale Q)))
        → find_node ns.node ≡ some n
        → pods_on n.meta.name ≡ some pods
        → all_present scales ≡ some ns.pod_scales
        → FitsNode (process_node m find_node pods_on ns.node scales)
    unfolding process_node
    process_node-FitsNode find_node pods_on scales is_node are_pods present =
        let (u, e, managed) = new_contention_manager-Managed n ns pods in
        let (start, zero_is) = empty-IsCount laws in
        let (cpu, sum, fewer) = visit_pods-IsCount laws pods _ u e start counts distinct in
        some_branch FitsNode _ _ n is_node (
          some_branch FitsNode _ _ pods are_pods (
            some_branch FitsNode _ _ ns.pod_scales present
              (Managed-FitsNode u cpu (omega (arith, sum, zero_is)) fewer ns.node _ e managed)))
