-- ===== src/Contention.antt =====
-- pkg/pod-autoscaler/pkg/contention-manager/logic.go: how the resources of a node are divided
-- among the pods that the system tracks there.
pub mod Solver
pub mod Fits
pub mod Grants
pub mod Tracking
pub mod Counting
pub mod Remainder
pub mod NodeFits
pub mod Messages
use kosmos_v.Prelude.{String, Bool, true, false, not, ◌&&◌, Option, none, some, List, [], ◌∷◌, map}
use kosmos_v.Prelude.Tests.{if◌then◌else◌}
use kosmos_v.Prelude.Int.{ℤ, pos, ltb_ℤ, leb_ℤ}
use kosmos_v.Quantity.{Quantities}
use kosmos_v.Float.{Machine, of_int, mul, div, to_int, half_int64}
use kosmos_v.Api.{cpu_of, memory_of, resources, Container, is_guaranteed, Pod, PodScale, Node}
use kosmos_v.NodeScales.{NodeScales, contains, remove}

abbrev pub SolverFn : Type 0
SolverFn = ℤ → ℤ → ℤ → ℤ

unfoldable pub proportional : Machine → SolverFn
proportional m desired total_desired total_available =
    let quota = div m (of_int m desired) (of_int m total_desired) in
    to_int m half_int64 (mul m quota (of_int m total_available))

-- The receiver of `Solve`; the solver is an argument.
pub record ContentionManager (Q : Type 0) : Type 0 where
  pub cpu_capacity : Q
  pub memory_capacity : Q
  pub pod_scales : List (PodScale Q)

-- The test `== 1` of an answer of `Cmp`.
abbrev pub is_one : ℤ → Bool
is_one z = leb_ℤ z (pos 1) && leb_ℤ (pos 1) z

-- The variables of the loop of `NewContentionManager`.
pub record Untracked (Q : Type 0) : Type 0 where
  pub cpu : Q
  pub memory : Q
  pub scales : NodeScales Q

module _ {Q : Type 0} ⦃q : Quantities Q⦄ where
  -- The two loops over the containers of a pod.
  unfoldable pub add_requests : Untracked Q → List (Container Q) → Untracked Q
  add_requests u [] = u
  add_requests u (c ∷ cs) =
      let requests = c.resources.requests in
      add_requests
        (record u {
          cpu = q.add u.cpu (cpu_of requests);
          memory = q.add u.memory (memory_of requests);
        })
        cs

  -- The body of the loop over the pods; `none` is the early return of nil.
  unfoldable pub visit_pod : Untracked Q → Pod Q → Option (Untracked Q)
  visit_pod u pod =
      let tracked = contains u.scales pod.meta.name pod.meta.namespace in
      let u' = if tracked then u else add_requests u pod.containers in
      if tracked && not (is_guaranteed pod.qos_class)
      then elim (remove u.scales pod.meta.name pod.meta.namespace) [
        | none ↦ none
        | some (removed, scales) ↦
            some (add_requests (record u' { scales = scales }) pod.containers)
      ]
      else some u'

  unfoldable pub visit_pods : Untracked Q → List (Pod Q) → Option (Untracked Q)
  visit_pods u [] = some u
  visit_pods u (pod ∷ pods) = elim (visit_pod u pod) [ none ↦ none | some u' ↦ visit_pods u' pods ]

  -- The code behind the loop; `none` where a resource that is left is negative.
  unfoldable pub with_capacity : Node Q → Untracked Q → Option (ContentionManager Q)
  with_capacity n u =
      let cpu = q.add (cpu_of n.capacity) (q.neg u.cpu) in
      let memory = q.add (memory_of n.capacity) (q.neg u.memory) in
      if ltb_ℤ (q.sign cpu) (pos 0)
      then none
      else (if ltb_ℤ (q.sign memory) (pos 0)
          then none
          else some (record {
            cpu_capacity = cpu;
            memory_capacity = memory;
            pod_scales = u.scales.pod_scales;
          }))

  unfoldable pub new_contention_manager :
      Node Q → NodeScales Q → List (Pod Q) → Option (ContentionManager Q)
  new_contention_manager n ns pods =
      elim (visit_pods (record { cpu = q.empty; memory = q.empty; scales = ns }) pods) [
        | none ↦ none
        | some u ↦ with_capacity n u
      ]

  -- The first loop of `Solve`, for one of the two resources.
  unfoldable pub sum_capped : (PodScale Q → Q) → Q → List (PodScale Q) → Q
  sum_capped capped total [] = total
  sum_capped capped total (p ∷ ps) = sum_capped capped (q.add total (capped p)) ps

  abbrev pub capped_cpu : PodScale Q → Q
  capped_cpu p = cpu_of p.status.capped_resources

  abbrev pub capped_memory : PodScale Q → Q
  capped_memory p = memory_of p.status.capped_resources

  -- One resource of one pod scale in the second loop.
  unfoldable pub assign : SolverFn → Q → Q → Q → Q
  assign solver desired capacity capped =
      if is_one (q.cmp desired capacity)
      then q.new_milli_quantity
          (solver (q.milli_value capped) (q.milli_value desired) (q.milli_value capacity))
      else q.new_milli_quantity (q.milli_value capped)

  -- The body of the second loop of `Solve`, which stores the actual resources of a pod scale.
  unfoldable pub settle : SolverFn → Q → Q → ContentionManager Q → PodScale Q → PodScale Q
  settle solver desired_cpu desired_memory m p = record p {
    status = record (p.status) {
      actual_resources =
          resources (assign solver desired_cpu m.cpu_capacity (capped_cpu p))
            (assign solver desired_memory m.memory_capacity (capped_memory p));
    };
  }

  unfoldable pub solve : SolverFn → ContentionManager Q → List (PodScale Q)
  solve solver m =
      let desired_cpu = sum_capped capped_cpu q.empty m.pod_scales in
      let desired_memory = sum_capped capped_memory q.empty m.pod_scales in
      map (settle solver desired_cpu desired_memory m) m.pod_scales

-- What becomes of a message: the loop returns, the process panics, or a message goes out.
pub data NodeOutcome (Q : Type 0) : Type 0 where
  returned panicked : NodeOutcome Q
  sent : NodeScales Q → NodeOutcome Q

-- The pod scales of a message, if none of its pointers is nil.
unfoldable pub all_present {ℓ} : {A : Type ℓ} → List (Option A) → Option (List A)
all_present [] = some []
all_present (none ∷ xs) = none
all_present (some x ∷ xs) = elim (all_present xs) [ none ↦ none | some ys ↦ some (x ∷ ys) ]

module _ {Q : Type 0} ⦃q : Quantities Q⦄ (m : Machine) (find_node : String → Option (Node Q))
    (pods_on : String → Option (List (Pod Q))) where
  -- The body of the loop of `processNextNode`. A nil pod scale is dereferenced by `Solve` at the
  -- latest, and `Solve` dereferences the manager that `NewContentionManager` returned.
  unfoldable pub process_node : String → List (Option (PodScale Q)) → NodeOutcome Q
  process_node node scales = elim (find_node node) [
    | none ↦ returned
    | some n ↦ elim (pods_on n.meta.name) [
      | none ↦ returned
      | some pods ↦ elim (all_present scales) [
        | none ↦ panicked
        | some present ↦
            elim (new_contention_manager n (record { node = node; pod_scales = present }) pods) [
              | none ↦ panicked
              | some cm ↦ sent (record { node = node; pod_scales = solve (proportional m) cm })
            ]
      ]
    ]
  ]
