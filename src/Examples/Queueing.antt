-- ===== src/Examples/Queueing.antt =====
-- The theorems on the work queue and on the controller of replicas, run on a first-in, first-out
-- queue.
use kosmos_v.Prelude.{
  ℕ, zero, suc, String, ◌≡◌, refl, ◌≢◌, subst, ◌⊎◌, true, false, Option, none, some, [], ◌∷◌, arith,
  str_eq,
}
use kosmos_v.Prelude.Tests.{if◌then◌else◌}
use kosmos_v.Prelude.Int.{pos}
use kosmos_v.Quantity.Thousandths.{Thousandths, thousandths, thousandths_quantities}
use kosmos_v.Api.{Pod, ServiceLevelAgreement}
use kosmos_v.Queue.{Item, key, foreign, process_next_item, rounds, enqueue_all}
use kosmos_v.Queue.Fifo.{Fifo, fifo, fifo-IsWorkqueue, fifo-IsDraining}
use kosmos_v.Queue.Draining.{is_stopped, rounds-shut_down}
use kosmos_v.Prelude.Lists.{any}
use kosmos_v.Queue.Filling.{enqueue_all-Waiting}
use kosmos_v.Queue.Retry.{rounds_keep, FinishedIn, process_next_item-Freed}
use kosmos_v.Replicas.Hpa.Bounds.{HasLimits}
use kosmos_v.Replicas.Controller.{
  match_scales, Deployment, DeploymentServer, Sources, Updater, handle_sla, find_target,
  deployment_of,
}
use kosmos_v.Replicas.Controller.Matching.{
  IsCollected, IsOwner, match_scales-IsCollected, AllIn, find_target-AllIn_first,
}
use kosmos_v.Replicas.Controller.Retry.{first_round_waits}
use kosmos_v.Replicas.Controller.Updates.{Written, handle_sla-Handled}
use kosmos_v.Examples.Data.{
  exact_machine, exact_machine-IsIeee, meta_of, scale_of, pod_of, amounts, agreement,
}
use kosmos_v.Examples.Scaling.{custom, at}

abbrev queue_of_two : Fifo
queue_of_two = record { items = key "a" ∷ key "b" ∷ []; active = foreign "x" ∷ []; stopped = false }

-- A handler that fails for a key the first time only.
abbrev flaky : String → ℕ → Option String × ℕ
flaky k zero = (some k, 1)
flaky k (suc n) = (none, suc n)

rounds_keep_example :
    let (reports, w', s') = rounds flaky 1 queue_of_two 0 in
    (fifo-IsWorkqueue.waiting w' (key "a") ≡ true)
    ⊎ FinishedIn fifo-IsWorkqueue flaky (key "a") reports
unfolding fifo-IsWorkqueue
rounds_keep_example = rounds_keep fifo-IsWorkqueue flaky 1 (key "a") queue_of_two 0 refl

-- A handler that never succeeds.
abbrev failing : String → ℕ → Option String × ℕ
failing k n = (some k, suc n)

rounds-shut_down_example :
    any is_stopped (rounds failing 3 (fifo.shut_down queue_of_two) 0).0 ≡ true
unfolding fifo-IsDraining
rounds-shut_down_example = rounds-shut_down fifo-IsDraining failing queue_of_two 0

process_next_item-Freed_example :
    let (report, w', s') = process_next_item flaky queue_of_two 0 in
    fifo-IsWorkqueue.busy w' (key "b") ≡ false
unfolding fifo-IsWorkqueue
process_next_item-Freed_example =
    process_next_item-Freed fifo-IsWorkqueue flaky queue_of_two 0 (key "b") refl

enqueue_all-Waiting_example :
    let w' =
      enqueue_all
        (λ (o : String). if str_eq o "" then none else some o)
        ("" ∷ "c" ∷ "d" ∷ [])
        queue_of_two in
    (fifo-IsWorkqueue.waiting w' (key "c") ≡ true)
    × ((j : Item)
        → fifo-IsWorkqueue.waiting queue_of_two j ≡ true
        → fifo-IsWorkqueue.waiting w' j ≡ true)
enqueue_all-Waiting_example =
    enqueue_all-Waiting fifo-IsWorkqueue (λ o. if str_eq o "" then none else some o) ("" ∷ [])
      ("d" ∷ []) "c" "c" queue_of_two refl

-- A pod of the replica set "web-1", and a replica set of the deployment "web".
abbrev owned_pod : String → Pod Thousandths
owned_pod name = record (pod_of name) {
  meta = record (meta_of name) {
    owner_references =
        record { api_version = "apps/v1"; kind = "ReplicaSet"; name = "web-1"; uid = "1" } ∷ [];
  };
}

abbrev sources : Sources Thousandths
sources = record {
  split_key = λ k. some ("default", k);
  find_sla = λ namespace name. some (agreement 500 3 7);
  list_slas = some (agreement 500 3 7 ∷ []);
  key_of = λ sla. some sla.meta.name;
  list_scales = some (scale_of "a" 100 100 ∷ scale_of "b" 100 100 ∷ []);
  find_pod = λ namespace name. some (owned_pod name);
  find_service = λ namespace name. some (record { meta = meta_of name; selector = [] });
  find_replica_set = λ namespace name. some (record {
    meta = record (meta_of name) {
      owner_references =
          record { api_version = "apps/v1"; kind = "Deployment"; name = "web"; uid = "1" } ∷ [];
    };
  });
  find_node = λ name.
      some (record {
        meta = meta_of name;
        capacity = amounts 250 1000;
        allocatable = amounts 250 900;
      });
  pods_of = λ name. some (pod_of "a" ∷ []);
  response_time = λ service. some (thousandths (pos 900));
}

-- An API server with the one deployment "web".
abbrev one_deployment : DeploymentServer Deployment
one_deployment = record {
  find_deployment = λ namespace name d. if str_eq name "web" then some d else none;
  update_deployment = λ namespace d s. (true, d);
}

abbrev started : Updater Deployment
started = record {
  server = record { meta = meta_of "web"; replicas = pos 3 };
  logics = λ k. if str_eq k "sla" then some custom else none;
}

agreement-HasLimits : HasLimits (agreement 500 3 7)
agreement-HasLimits = (refl, refl, omega arith)

all_HaveLimits :
    (sla : ServiceLevelAgreement Thousandths) → some (agreement 500 3 7) ≡ some sla → HasLimits sla
all_HaveLimits sla e =
    let same : agreement 500 3 7 ≡ sla = cc in subst HasLimits same agreement-HasLimits

handle_sla-Handled_example :
    let (failure, u') =
      handle_sla exact_machine sources one_deployment custom (at 200000) "sla" started in
    (failure ≢ none) × (u'.server ≡ started.server)
    ⊎ Written exact_machine sources one_deployment custom (at 200000) "sla" started u'
handle_sla-Handled_example =
    handle_sla-Handled exact_machine sources one_deployment custom (at 200000) exact_machine-IsIeee
      "sla" started (λ namespace name. all_HaveLimits)

match_scales-IsCollected_example :
    IsCollected sources
      (agreement 500 3 7)
      (record { scales = []; pods = []; service = none })
      (scale_of "a" 100 100 ∷ scale_of "b" 100 100 ∷ [])
      (match_scales sources
        (agreement 500 3 7)
        (record { scales = []; pods = []; service = none })
        (scale_of "a" 100 100 ∷ scale_of "b" 100 100 ∷ []))
match_scales-IsCollected_example =
    match_scales-IsCollected sources (agreement 500 3 7)
      (record { scales = []; pods = []; service = none })
      (scale_of "a" 100 100 ∷ scale_of "b" 100 100 ∷ [])

find_target-AllIn_first_example :
    let target : String × String = ("default", "web") in
    IsOwner sources (owned_pod "a") target.1
    × (target.0 ≡ (owned_pod "a").namespace)
    × AllIn sources target.0 (owned_pod "a" ∷ owned_pod "b" ∷ [])
unfolding find_target deployment_of
find_target-AllIn_first_example =
    find_target-AllIn_first sources (owned_pod "a") (owned_pod "b" ∷ []) (λ e. cc) refl

first_round_waits_example :
    let sync = handle_sla exact_machine sources one_deployment custom (at 200000) in
    let (report, after, u') = process_next_item sync queue_of_two started in
    (fifo-IsWorkqueue.waiting after (key "a") ≡ true) × (u'.server ≡ started.server)
unfolding fifo-IsWorkqueue
first_round_waits_example =
    first_round_waits fifo-IsWorkqueue exact_machine exact_machine-IsIeee sources one_deployment
      custom (at 200000) queue_of_two
      (record { items = key "b" ∷ []; active = key "a" ∷ foreign "x" ∷ []; stopped = false }) "a"
      started (λ namespace name. all_HaveLimits) refl refl
