-- ===== src/Queue.antt =====
-- pkg/queue/queue.go: the work queue of the controllers, and the event handlers of
-- pkg/podscale-controller/pkg/controller/handler.go that fill one. The rate-limiting queue of
-- k8s.io/client-go, which the repository calls and does not contain, is a record of its operations;
-- `IsWorkqueue` states the documented behaviour that the theorems take as a hypothesis.
pub mod Fifo
pub mod Retry
pub mod Filling
pub mod Draining
use kosmos_v.Prelude.{
  ℕ, zero, suc, String, ◌≡◌, ◌⊎◌, Bool, true, false, Option, none, some, List, [], ◌∷◌,
}

-- What a queue holds: a string, or a value of another type, which `Enqueue` never adds.
pub data Item : Type 0 where
  key : String → Item
  foreign : String → Item

-- `none` from `get` where the queue is shut down. A call that has to wait returns later.
pub record Workqueue (W : Type 0) : Type 0 where
  pub get : W → Option (Item × W)
  pub done : Item → W → W
  pub forget : Item → W → W
  pub add_rate_limited : Item → W → W
  pub shut_down : W → W

-- `waiting`: the item will be handed out again, unless the queue is shut down. `busy`: it was handed out and is not yet done.
pub record IsWorkqueue (W : Type 0) ⦃q : Workqueue W⦄ : Type 0 where
  pub waiting : W → Item → Bool
  pub busy : W → Item → Bool
  pub get_waiting :
      (w w' : W) (i j : Item)
      → q.get w ≡ some (i, w')
      → waiting w j ≡ true
      → (waiting w' j ≡ true) ⊎ (j ≡ i)
  pub get_busy :
      (w w' : W) (i j : Item)
      → q.get w ≡ some (i, w')
      → busy w' j ≡ true
      → (busy w j ≡ true) ⊎ (j ≡ i)
  pub add_waiting : (w : W) (i : Item) → waiting (q.add_rate_limited i w) i ≡ true
  pub add_kept :
      (w : W) (i j : Item) → waiting w j ≡ true → waiting (q.add_rate_limited i w) j ≡ true
  pub add_busy : (w : W) (i j : Item) → busy (q.add_rate_limited i w) j ≡ busy w j
  pub forget_waiting : (w : W) (i j : Item) → waiting (q.forget i w) j ≡ waiting w j
  pub forget_busy : (w : W) (i j : Item) → busy (q.forget i w) j ≡ busy w j
  -- An item that was added while it was busy is handed out again.
  pub done_waiting : (w : W) (i j : Item) → waiting (q.done i w) j ≡ waiting w j
  pub done_free : (w : W) (i : Item) → busy (q.done i w) i ≡ false
  pub done_kept : (w : W) (i j : Item) → busy (q.done i w) j ≡ true → busy w j ≡ true

-- What a round did: nothing on a queue that is shut down, or the item, and whether it may be
-- forgotten.
pub data Report : Type 0 where
  stopped : Report
  processed : Item → Bool → Report

module _ {W : Type 0} ⦃q : Workqueue W⦄ {S E : Type 0} (sync : String → S → Option E × S) where
  -- The closure in `ProcessNextItem`, with its deferred call of `Done`.
  unfoldable pub process : Item → W → S → Report × W × S
  process (foreign v) w s =
      (processed (foreign v) true, q.done (foreign v) (q.forget (foreign v) w), s)
  process (key k) w s =
      let (failure, s') = sync k s in
      elim failure [
        | some e ↦ (processed (key k) false, q.done (key k) (q.add_rate_limited (key k) w), s')
        | none ↦ (processed (key k) true, q.done (key k) (q.forget (key k) w), s')
      ]

  -- The method returns false where the report is `stopped`.
  unfoldable pub process_next_item : W → S → Report × W × S
  process_next_item w s = elim (q.get w) [
    | none ↦ (stopped, w, s)
    | some (item, w') ↦ process item w' s
  ]

  -- Successive rounds of a worker, with their reports. The worker ends where the queue is shut down;
  -- further rounds change nothing.
  unfoldable pub rounds : ℕ → W → S → List Report × W × S
  rounds zero w s = ([], w, s)
  rounds (suc n) w s =
      let (report, w', s') = process_next_item w s in
      let (reports, w'', s'') = rounds n w' s' in (report ∷ reports, w'', s'')

module _ {W : Type 0} ⦃q : Workqueue W⦄ {O : Type 0} (key_of : O → Option String) where
  -- `MetaNamespaceKeyFunc` may fail.
  unfoldable pub enqueue : O → W → W
  enqueue object w = elim (key_of object) [ none ↦ w | some k ↦ q.add_rate_limited (key k) w ]

  -- The loop of the workers that poll: `runWorker` of pkg/pod-replicas-updater/pkg/controller.go.
  unfoldable pub enqueue_all : List O → W → W
  enqueue_all [] w = w
  enqueue_all (object ∷ objects) w = enqueue_all objects (enqueue object w)

  unfoldable pub handle_add : O → W → W
  handle_add new w = enqueue new w

  unfoldable pub handle_deletion : O → W → W
  handle_deletion old w = enqueue old w

  unfoldable pub handle_update : O → O → W → W
  handle_update old new w = enqueue new w
