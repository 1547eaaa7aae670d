-- ===== src/Queue/Filling.antt =====
-- What waits after a worker has filled the queue.
use kosmos_v.Prelude.{String, ◌≡◌, true, Option, some, List, [], ◌∷◌, ◌++◌}
use kosmos_v.Prelude.Branches.{option_branch, some_branch}
use kosmos_v.Queue.{key, Item, Workqueue, IsWorkqueue, enqueue, enqueue_all}

module _ {W : Type 0} ⦃q : Workqueue W⦄ (laws : IsWorkqueue W) {O : Type 0}
    (key_of : O → Option String) where
  open laws use {waiting}

  -- What waits is not lost by filling the queue.
  enqueue_keeps :
      (object : O) (w : W) (j : Item)
      → waiting w j ≡ true
      → waiting (enqueue key_of object w) j ≡ true
  unfolding enqueue
  enqueue_keeps object w j h =
      option_branch (λ w'. waiting w' j ≡ true) (key_of object) (λ _. h)
        (λ k _. laws.add_kept w (key k) j h)

  enqueue_all_keeps :
      (objects : List O) (w : W) (j : Item)
      → waiting w j ≡ true
      → waiting (enqueue_all key_of objects w) j ≡ true
  unfolding enqueue_all
  enqueue_all_keeps [] w j h = h
  enqueue_all_keeps (x ∷ objects) w j h =
      enqueue_all_keeps objects (enqueue key_of x w) j (enqueue_keeps x w j h)

  enqueue_waits :
      (object : O) (w : W) (k : String)
      → key_of object ≡ some k
      → waiting (enqueue key_of object w) (key k) ≡ true
  unfolding enqueue
  enqueue_waits object w k e =
      some_branch (λ w'. waiting w' (key k) ≡ true) _ _ k e (laws.add_waiting w (key k))

  enqueue_all_waits :
      (before after : List O) (object : O) (k : String) (w : W)
      → key_of object ≡ some k
      → waiting (enqueue_all key_of (before ++ (object ∷ after)) w) (key k) ≡ true
  unfolding enqueue_all
  enqueue_all_waits [] after object k w e =
      enqueue_all_keeps after _ (key k) (enqueue_waits object w k e)
  enqueue_all_waits (x ∷ before) after object k w e =
      enqueue_all_waits before after object k (enqueue key_of x w) e

  -- Every object of the list that has a key waits after the list was enqueued, wherever it stands,
  -- and so does what waited before.
  pub enqueue_all-Waiting :
      (before after : List O) (object : O) (k : String) (w : W)
      → key_of object ≡ some k
      → let w' = enqueue_all key_of (before ++ (object ∷ after)) w in
        (waiting w' (key k) ≡ true) × ((j : Item) → waiting w j ≡ true → waiting w' j ≡ true)
  enqueue_all-Waiting before after object k w e = (
    enqueue_all_waits before after object k w e,
    λ j. enqueue_all_keeps (before ++ (object ∷ after)) w j,
  )
