-- ===== src/Queue/Fifo.antt =====
-- A queue that hands its items out in their order of arrival and never waits: the laws of a work
-- queue can be met, and tests can run.
use kosmos_v.Prelude.{
  ◌≡◌, refl, ◌<◌, ◌⊎◌, inl, inr, ◌↔◌, Bool, true, false, not, ◌||◌, Option, none, some, List, [],
  ◌∷◌, ◌++◌, arith, str_eq, str_eq_iff,
}
use kosmos_v.Prelude.Tests.{if◌then◌else◌}
use kosmos_v.Prelude.Lists.{length, any, keep, any-append}
use kosmos_v.Queue.Draining.{IsDraining}
use kosmos_v.Queue.{Item, key, foreign, Workqueue, IsWorkqueue}

pub record Fifo : Type 0 where
  pub items : List Item
  pub active : List Item
  pub stopped : Bool

abbrev pub same_item : Item → Item → Bool
same_item (key a) (key b) = str_eq a b
same_item (foreign a) (foreign b) = str_eq a b
same_item (key a) (foreign b) = false
same_item (foreign a) (key b) = false

pub same_item_iff : (a b : Item) → (same_item a b ≡ true) ↔ (a ≡ b)
same_item_iff (key a) (key b) = ground (arith, str_eq_iff a b)
same_item_iff (foreign a) (foreign b) = ground (arith, str_eq_iff a b)
same_item_iff (key a) (foreign b) = (λ h. cc, λ h. cc)
same_item_iff (foreign a) (key b) = (λ h. cc, λ h. cc)

-- The oldest item.
abbrev pub take_oldest : Fifo → List Item → Option (Item × Fifo)
take_oldest w [] = none
take_oldest w (i ∷ items) = some (i, record w { items = items; active = i ∷ w.active })

-- A queue that is shut down takes nothing in and hands out what it has.
instance abbrev pub fifo : Workqueue Fifo
fifo = record {
  get = λ w. take_oldest w w.items;
  done = λ i w. record w { active = keep (λ j. not (same_item i j)) w.active };
  forget = λ i w. w;
  add_rate_limited = λ i w. record w { items = if w.stopped then w.items else w.items ++ (i ∷ []) };
  shut_down = λ w. record w { stopped = true };
}

abbrev pub fifo_waits : Item → Fifo → Bool
fifo_waits i w = w.stopped || any (same_item i) w.items

pub oldest_waits :
    (w w' : Fifo) (items : List Item) (i j : Item)
    → take_oldest w items ≡ some (i, w')
    → (w.stopped || any (same_item j) items) ≡ true
    → (fifo_waits j w' ≡ true) ⊎ (j ≡ i)
oldest_waits w w' [] i j e h = cc
oldest_waits w w' (k ∷ items) i j e h = ground (arith, same_item_iff j k)

pub oldest_busy :
    (w w' : Fifo) (items : List Item) (i j : Item)
    → take_oldest w items ≡ some (i, w')
    → any (same_item j) w'.active ≡ true
    → (any (same_item j) w.active ≡ true) ⊎ (j ≡ i)
oldest_busy w w' [] i j e h = cc
oldest_busy w w' (k ∷ items) i j e h = ground (arith, same_item_iff j k)

-- Of a queue that is shut down everything counts as waiting.
pub add_waits :
    (w : Fifo) (i j : Item)
    → (fifo_waits j w ≡ true) ⊎ (i ≡ j)
    → fifo_waits j (fifo.add_rate_limited i w) ≡ true
add_waits w i j h = ground (arith, any-append (same_item j) w.items (i ∷ []), same_item_iff j i)

pub any-keep_other :
    (i j : Item) (xs : List Item)
    → any (same_item j) (keep (λ k. not (same_item i k)) xs) ≡ true
    → any (same_item j) xs ≡ true
any-keep_other i j [] h = h
any-keep_other i j (x ∷ xs) h = ground (arith, any-keep_other i j xs)

pub any-keep_self :
    (i : Item) (xs : List Item) → any (same_item i) (keep (λ k. not (same_item i k)) xs) ≡ false
any-keep_self i [] = refl
any-keep_self i (x ∷ xs) = ground (arith, any-keep_self i xs)

unfoldable pub fifo-IsWorkqueue : IsWorkqueue Fifo
fifo-IsWorkqueue = record {
  waiting = λ w i. fifo_waits i w;
  busy = λ w i. any (same_item i) w.active;
  get_waiting = λ w w' i j e h. oldest_waits w w' w.items i j e h;
  get_busy = λ w w' i j e h. oldest_busy w w' w.items i j e h;
  add_waiting = λ w i. add_waits w i i (inr refl);
  add_kept = λ w i j h. add_waits w i j (inl h);
  add_busy = λ w i j. refl;
  forget_waiting = λ w i j. refl;
  forget_busy = λ w i j. refl;
  done_waiting = λ w i j. refl;
  done_free = λ w i. any-keep_self i w.active;
  done_kept = λ w i j h. any-keep_other i j w.active h;
}

pub oldest_fewer :
    (w w' : Fifo) (items : List Item) (i : Item)
    → take_oldest w items ≡ some (i, w')
    → (length w'.items < length items) × (w'.stopped ≡ w.stopped)
oldest_fewer w w' [] i e = cc
oldest_fewer w w' (k ∷ items) i e = ground arith

pub add_when_down :
    (w : Fifo) (i : Item)
    → w.stopped ≡ true
    → length (fifo.add_rate_limited i w).items ≡ length w.items
add_when_down w i h = ground arith

unfoldable pub fifo-IsDraining : IsDraining Fifo
fifo-IsDraining = record {
  pending = λ w. length w.items;
  down = λ w. w.stopped;
  get_fewer = λ w w' i e. (oldest_fewer w w' w.items i e).0;
  get_down = λ w w' i e. (oldest_fewer w w' w.items i e).1;
  add_ignored = add_when_down;
  add_down = λ w i. refl;
  forget_pending = λ w i. refl;
  forget_down = λ w i. refl;
  done_pending = λ w i. refl;
  done_down = λ w i. refl;
  shut_down_down = λ w. refl;
}
