-- ===== src/Queue/Draining.antt =====
-- A worker of a queue that is shut down comes to its end.
use kosmos_v.Prelude.{
  ℕ, zero, suc, ◌<◌, String, ◌≡◌, refl, ◌∙◌, Bool, true, false, Option, some, List, ◌∷◌, arith,
}
use kosmos_v.Prelude.Branches.{option_branch}
use kosmos_v.Prelude.Lists.{any}
use kosmos_v.Queue.{
  Item, key, foreign, Workqueue, Report, stopped, processed, process, process_next_item, rounds,
}

-- The documented behaviour of `ShutDown`: the queue ignores what is added, hands out what it has, and
-- then lets its workers go. `pending`: the number of items that it will hand out.
pub record IsDraining (W : Type 0) ⦃q : Workqueue W⦄ : Type 0 where
  pub pending : W → ℕ
  pub down : W → Bool
  pub get_fewer : (w w' : W) (i : Item) → q.get w ≡ some (i, w') → pending w' < pending w
  pub get_down : (w w' : W) (i : Item) → q.get w ≡ some (i, w') → down w' ≡ down w
  pub add_ignored :
      (w : W) (i : Item) → down w ≡ true → pending (q.add_rate_limited i w) ≡ pending w
  pub add_down : (w : W) (i : Item) → down (q.add_rate_limited i w) ≡ down w
  pub forget_pending : (w : W) (i : Item) → pending (q.forget i w) ≡ pending w
  pub forget_down : (w : W) (i : Item) → down (q.forget i w) ≡ down w
  pub done_pending : (w : W) (i : Item) → pending (q.done i w) ≡ pending w
  pub done_down : (w : W) (i : Item) → down (q.done i w) ≡ down w
  pub shut_down_down : (w : W) → down (q.shut_down w) ≡ true

abbrev pub is_stopped : Report → Bool
is_stopped stopped = true
is_stopped (processed i forgotten) = false

module _ {W : Type 0} ⦃q : Workqueue W⦄ (laws : IsDraining W) {S E : Type 0}
    (sync : String → S → Option E × S) where
  open laws use {pending, down}

  -- A round ends the loop, or leaves fewer items of a queue that is still shut down.
  abbrev Drained : W → Report × W × S → Type 0
  Drained w (stopped, w', s) = Unit
  Drained w (processed i forgotten, w', s) = (pending w' < pending w) × (down w' ≡ true)

  process-Drained :
      (i : Item) (w w' : W) (s : S)
      → pending w' < pending w
      → down w' ≡ true
      → Drained w (process sync i w' s)
  unfolding process
  process-Drained (foreign v) w w' s less h = (
    omega (
      arith,
      laws.done_pending (q.forget (foreign v) w') (foreign v),
      laws.forget_pending w' (foreign v),
      less,
    ),
    laws.done_down (q.forget (foreign v) w') (foreign v) ∙ laws.forget_down w' (foreign v) ∙ h,
  )
  process-Drained (key k) w w' s less h =
      let i = key k in
      option_branch (Drained w) (sync k s).0
        (λ _. (
          omega (arith, laws.done_pending (q.forget i w') i, laws.forget_pending w' i, less),
          laws.done_down (q.forget i w') i ∙ laws.forget_down w' i ∙ h,
        ))
        (λ _ _. (
          omega
              (arith, laws.done_pending (q.add_rate_limited i w') i, laws.add_ignored w' i h, less),
          laws.done_down (q.add_rate_limited i w') i ∙ laws.add_down w' i ∙ h,
        ))

  process_next_item-Drained :
      (w : W) (s : S) → down w ≡ true → Drained w (process_next_item sync w s)
  unfolding process_next_item
  process_next_item-Drained w s h =
      option_branch (Drained w) (q.get w) (λ _. tt)
        (λ (i, w') e.
          process-Drained i w w' s (laws.get_fewer w w' i e) (laws.get_down w w' i e ∙ h))

  one_stops :
      (r : Report × W × S) (w : W) (reports : List Report)
      → Drained w r
      → ((pending r.1 < pending w) → down r.1 ≡ true → any is_stopped reports ≡ true)
      → any is_stopped (r.0 ∷ reports) ≡ true
  one_stops (stopped, w', s) w reports h rest = refl
  one_stops (processed i forgotten, w', s) w reports (less, still) rest = rest less still

  rounds_stop :
      (n : ℕ) (w : W) (s : S)
      → down w ≡ true
      → pending w < n
      → any is_stopped (rounds sync n w s).0 ≡ true
  unfolding rounds
  rounds_stop zero w s h less = absurd (omega (arith, less))
  rounds_stop (suc n) w s h less =
      let (report, w', s') = process_next_item sync w s in
      one_stops (report, w', s') w (rounds sync n w' s').0 (process_next_item-Drained w s h)
        (λ fewer still. rounds_stop n w' s' still (omega (arith, fewer, less)))

  -- The loop of a worker ends once its queue is shut down, whatever the handler of the keys does and
  -- however often it fails: of one round more than items were still to be handed out, one finds the
  -- queue shut down.
  pub rounds-shut_down :
      (w : W) (s : S)
      → any is_stopped (rounds sync (suc (pending (q.shut_down w))) (q.shut_down w) s).0 ≡ true
  rounds-shut_down w s =
      rounds_stop (suc (pending (q.shut_down w))) (q.shut_down w) s (laws.shut_down_down w)
        (omega arith)
