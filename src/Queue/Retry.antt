-- ===== src/Queue/Retry.antt =====
-- No key is lost: it waits until a round has handled it without an error.
use kosmos_v.Prelude.{
  none, some, arith, ◌≢◌, ℕ, zero, suc, String, ◌≡◌, refl, sym, subst, ◌∙◌, ◌⊎◌, inl, inr, true,
  false, Option, List, [], ◌∷◌,
}
use kosmos_v.Prelude.Branches.{option_branch, some_branch}
use mathlib.Core.Bool.{false≢true}
use kosmos_v.Queue.{
  Item, key, foreign, Workqueue, IsWorkqueue, Report, stopped, processed, process,
  process_next_item, rounds,
}

-- The round handled this item, and it may be forgotten.
abbrev pub Finished : Item → Report → Type 0
Finished i stopped = ⊥
Finished i (processed j done) = (i ≡ j) × (done ≡ true)

module _ {W : Type 0} ⦃q : Workqueue W⦄ (laws : IsWorkqueue W) {S E : Type 0}
    (sync : String → S → Option E × S) where
  open laws use {waiting, busy}

  -- Both ways to end a round keep what waits.
  kept_by_success :
      (i j : Item) (w : W) → waiting w j ≡ true → waiting (q.done i (q.forget i w)) j ≡ true
  kept_by_success i j w h = laws.done_waiting (q.forget i w) i j ∙ laws.forget_waiting w i j ∙ h

  kept_by_failure :
      (i j : Item) (w : W)
      → (waiting w j ≡ true) ⊎ (j ≡ i)
      → waiting (q.done i (q.add_rate_limited i w)) j ≡ true
  kept_by_failure i j w (inl h) =
      laws.done_waiting (q.add_rate_limited i w) i j ∙ laws.add_kept w i j h
  kept_by_failure i j w (inr e) =
      laws.done_waiting (q.add_rate_limited i w) i j
      ∙ subst (λ k. waiting (q.add_rate_limited i w) k ≡ true) (sym e) (laws.add_waiting w i)

  -- What a round leaves of an item that waited, or was handed out.
  abbrev pub Kept : Item → Report × W × S → Type 0
  Kept j (report, w, s) = (waiting w j ≡ true) ⊎ Finished j report

  success-Kept :
      (i j : Item) (w : W) (s : S)
      → (waiting w j ≡ true) ⊎ (j ≡ i)
      → Kept j (processed i true, q.done i (q.forget i w), s)
  success-Kept i j w s (inl h) = inl (kept_by_success i j w h)
  success-Kept i j w s (inr e) = inr (e, refl)

  process-Kept :
      (i j : Item) (w : W) (s : S) → (waiting w j ≡ true) ⊎ (j ≡ i) → Kept j (process sync i w s)
  unfolding process
  process-Kept (foreign v) j w s h = success-Kept (foreign v) j w s h
  process-Kept (key k) j w s h =
      option_branch (Kept j) (sync k s).0 (λ _. success-Kept (key k) j w (sync k s).1 h)
        (λ e _. inl (kept_by_failure (key k) j w h))

  process_next_item-Kept :
      (j : Item) (w : W) (s : S) → waiting w j ≡ true → Kept j (process_next_item sync w s)
  unfolding process_next_item
  process_next_item-Kept j w s h =
      option_branch (Kept j) (q.get w) (λ _. inl h)
        (λ p e. process-Kept p.0 j p.1 s (laws.get_waiting w p.1 p.0 j e h))

  abbrev pub FinishedIn : Item → List Report → Type 0
  FinishedIn i [] = ⊥
  FinishedIn i (r ∷ rs) = Finished i r ⊎ FinishedIn i rs

  -- A key that waits still waits after any number of rounds, whatever `sync` does, unless one of
  -- them handled it without an error.
  pub rounds_keep :
      (n : ℕ) (j : Item) (w : W) (s : S)
      → waiting w j ≡ true
      → let (reports, w', s') = rounds sync n w s in (waiting w' j ≡ true) ⊎ FinishedIn j reports
  unfolding rounds
  rounds_keep zero j w s h = inl h
  rounds_keep (suc n) j w s h =
      let (report, w', s') = process_next_item sync w s in
      elim (process_next_item-Kept j w s h) [
        | inr finished ↦ inr (inl finished)
        | inl waits ↦ elim (rounds_keep n j w' s' waits) [
          | inl still ↦ inl still
          | inr later ↦ inr (inr later)
        ]
      ]

  -- No item is left busy by a round: what is busy after it was busy before.
  abbrev pub Freed : W → Report × W × S → Type 0
  Freed w (report, w', s') = (j : Item) → busy w' j ≡ true → busy w j ≡ true

  done_frees :
      (i j : Item) (w w' : W)
      → (busy w' j ≡ true → (busy w j ≡ true) ⊎ (j ≡ i))
      → busy (q.done i w') j ≡ true
      → busy w j ≡ true
  done_frees i j w w' from h = elim (from (laws.done_kept w' i j h)) [
    | inl before ↦ before
    | inr e ↦
        absurd
          (false≢true (sym (laws.done_free w' i) ∙ subst (λ k. busy (q.done i w') k ≡ true) e h))
  ]

  process-Freed :
      (i : Item) (w w' : W) (s : S)
      → ((j : Item) → busy w' j ≡ true → (busy w j ≡ true) ⊎ (j ≡ i))
      → Freed w (process sync i w' s)
  unfolding process
  process-Freed (foreign v) w w' s from = λ j h.
      done_frees (foreign v) j w (q.forget (foreign v) w')
        (λ b. from j (sym (laws.forget_busy w' (foreign v) j) ∙ b)) h
  process-Freed (key k) w w' s from =
      option_branch (Freed w) (sync k s).0
        (λ _ j h.
          done_frees (key k) j w (q.forget (key k) w')
            (λ b. from j (sym (laws.forget_busy w' (key k) j) ∙ b)) h)
        (λ _ _ j h.
          done_frees (key k) j w (q.add_rate_limited (key k) w')
            (λ b. from j (sym (laws.add_busy w' (key k) j) ∙ b)) h)

  -- On every path through `ProcessNextItem` the item that was handed out is done in the end: an item
  -- that is not busy before a round is not busy after it.
  pub process_next_item-Freed :
      (w : W) (s : S) (j : Item)
      → busy w j ≡ false
      → let (report, w', s') = process_next_item sync w s in busy w' j ≡ false
  unfolding process_next_item
  process_next_item-Freed w s j free =
      let (report, w', s') = process_next_item sync w s in
      let freed : Freed w (report, w', s') =
        option_branch (Freed w) (q.get w) (λ _ i h. h)
          (λ p e. process-Freed p.0 w p.1 s (λ i. laws.get_busy w p.1 p.0 i e)) in
      ground (arith, freed j)

  -- A key whose `sync` fails waits again after its round.
  pub failure_waits :
      (w w' : W) (k : String) (s : S)
      → q.get w ≡ some (key k, w')
      → (sync k s).0 ≢ none
      → let (report, after, s') = process_next_item sync w s in
        (waiting after (key k) ≡ true) × (s' ≡ (sync k s).1)
  unfolding process_next_item process
  failure_waits w w' k s taken fails =
      let P : Report × W × S → Type 0 = λ r. (waiting r.1 (key k) ≡ true) × (r.2 ≡ (sync k s).1) in
      some_branch P _ _ (key k, w') taken
        (option_branch P (sync k s).0 (λ fine. absurd (fails fine))
          (λ e _. (kept_by_failure (key k) (key k) w' (inr refl), refl)))
