-- ===== src/Pipeline/Steps.antt =====
-- The states of the pipeline that its moves lead to.
use kosmos_v.Prelude.{◌≡◌, some}
use kosmos_v.Quantity.{Quantities}
use kosmos_v.Float.{Machine}
use kosmos_v.ResourceUpdater.{ApiServer}
use kosmos_v.Pipeline.{Views, Pipeline, Move, recommend, solve_node, update, elsewhere, step}

module _ {S E Q : Type 0} ⦃q : Quantities Q⦄ (m : Machine) (api : ApiServer S E Q)
    (Seen : Views Q → Type 0) (Others : S → S → Type 0) where
  -- A worker sees what the caches may hold, and others change the server as they may.
  abbrev pub IsAllowed : Pipeline S Q → Move S Q → Type 0
  IsAllowed p (recommend v node) = Seen v
  IsAllowed p (solve_node v) = Seen v
  IsAllowed p (update v i) = Seen v
  IsAllowed p (elsewhere s) = Others p.server s
  IsAllowed p x = Unit

  pub data Step (p : Pipeline S Q) : Pipeline S Q → Type 0 where
    moves :
        (x : Move S Q) {p' : Pipeline S Q} → IsAllowed p x → step m api x p ≡ some p' → Step p p'

  pub data Reach (p : Pipeline S Q) : Pipeline S Q → Type 0 where
    start : Reach p p
    later : {p' p'' : Pipeline S Q} → Reach p p' → Step p' p'' → Reach p p''

  -- What every allowed move keeps, all reachable states have.
  pub Reach-keeps :
      (P : Pipeline S Q → Type 0)
      → ((p p' : Pipeline S Q) (x : Move S Q)
          → IsAllowed p x
          → step m api x p ≡ some p'
          → P p
          → P p')
      → {p p' : Pipeline S Q} → P p
      → Reach p p'
      → P p'
  Reach-keeps P keeps h start = h
  Reach-keeps P keeps h (later reach (moves x allowed e)) =
      keeps _ _ x allowed e (Reach-keeps P keeps h reach)
