-- ===== src/Control/Journal/Machine.antt =====
-- What the journal promises of one operation: a machine that enters it, writes its plan's rows one
-- by one, and closes it once all are written. It knows nothing of tables, transactions, processes
-- or journal objects.
use highly_available_trailba.Prelude.{
  ℕ, suc, ◌<◌, ◌≡◌, true, false, String, List, [], Option, none, some, ok, length, take,
}
use highly_available_trailba.Control.Phases.{Mark, phase_plan, expected}
use highly_available_trailba.Control.Rows.{Operation, OperationRow, Db, select_operation}
use highly_available_trailba.Control.Journal.Sound.{marks_of}

-- Where an operation stands: unknown, with so many rows of its plan written, or closed.
pub data Progress : Type 0 where
  absent : Progress
  running : Operation → ℕ → Progress
  closed : Operation → Progress

-- One move of the machine.
pub data Advance : Progress → Progress → Type 0 where
  enters :
      (o : Operation) (plan : List String)
      → phase_plan o.source o.target ≡ ok plan
      → Advance absent (running o 0)
  writes :
      (o : Operation) (plan : List String) (n : ℕ)
      → phase_plan o.source o.target ≡ ok plan
      → n < length (expected plan)
      → Advance (running o n) (running o (suc n))
  closes :
      (o : Operation) (plan : List String) (n : ℕ)
      → phase_plan o.source o.target ≡ ok plan
      → n ≡ length (expected plan)
      → Advance (running o n) (closed o)

-- Any number of moves.
pub data Run (p : Progress) : Progress → Type 0 where
  rests : Run p p
  moves : {q r : Progress} → Run p q → Advance q r → Run p r

pub Run-trans : {p q r : Progress} → Run p q → Run q r → Run p r
Run-trans a rests = a
Run-trans a (moves b m) = moves (Run-trans a b) m

-- What the tables show of an operation.
unfoldable pub standing : Option OperationRow → ℕ → Progress
standing none n = absent
standing (some r) n = elim r.complete [ true ↦ closed r.operation | false ↦ running r.operation n ]

unfoldable pub progress : String → Db → Progress
unfolding standing select_operation
progress ident db = standing (select_operation ident db) (length (marks_of ident db))

-- The rows of an operation are exactly those that its progress stands for.
unfoldable pub Shows : Progress → List Mark → Type 0
Shows absent marks = marks ≡ []
Shows (running o n) marks =
    (plan : List String) × (phase_plan o.source o.target ≡ ok plan)
    × (marks ≡ take n (expected plan))
Shows (closed o) marks =
    (plan : List String) × (phase_plan o.source o.target ≡ ok plan) × (marks ≡ expected plan)
