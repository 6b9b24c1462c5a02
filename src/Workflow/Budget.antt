-- ===== src/Workflow/Budget.antt =====
-- How many refunds a run may still submit at a point of the workflow (refund-workflow.ts).
use customer_service_os_lite.Common.{ℕ, ◌+◌, ◌≤◌, ◌≡◌, List, [], ◌∷◌, ◌++◌, arith}
use customer_service_os_lite.Workflow.Types.{Command, SettlePoint, Point, Reaction}

abbrev pub is_submission : Command → ℕ
is_submission (Command.execute_refund p) = 1
is_submission _ = 0

-- The submissions among some commands.
abbrev pub submissions : List Command → ℕ
submissions [] = 0
submissions (c ∷ cs) = is_submission c + submissions cs

pub submissions-append :
    (cs ds : List Command) → submissions (cs ++ ds) ≡ submissions cs + submissions ds
submissions-append [] ds = omega arith
submissions-append (c ∷ cs) ds = omega (arith, submissions-append cs ds)

-- One submission is left until the refund has been submitted.
abbrev pub settle_budget : SettlePoint → ℕ
settle_budget (SettlePoint.checking_evidence d p) = 1
settle_budget (SettlePoint.rechecking_context d p) = 1
settle_budget _ = 0

abbrev pub budget : Point → ℕ
budget (Point.intake at) = 1
budget (Point.offering at) = 1
budget (Point.settling at) = settle_budget at
budget _ = 0

-- A reaction that spends no more than it had.
abbrev pub Spends : ℕ → Reaction → Type 0
Spends had (c, commands) = submissions commands + budget c.point ≤ had
