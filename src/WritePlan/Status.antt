-- ===== src/WritePlan/Status.antt =====
-- The two status enumerations of write_plan.py, and the table of legal plan transitions.
use incubator_hugegraph_ai.Prelude.{
  ℕ, ◌≡◌, Bool, true, false, ◌||◌, Option, none, some, List, [], ◌∷◌, arith, ◌==◌,
}

pub data ApplyStatus : Type 0 where
  applied already_applied rejected conflict partial unknown legacy_unknown : ApplyStatus
  retryable_not_applied : ApplyStatus

pub data PlanStatus : Type 0 where
  issued executing applied already_applied rejected conflict partial unknown : PlanStatus
  legacy_unknown retryable_not_applied expired : PlanStatus

-- `PlanStatus(status.value)`: the plan status of the same text
unfoldable pub to_plan_status : ApplyStatus → PlanStatus
to_plan_status ApplyStatus.applied = PlanStatus.applied
to_plan_status ApplyStatus.already_applied = PlanStatus.already_applied
to_plan_status ApplyStatus.rejected = PlanStatus.rejected
to_plan_status ApplyStatus.conflict = PlanStatus.conflict
to_plan_status ApplyStatus.partial = PlanStatus.partial
to_plan_status ApplyStatus.unknown = PlanStatus.unknown
to_plan_status ApplyStatus.legacy_unknown = PlanStatus.legacy_unknown
to_plan_status ApplyStatus.retryable_not_applied = PlanStatus.retryable_not_applied

-- `ApplyStatus(status)`: none where it raises `ValueError`
unfoldable pub to_apply_status : PlanStatus → Option ApplyStatus
to_apply_status PlanStatus.issued = none
to_apply_status PlanStatus.executing = none
to_apply_status PlanStatus.expired = none
to_apply_status PlanStatus.applied = some ApplyStatus.applied
to_apply_status PlanStatus.already_applied = some ApplyStatus.already_applied
to_apply_status PlanStatus.rejected = some ApplyStatus.rejected
to_apply_status PlanStatus.conflict = some ApplyStatus.conflict
to_apply_status PlanStatus.partial = some ApplyStatus.partial
to_apply_status PlanStatus.unknown = some ApplyStatus.unknown
to_apply_status PlanStatus.legacy_unknown = some ApplyStatus.legacy_unknown
to_apply_status PlanStatus.retryable_not_applied = some ApplyStatus.retryable_not_applied

abbrev pub rank : PlanStatus → ℕ
rank PlanStatus.issued = 0
rank PlanStatus.executing = 1
rank PlanStatus.applied = 2
rank PlanStatus.already_applied = 3
rank PlanStatus.rejected = 4
rank PlanStatus.conflict = 5
rank PlanStatus.partial = 6
rank PlanStatus.unknown = 7
rank PlanStatus.legacy_unknown = 8
rank PlanStatus.retryable_not_applied = 9
rank PlanStatus.expired = 10

abbrev pub apply_rank : ApplyStatus → ℕ
apply_rank ApplyStatus.applied = 0
apply_rank ApplyStatus.already_applied = 1
apply_rank ApplyStatus.rejected = 2
apply_rank ApplyStatus.conflict = 3
apply_rank ApplyStatus.partial = 4
apply_rank ApplyStatus.unknown = 5
apply_rank ApplyStatus.legacy_unknown = 6
apply_rank ApplyStatus.retryable_not_applied = 7

-- `is`, and `==` on the values
abbrev pub same_status : PlanStatus → PlanStatus → Bool
same_status a b = rank a == rank b

abbrev pub same_apply_status : ApplyStatus → ApplyStatus → Bool
same_apply_status a b = apply_rank a == apply_rank b

-- `status in {…}`
abbrev pub member : PlanStatus → List PlanStatus → Bool
member s [] = false
member s (t ∷ ts) = same_status s t || member s ts

pub same_status_sound : (a b : PlanStatus) → same_status a b ≡ true → a ≡ b
same_status_sound a b h = ground arith

pub same_status_refl : (a : PlanStatus) → same_status a a ≡ true
same_status_refl a = ground arith

pub same_apply_status_sound : (a b : ApplyStatus) → same_apply_status a b ≡ true → a ≡ b
same_apply_status_sound a b h = ground arith

pub to_apply_status-to_plan_status : (s : ApplyStatus) → to_apply_status (to_plan_status s) ≡ some s
unfolding to_apply_status to_plan_status
to_apply_status-to_plan_status s = ground arith

-- `ALLOWED_PLAN_TRANSITIONS`
abbrev pub allowed_plan_transitions : PlanStatus → List PlanStatus
allowed_plan_transitions PlanStatus.issued = PlanStatus.executing ∷ PlanStatus.expired ∷ []
allowed_plan_transitions PlanStatus.executing =
    PlanStatus.applied ∷ PlanStatus.already_applied ∷ PlanStatus.rejected ∷ PlanStatus.conflict
    ∷ PlanStatus.partial ∷ PlanStatus.unknown ∷ []
allowed_plan_transitions PlanStatus.unknown =
    PlanStatus.applied ∷ PlanStatus.conflict ∷ PlanStatus.retryable_not_applied ∷ []
allowed_plan_transitions PlanStatus.legacy_unknown =
    PlanStatus.applied ∷ PlanStatus.conflict ∷ PlanStatus.retryable_not_applied ∷ []
allowed_plan_transitions PlanStatus.retryable_not_applied = PlanStatus.executing ∷ []
allowed_plan_transitions PlanStatus.partial =
    PlanStatus.partial ∷ PlanStatus.applied ∷ PlanStatus.unknown ∷ []
allowed_plan_transitions PlanStatus.applied = []
allowed_plan_transitions PlanStatus.already_applied = []
allowed_plan_transitions PlanStatus.rejected = []
allowed_plan_transitions PlanStatus.conflict = []
allowed_plan_transitions PlanStatus.expired = []

unfoldable pub can_transition : PlanStatus → PlanStatus → Bool
can_transition current target = member target (allowed_plan_transitions current)
