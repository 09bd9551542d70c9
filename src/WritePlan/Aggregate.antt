-- ===== src/WritePlan/Aggregate.antt =====
-- `aggregate_plan_status`, and what the aggregate of the operations' statuses says of them.
use incubator_hugegraph_ai.Prelude.{
  ◌≡◌, refl, ◌↔◌, Bool, true, false, List, [], ◌∷◌, arith, any, all, Memᴰ, Permᴰ, any-mem, all-mem,
  all_of_mem, all_witness, any-perm, all-perm, ◌∙◌, if◌then◌else◌,
}
use incubator_hugegraph_ai.WritePlan.Status.{ApplyStatus, PlanStatus, same_apply_status}

-- `status in success`
abbrev pub is_success : ApplyStatus → Bool
is_success ApplyStatus.applied = true
is_success ApplyStatus.already_applied = true
is_success _ = false

abbrev pub is_status : ApplyStatus → ApplyStatus → Bool
is_status wanted s = same_apply_status s wanted

unfoldable pub aggregate_plan_status : List ApplyStatus → PlanStatus
aggregate_plan_status [] = PlanStatus.issued
aggregate_plan_status (s ∷ ss) =
    let statuses = s ∷ ss in
    if all is_success statuses
    then (if all (is_status ApplyStatus.already_applied) statuses
        then PlanStatus.already_applied
        else PlanStatus.applied)
    else if any is_success statuses
    then PlanStatus.partial
    else if any (is_status ApplyStatus.partial) statuses
    then PlanStatus.partial
    else if any (is_status ApplyStatus.unknown) statuses
    then PlanStatus.unknown
    else if any (is_status ApplyStatus.conflict) statuses
    then PlanStatus.conflict
    else if any (is_status ApplyStatus.retryable_not_applied) statuses
    then PlanStatus.retryable_not_applied
    else PlanStatus.rejected

mixed : aggregate_plan_status (ApplyStatus.applied ∷ ApplyStatus.conflict ∷ []) ≡ PlanStatus.partial
unfolding aggregate_plan_status any all
mixed = refl

-- The tests of the aggregation, apart from the list.
choose : Bool → Bool → Bool → Bool → Bool → Bool → Bool → PlanStatus
choose every already some_success partial unknown conflict retryable =
    if every
    then (if already then PlanStatus.already_applied else PlanStatus.applied)
    else if some_success
    then PlanStatus.partial
    else if partial
    then PlanStatus.partial
    else if unknown
    then PlanStatus.unknown
    else if conflict
    then PlanStatus.conflict
    else if retryable
    then PlanStatus.retryable_not_applied
    else PlanStatus.rejected

abbrev is_nil : List ApplyStatus → Bool
is_nil [] = true
is_nil (_ ∷ _) = false

abbrev occurs : ApplyStatus → List ApplyStatus → Bool
occurs s = any (is_status s)

aggregate-choose :
    (ss : List ApplyStatus)
    → aggregate_plan_status ss ≡ (
        if is_nil ss
        then PlanStatus.issued
        else choose
            (all is_success ss)
            (all (is_status ApplyStatus.already_applied) ss)
            (any is_success ss)
            (occurs ApplyStatus.partial ss)
            (occurs ApplyStatus.unknown ss)
            (occurs ApplyStatus.conflict ss)
            (occurs ApplyStatus.retryable_not_applied ss))
unfolding aggregate_plan_status choose
aggregate-choose [] = refl
aggregate-choose (s ∷ ss) = refl

is_nil-perm : {ss ts : List ApplyStatus} → Permᴰ ss ts → is_nil ss ≡ is_nil ts
is_nil-perm Permᴰ.nil = refl
is_nil-perm (Permᴰ.cons e q) = refl
is_nil-perm (Permᴰ.swap e e') = refl
is_nil-perm (Permᴰ.trans q r) = is_nil-perm q ∙ is_nil-perm r

-- The aggregate does not depend on the order of the operations.
pub aggregate-perm :
    {ss ts : List ApplyStatus} → Permᴰ ss ts → aggregate_plan_status ss ≡ aggregate_plan_status ts
aggregate-perm {ss} {ts} q = rw (
  aggregate-choose ss,
  aggregate-choose ts,
  is_nil-perm q,
  all-perm is_success q,
  all-perm (is_status ApplyStatus.already_applied) q,
  any-perm is_success q,
  any-perm (is_status ApplyStatus.partial) q,
  any-perm (is_status ApplyStatus.unknown) q,
  any-perm (is_status ApplyStatus.conflict) q,
  any-perm (is_status ApplyStatus.retryable_not_applied) q,
)

is_nil-mem : {s : ApplyStatus} {ss : List ApplyStatus} → Memᴰ s ss → is_nil ss ≡ false
is_nil-mem (Memᴰ.head e) = refl
is_nil-mem (Memᴰ.tail m) = refl

-- A known partial write is never hidden: where one operation succeeded and another did not, the
-- plan is partial, whatever else happened.
pub mixed_is_partial :
    {s t : ApplyStatus} {ss : List ApplyStatus}
    → Memᴰ s ss
    → is_success s ≡ true
    → Memᴰ t ss
    → is_success t ≡ false
    → aggregate_plan_status ss ≡ PlanStatus.partial
unfolding choose
mixed_is_partial {s} {t} {ss} m h n k =
    rw (aggregate-choose ss)
      (ground (arith, is_nil-mem m, any-mem is_success m h, all-mem is_success n))

applied_tests :
    (ss : List ApplyStatus)
    → aggregate_plan_status ss ≡ PlanStatus.applied
    → (all is_success ss ≡ true) × (all (is_status ApplyStatus.already_applied) ss ≡ false)
unfolding choose
applied_tests ss h = ground (arith, aggregate-choose ss)

success_cases :
    (s : ApplyStatus)
    → is_success s ≡ true
    → is_status ApplyStatus.already_applied s ≡ false
    → ApplyStatus.applied ≡ s
success_cases s h k = ground arith

-- A plan counts as applied exactly when every operation succeeded and at least one was applied now
-- and not before.
pub applied_iff :
    (ss : List ApplyStatus)
    → (aggregate_plan_status ss ≡ PlanStatus.applied)
      ↔ (((s : ApplyStatus) → Memᴰ s ss → is_success s ≡ true) × Memᴰ ApplyStatus.applied ss)
unfolding choose
applied_iff ss = (
  (λ h.
      let (every, some_new) = applied_tests ss h in
      let (t, m, q) = all_witness (is_status ApplyStatus.already_applied) ss some_new in
      ((λ s n. all-mem is_success n every), rw (success_cases t (all-mem is_success m every) q) m)),
  (λ h. rw (aggregate-choose ss) (
      ground (
        arith,
        is_nil-mem h.1,
        all_of_mem is_success ss h.0,
        all-mem (is_status ApplyStatus.already_applied) h.1,
      ))),
)
