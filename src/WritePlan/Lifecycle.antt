-- ===== src/WritePlan/Lifecycle.antt =====
-- The plan state machine: which statuses are final, and what every legal run keeps.
use incubator_hugegraph_ai.Prelude.{◌≡◌, refl, ◌⊎◌, inl, inr, Bool, true, false, arith}
use incubator_hugegraph_ai.WritePlan.Status.{PlanStatus, can_transition}

-- A run of legal transitions.
pub data Reach (s : PlanStatus) : PlanStatus → Type 0 where
  here : Reach s s
  next : {t u : PlanStatus} → Reach s t → can_transition t u ≡ true → Reach s u

abbrev pub is_final : PlanStatus → Bool
is_final PlanStatus.applied = true
is_final PlanStatus.already_applied = true
is_final PlanStatus.rejected = true
is_final PlanStatus.conflict = true
is_final PlanStatus.expired = true
is_final _ = false

final_stuck : (s t : PlanStatus) → is_final s ≡ true → can_transition s t ≡ false
unfolding can_transition
final_stuck s t h = ground arith

-- A final status is never left.
pub final_absorbs : {s t : PlanStatus} → is_final s ≡ true → Reach s t → t ≡ s
final_absorbs h here = refl
final_absorbs {s} h (next {t = t} {u = u} r e) = ground (arith, final_absorbs h r, final_stuck t u)

-- From every status that is not final some legal run reaches `applied`.
pub live_reaches_applied : (s : PlanStatus) → is_final s ≡ false → Reach s PlanStatus.applied
unfolding can_transition
live_reaches_applied PlanStatus.issued h = next {t = PlanStatus.executing} (next here refl) refl
live_reaches_applied PlanStatus.executing h = next here refl
live_reaches_applied PlanStatus.applied h = here
live_reaches_applied PlanStatus.already_applied h = absurd (ground arith)
live_reaches_applied PlanStatus.rejected h = absurd (ground arith)
live_reaches_applied PlanStatus.conflict h = absurd (ground arith)
live_reaches_applied PlanStatus.partial h = next here refl
live_reaches_applied PlanStatus.unknown h = next here refl
live_reaches_applied PlanStatus.legacy_unknown h = next here refl
live_reaches_applied PlanStatus.retryable_not_applied h =
    next {t = PlanStatus.executing} (next here refl) refl
live_reaches_applied PlanStatus.expired h = absurd (ground arith)

into_expired : (s : PlanStatus) → can_transition s PlanStatus.expired ≡ true → s ≡ PlanStatus.issued
unfolding can_transition
into_expired s h = ground arith

into_issued : (s : PlanStatus) → can_transition s PlanStatus.issued ≡ false
unfolding can_transition
into_issued s = ground arith

-- Nothing returns to `issued`.
pub issued_is_initial :
    {s t : PlanStatus} → Reach s t → t ≡ PlanStatus.issued → s ≡ PlanStatus.issued
issued_is_initial here e = e
issued_is_initial (next {t = t} {u = u} r c) e = ground (arith, into_issued t)

expires_from :
    {s t : PlanStatus}
    → Reach s t
    → t ≡ PlanStatus.expired
    → (s ≡ PlanStatus.issued) ⊎ (s ≡ PlanStatus.expired)
expires_from here e = inr e
expires_from (next {t = t} r c) e = inl (issued_is_initial r (into_expired t (ground arith)))
