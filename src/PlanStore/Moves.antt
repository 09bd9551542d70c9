-- ===== src/PlanStore/Moves.antt =====
-- The statuses of plans under the methods of the store follow ALLOWED_PLAN_TRANSITIONS.
use incubator_hugegraph_ai.Prelude.{
  String, ◌≡◌, refl, ap, ◌∙◌, Bool, true, some, str_eq, if_lem, find, find-update, update_where,
  updated, map_option,
}
use incubator_hugegraph_ai.WritePlan.Status.{PlanStatus}
use incubator_hugegraph_ai.WritePlan.Lifecycle.{Reach, here, next}
use incubator_hugegraph_ai.PlanStore.Rows.{PlanRow, Store, is_plan, find_plan}
use incubator_hugegraph_ai.PlanStore.Prepared.{Keeps}

-- Every plan that the first store finds the second finds too, at a status that a run of legal
-- transitions reaches.
pub record Moves (s s' : Store) : Type 0 where
  pub moved :
      (plan_id : String) (r : PlanRow)
      → find_plan plan_id s ≡ some r
      → (r' : PlanRow) × (find_plan plan_id s' ≡ some r') × Reach r.status r'.status

pub Reach-on : {s t u : PlanStatus} → Reach s t → Reach t u → Reach s u
Reach-on a here = a
Reach-on a (next b e) = next (Reach-on a b) e

pub Moves-refl : (s : Store) → Moves s s
Moves-refl s = record { moved = λ i r e. (r, e, here) }

pub Moves-trans : {s t u : Store} → Moves s t → Moves t u → Moves s u
Moves-trans a b = record {
  moved = λ i r e.
      let (r1, e1, x) = a.moved i r e in
      let (r2, e2, y) = b.moved i r1 e1 in (r2, e2, Reach-on x y);
}

pub Keeps-Moves : {s t : Store} → Keeps s t → Moves s t
Keeps-Moves k = record { moved = λ i r e. (r, k.plan i r e, here) }

update-Reach :
    (q : PlanRow → Bool) (f : PlanRow → PlanRow) (r : PlanRow)
    → (q r ≡ true → Reach r.status (f r).status)
    → Reach r.status (updated q f r).status
update-Reach q f r h = if_lem (λ (x : PlanRow). Reach r.status x.status) (q r) h (λ e. here)

pub update-Moves :
    (s s' : Store) (q : PlanRow → Bool) (f : PlanRow → PlanRow)
    → s'.plans ≡ update_where q f s.plans
    → ((x : PlanRow) → (f x).plan_id ≡ x.plan_id)
    → ((plan_id : String) (r : PlanRow)
        → find_plan plan_id s ≡ some r
        → q r ≡ true
        → Reach r.status (f r).status)
    → Moves s s'
update-Moves s s' q f e keep legal = record {
  moved = λ i r g. (
    updated q f r,
    ap (find (is_plan i)) e
        ∙ find-update (is_plan i) q f s.plans (λ x. same_plan i x)
        ∙ ap (map_option (updated q f)) g,
    update-Reach q f r (legal i r g),
  );
}
  where
    same_plan : (i : String) (x : PlanRow) → is_plan i (updated q f x) ≡ is_plan i x
    same_plan i x =
        if_lem (λ (y : PlanRow). is_plan i y ≡ is_plan i x) (q x)
          (λ h. ap (λ (j : String). str_eq j i) (keep x)) (λ h. refl)
