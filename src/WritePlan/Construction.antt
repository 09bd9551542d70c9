-- ===== src/WritePlan/Construction.antt =====
-- Which plans can be constructed.
use incubator_hugegraph_ai.Prelude.{
  ◌<◌, String, ◌≡◌, ◌≢◌, ◌↔◌, refl, sym, ap, true, false, List, [], ◌∷◌, ◌++◌, map, Memᴰ, arith,
  any-mem, any_witness, all-mem, all_of_mem, str_eq, str_eq_iff, ok, append_assoc, append-nil, leb,
  Bool-cases, inl, inr,
}
use incubator_hugegraph_ai.WritePlan.Plan.{
  OperationPlan, WritePlan, contains, check_operations, new_write_plan,
}

pub contains_iff :
    (items : List String) (item : String) → (contains items item ≡ true) ↔ Memᴰ item items
contains_iff items item = (
  (λ h.
      let (i, m, e) = any_witness (λ i. str_eq i item) items h in
      rw (sym ((str_eq_iff i item).0 e)) m),
  (λ m. any-mem (λ i. str_eq i item) m ((str_eq_iff item item).1 refl)),
)

abbrev pub operation_ids : List OperationPlan → List String
operation_ids = map (λ (o : OperationPlan). o.operation_id)

-- An operation may follow others: its id is new, and it depends on earlier ones only.
pub record MayFollow (earlier : List String) (o : OperationPlan) : Type 0 where
  pub fresh : ¬ Memᴰ o.operation_id earlier
  pub dependencies : (d : String) → Memᴰ d o.depends_on → Memᴰ d earlier

-- Every operation may follow those before it.
abbrev pub IsOrdered : List OperationPlan → Type 0
IsOrdered ops =
    (before : List OperationPlan) (o : OperationPlan) (after : List OperationPlan)
    → ops ≡ before ++ (o ∷ after)
    → MayFollow (operation_ids before) o

check_head :
    (seen : List String) (o : OperationPlan) (os : List OperationPlan)
    → check_operations seen (o ∷ os) ≡ ok tt
    → MayFollow seen o × (check_operations (seen ++ o.operation_id ∷ []) os ≡ ok tt)
unfolding check_operations
check_head seen o os h = (
  record {
    fresh = λ m. ground (arith, (contains_iff seen o.operation_id).1 m);
    dependencies = λ d m. (contains_iff seen d).0 (all-mem (contains seen) m (ground arith));
  },
  ground arith,
)

check_cons :
    (seen : List String) (o : OperationPlan) (os : List OperationPlan)
    → MayFollow seen o
    → check_operations (seen ++ o.operation_id ∷ []) os ≡ ok tt
    → check_operations seen (o ∷ os) ≡ ok tt
unfolding check_operations
check_cons seen o os f h = elim (Bool-cases (contains seen o.operation_id)) [
  | inl dup ↦ absurd (f.fresh ((contains_iff seen o.operation_id).0 dup))
  | inr new ↦
      rw
        (
          new,
          all_of_mem (contains seen) o.depends_on
              (λ d m. (contains_iff seen d).1 (f.dependencies d m)),
        )
        h
]

-- The check in front of a split: what `seen` holds when the loop comes to `o`.
check_split :
    (seen : List String) (before : List OperationPlan) (o : OperationPlan)
    (after : List OperationPlan)
    → check_operations seen (before ++ (o ∷ after)) ≡ ok tt
    → MayFollow (seen ++ operation_ids before) o
check_split seen [] o after h = rw append-nil ((check_head seen o after h).0)
check_split seen (b ∷ before) o after h =
    rw (← append_assoc seen (b.operation_id ∷ []) (operation_ids before)) (
      check_split (seen ++ b.operation_id ∷ []) before o after
        (check_head seen b (before ++ (o ∷ after)) h).1)

check_all :
    (seen : List String) (ops : List OperationPlan)
    → ((before : List OperationPlan) (o : OperationPlan) (after : List OperationPlan)
        → ops ≡ before ++ (o ∷ after)
        → MayFollow (seen ++ operation_ids before) o)
    → check_operations seen ops ≡ ok tt
unfolding check_operations
check_all seen [] h = refl
check_all seen (o ∷ os) h =
    unfold check_operations in
    check_cons seen o os (rw append-nil at (h [] o os refl)) (
      check_all (seen ++ o.operation_id ∷ []) os (λ before p after e.
        rw (append_assoc seen (o.operation_id ∷ []) (operation_ids before))
          (h (o ∷ before) p after (ap (λ l. o ∷ l) e))))

-- The operations of a plan are accepted exactly when each has a new id and depends only on
-- operations before it.
check_operations_iff :
    (ops : List OperationPlan) → (check_operations [] ops ≡ ok tt) ↔ IsOrdered ops
check_operations_iff ops =
    ((λ h before o after e. check_split [] before o after (rw e at h)), check_all [] ops)

construction_tests :
    (p : WritePlan)
    → new_write_plan p ≡ ok p
    → (str_eq p.plan_id "" ≡ false)
      × (str_eq p.tool_name "" ≡ false)
      × (check_operations [] p.operations ≡ ok tt)
      × (leb p.expires_at p.created_at ≡ false)
unfolding new_write_plan
construction_tests p h = ground arith

-- What a constructed plan promises.
pub record IsWellFormed (p : WritePlan) : Type 0 where
  pub named : p.plan_id ≢ ""
  pub tooled : p.tool_name ≢ ""
  pub ordered : IsOrdered p.operations
  pub lasting : p.created_at < p.expires_at

-- A plan can be constructed, and is then unchanged, exactly when it has an id and a tool, its
-- operations have distinct ids and depend on earlier ones only, and it expires after its creation.
pub new_write_plan_iff : (p : WritePlan) → (new_write_plan p ≡ ok p) ↔ IsWellFormed p
unfolding new_write_plan
new_write_plan_iff p = (
  (λ h.
      let (n, t, c, e) = construction_tests p h in
      record {
        named = ground (arith, str_eq_iff p.plan_id "");
        tooled = ground (arith, str_eq_iff p.tool_name "");
        ordered = (check_operations_iff p.operations).0 c;
        lasting = ground arith;
      }),
  (λ w. ground (
    arith,
    str_eq_iff p.plan_id "",
    str_eq_iff p.tool_name "",
    (check_operations_iff p.operations).1 w.ordered,
    w.named,
    w.tooled,
    w.lasting,
  )),
)
