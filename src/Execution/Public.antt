-- ===== src/Execution/Public.antt =====
-- What a status query shows, and what a registry finds.
use incubator_hugegraph_ai.Prelude.{
  ℕ, String, ◌≡◌, ◌≢◌, refl, ◌∙◌, sym, true, false, Option, none, some, List, [], ◌∷◌, map, Memᴰ,
  ◌⊎◌, Result, err, subst, ap, arith, Bool-cases, inl, inr, str_eq, str_eq_iff, if◌then◌else◌, ok,
}
use incubator_hugegraph_ai.WritePlan.Status.{PlanStatus}
use incubator_hugegraph_ai.WritePlan.Value.{
  Value, Fields, mapping, end, field, get_field, none_value, bool, int, str, enum, list, tuple, set,
  frozenset,
}
use incubator_hugegraph_ai.PlanStore.Rows.{OperationRow, lease_available}
use incubator_hugegraph_ai.Execution.Status.{
  PublicOperation, PublicPlan, PlanReply, plan_details, drop_field, public_operation,
  public_receipt, public_plan, shown_status, status_reply, confirmation_reply, status,
  confirmation_result, status_clock, get_record,
}
use incubator_hugegraph_ai.PlanStore.Plans.{PlanRecord}
use incubator_hugegraph_ai.Envelope.{envelope_ok, envelope_err}
use incubator_hugegraph_ai.Execution.World.{World, Services, Action, pure, continue, ◌>>=◌}
use incubator_hugegraph_ai.Execution.Registry.{Registry, put, register, function_for}

drop_field-gone : (key : String) (fs : Fields) → get_field key (drop_field key fs) ≡ none
drop_field-gone key end = refl
drop_field-gone key (field k v fs) =
    ground (arith, drop_field-gone key fs, Bool-cases (str_eq k key))

token_dropped :
    (stored : Option Value) (fs : Fields)
    → public_receipt stored ≡ some (mapping fs)
    → get_field "attempt_token" fs ≡ none
token_dropped none fs e = absurd (cc e)
token_dropped (some (mapping gs)) fs e = cc (drop_field-gone "attempt_token" gs, e)
token_dropped (some none_value) fs e = absurd (cc e)
token_dropped (some (bool b)) fs e = absurd (cc e)
token_dropped (some (int n)) fs e = absurd (cc e)
token_dropped (some (str x)) fs e = absurd (cc e)
token_dropped (some (enum x)) fs e = absurd (cc e)
token_dropped (some (list x)) fs e = absurd (cc e)
token_dropped (some (tuple x)) fs e = absurd (cc e)
token_dropped (some (set x)) fs e = absurd (cc e)
token_dropped (some (frozenset x)) fs e = absurd (cc e)

-- Every operation that is shown stands for one of the store.
shown_operations :
    (rows : List OperationRow) {o : PublicOperation}
    → Memᴰ o (map public_operation rows)
    → (r : OperationRow) × (o ≡ public_operation r)
shown_operations [] m = elim m [ ]
shown_operations (r ∷ rows) (Memᴰ.head e) = (r, e)
shown_operations (r ∷ rows) (Memᴰ.tail m) = shown_operations rows m

-- the plan that a reply shows
abbrev pub plan_shown : PlanReply → Option PublicPlan
plan_shown (envelope_ok p) = some p
plan_shown (envelope_err t (plan_details p)) = some p
plan_shown (envelope_err t _) = none

status_reply_shows :
    (now : ℕ) (found : Option PlanRecord) {p : PublicPlan}
    → plan_shown (status_reply now found) ≡ some p
    → (r : PlanRecord) × (public_plan now r ≡ p)
unfolding status_reply
status_reply_shows now none h = absurd (cc h)
status_reply_shows now (some r) h = (r, cc h)

confirmation_reply_shows :
    (r : PlanReply) {p : PublicPlan}
    → plan_shown (confirmation_reply r) ≡ some p
    → plan_shown r ≡ some p
unfolding confirmation_reply
confirmation_reply_shows (envelope_err t d) h = h
confirmation_reply_shows (envelope_ok q) h = ground arith

continue_ok :
    {A B : Type 0} (m : Result A) (w : World) (f : A → Action B) {b : B}
    → (continue m w f).0 ≡ ok b
    → (a : A) × ((f a w).0 ≡ ok b)
continue_ok (ok a) w f h = (a, h)
continue_ok (err e) w f h = absurd (cc h)

module _ (v : Services) (plan_id : String) (w : World) where
  status_shows :
      {r : PlanReply} {p : PublicPlan}
      → (status v plan_id w).0 ≡ ok r
      → plan_shown r ≡ some p
      → (now : ℕ) × (found : PlanRecord) × (public_plan now found ≡ p)
  unfolding status
  status_shows {r} {p} h e =
      let s = get_record v plan_id w.store in
      let (found, h1) =
        continue_ok s.0 (record w { store = s.1 })
          (λ found. status_clock v found >>= λ now. pure (status_reply now found)) h in
      let clock = status_clock v found (record w { store = s.1 }) in
      let (now, h2) = continue_ok clock.0 clock.1 (λ now. pure (status_reply now found)) h1 in
      let same : status_reply now found ≡ r = cc h2 in
      let (stored, q) = status_reply_shows now found (ap plan_shown same ∙ e) in (now, stored, q)

  confirmation_result_shows :
      {r : PlanReply} {p : PublicPlan}
      → (confirmation_result v plan_id w).0 ≡ ok r
      → plan_shown r ≡ some p
      → (now : ℕ) × (found : PlanRecord) × (public_plan now found ≡ p)
  unfolding confirmation_result
  confirmation_result_shows {r} {p} h e =
      let m = status v plan_id w in
      let (reply, h0, h1) = confirmed m.0 m.1 h in
      let same : confirmation_reply reply ≡ r = cc h1 in
      status_shows h0 (confirmation_reply_shows reply (ap plan_shown same ∙ e))
    where
      confirmed :
          (m : Result PlanReply) (w' : World)
          → (continue m w' (λ reply. pure (confirmation_reply reply))).0 ≡ ok r
          → (reply : PlanReply) × (m ≡ ok reply) × (ok (confirmation_reply reply) ≡ ok r)
      confirmed (ok reply) w' q = (reply, refl, q)
      confirmed (err x) w' q = absurd (cc q)

  -- Neither `status` nor `_confirmation_result` shows the attempt token that a receipt was stored
  -- with: no operation of the plan in their reply has a receipt with that key.
  pub no_token_shown :
      {r : PlanReply} {p : PublicPlan}
      → ((status v plan_id w).0 ≡ ok r) ⊎ ((confirmation_result v plan_id w).0 ≡ ok r)
      → plan_shown r ≡ some p
      → (o : PublicOperation) → Memᴰ o p.operations
      → (fs : Fields) → o.receipt ≡ some (mapping fs)
      → get_field "attempt_token" fs ≡ none
  unfolding public_plan
  no_token_shown {p = p} h e o m fs q =
      let (now, found, same) : (now : ℕ) × (found : PlanRecord) × (public_plan now found ≡ p) =
        elim h [ inl h1 ↦ status_shows h1 e | inr h2 ↦ confirmation_result_shows h2 e ] in
      let (row, shown) = shown_operations found.operations (
        subst (λ (os : List PublicOperation). Memᴰ o os)
          (sym (ap (λ (x : PublicPlan). x.operations) same)) m) in
      token_dropped row.receipt_json fs (cc (q, shown))

-- A status query shows a plan as executing only while its lease runs, and never as a legacy unknown.
pub executing_shown_is_leased :
    (now : ℕ) (s : PlanStatus) (lease : Option ℕ)
    → ((shown_status now s lease).0 ≡ PlanStatus.executing → lease_available now lease ≡ false)
      × ((shown_status now s lease).0 ≢ PlanStatus.legacy_unknown)
unfolding shown_status
executing_shown_is_leased now s lease = ground arith

other_key :
    (k l : String) → str_eq k l ≡ false → (m : String) → str_eq k m ≡ true → str_eq l m ≡ false
other_key k l differ m same = elim (Bool-cases (str_eq l m)) [
  | inr no_match ↦ no_match
  | inl again ↦ ground (arith, str_eq_iff k l, str_eq_iff k m, str_eq_iff l m)
]

function_for-put {ℓ} :
    {A : Type ℓ} (kind : String) (a : A) (r : Registry A) (k : String)
    → function_for k (put kind a r) ≡ (if str_eq kind k then some a else function_for k r)
unfolding put function_for
function_for-put kind a [] k = refl
function_for-put kind a ((j, b) ∷ r) k = elim (Bool-cases (str_eq j kind)) [
  | inl same ↦ rw same (ground (arith, sym ((str_eq_iff j kind).0 same)))
  | inr other ↦ elim (Bool-cases (str_eq j k)) [
    | inl hit ↦ rw (other, hit, other_key j kind other k hit) refl
    | inr miss ↦ rw (other, miss) (function_for-put kind a r k)
  ]
]

-- What a registry finds for a kind is the function that was registered last for it: registering a
-- function for one kind replaces what is found for that kind and nothing else, and only the empty
-- kind is refused.
pub function_for-register {ℓ} :
    {A : Type ℓ} (kind : String) (a : A) (r : Registry A) {r' : Registry A}
    → register kind a r ≡ ok r'
    → (kind ≢ "")
      × ((k : String) → function_for k r' ≡ (if str_eq kind k then some a else function_for k r))
unfolding register
function_for-register {A = A} kind a r {r'} h = elim (Bool-cases (str_eq kind "")) [
  | inl blank ↦ absurd (cc (rw blank at h))
  | inr named ↦ (
    λ e. ground (arith, str_eq_iff kind "", e),
    λ k. rw (← registered named h) (function_for-put kind a r k),
  )
]
  where
    registered : str_eq kind "" ≡ false → register kind a r ≡ ok r' → put kind a r ≡ r'
    registered named e = ground arith
