-- ===== src/Execution/World.antt =====
-- The world around a plan store while a plan is executed or reconciled: what the clock and `uuid4`
-- return next, and the calls of adapters made so far. A clock is a sequence of readings, and so are
-- the fresh tokens; they are what `time.time()` and `uuid.uuid4().hex` return, one after the other.
use incubator_hugegraph_ai.Prelude.{
  ℕ, suc, String, Option, none, some, List, Error, Result, ok, err, Outcome,
}
use incubator_hugegraph_ai.WritePlan.Value.{Value, Values}
use incubator_hugegraph_ai.PlanStore.Rows.{Store}

-- One request sent to the graph server for an operation.
pub record Dispatch : Type 0 where
  pub operation_id : String
  pub attempt : ℕ

pub record World : Type 0 where
  pub store : Store
  pub readings : ℕ
  pub draws : ℕ
  pub dispatched : List Dispatch

-- The services that the process has: `json.loads`, the order of thawed sets, clock and tokens.
pub record Services : Type 0 where
  pub loads : String → Option Value
  pub sort : Values → Values
  pub clock : ℕ → ℕ
  pub uuid : ℕ → String

abbrev pub Action : Type 0 → Type 0
Action A = World → Outcome World A

abbrev pub pure : {A : Type 0} → A → Action A
pure a w = (ok a, w)

abbrev pub raise : {A : Type 0} → Error → Action A
raise e w = (err e, w)

abbrev pub continue : {A B : Type 0} → Result A → World → (A → Action B) → Outcome World B
continue (ok a) w f = f a w
continue (err e) w f = (err e, w)

infixl 5 ◌>>◌ ◌>>=◌
abbrev pub ◌>>=◌ : {V W : Type 0} → (first : Action V) → (rest : V → Action W) → Action W
◌>>=◌ first rest w = let (r, w') = first w in continue r w' rest

abbrev pub ◌>>◌ : {V W : Type 0} → (first : Action V) → (rest : Action W) → Action W
◌>>◌ first rest w = let (r, w') = first w in continue r w' (λ _. rest)

-- `except PlanTransitionError`: none where it was raised; other exceptions go on
abbrev pub caught : {A : Type 0} → Result A → World → Outcome World (Option A)
caught (ok a) w = (ok (some a), w)
caught (err (Error.plan_transition_error m)) w = (ok none, w)
caught (err e) w = (err e, w)

abbrev pub try_transition : {A : Type 0} → Action A → Action (Option A)
try_transition m w = let (r, w') = m w in caught r w'

module _ (v : Services) where
  -- a method of the store that reads no clock
  abbrev pub query : {A : Type 0} → (Store → Outcome Store A) → Action A
  query m w = let (r, s) = m w.store in (r, record w { store = s })

  -- a method of the store that reads the clock once; a method that raises before it comes to
  -- that is charged the reading too
  abbrev pub call : {A : Type 0} → (ℕ → Store → Outcome Store A) → Action A
  call m w =
      let (r, s) = m (v.clock w.readings) w.store in
      (r, record w { store = s; readings = suc w.readings })

  -- `int(time.time())`
  abbrev pub read_clock : Action ℕ
  read_clock w = (ok (v.clock w.readings), record w { readings = suc w.readings })

  -- `uuid.uuid4().hex`
  abbrev pub draw_token : Action String
  draw_token w = (ok (v.uuid w.draws), record w { draws = suc w.draws })
