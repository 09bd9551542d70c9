-- ===== src/PlanHash.antt =====
-- hugegraph-mcp/hugegraph_mcp/plan_hash.py: plans that are bound to their target by a hash.
-- `hash` is the SHA-256 of the canonical JSON of a context, which hashlib and json give.
use incubator_hugegraph_ai.Prelude.{
  ℕ, ◌+◌, ◌≤◌, String, ◌≡◌, ◌↔◌, refl, subst, Bool, not, Option, none, some, arith, str_eq,
  str_eq_iff, str_eq_refl, ltb, if◌then◌else◌, Error, Result, ok, err,
}
use incubator_hugegraph_ai.Envelope.{ErrorType}
use incubator_hugegraph_ai.WritePlan.Value.{Fields, end}
use incubator_hugegraph_ai.Guard.{McpConfig, is_readonly}

pub record PlanContext : Type 0 where
  pub tool_name : String
  pub mode : String
  pub graph_url : String
  pub graph_name : String
  pub graphspace : String
  pub principal : String
  pub readonly : Bool
  pub payload_digest : String
  pub schema_hash : Option String
  pub nonce : String
  pub expires_at : ℕ
  pub extra_context : Fields

-- A submitted `expires_at`: a number whose `int` is given, one on which `int` raises `TypeError` or
-- `ValueError`, or an infinity, on which it raises `OverflowError`.
pub data Expiry : Type 0 where
  seconds : ℕ → Expiry
  malformed : Expiry
  infinite : Expiry

-- `_coerce_expires_at`
unfoldable pub coerce_expires_at : Option Expiry → Result (Option ℕ)
coerce_expires_at none = ok none
coerce_expires_at (some (seconds n)) = ok (some n)
coerce_expires_at (some malformed) = ok none
coerce_expires_at (some infinite) = err Error.overflow_error

-- `cfg.graphspace or "DEFAULT"`
abbrev pub graphspace_or_default : Option String → String
graphspace_or_default none = "DEFAULT"
graphspace_or_default (some g) = if str_eq g "" then "DEFAULT" else g

-- `extra_context or {}`
abbrev pub extra_or_empty : Option Fields → Fields
extra_or_empty none = end
extra_or_empty (some fs) = fs

-- What a caller says about the plan, at dry run and again at confirmation.
pub record PlanSubject : Type 0 where
  pub tool_name : String
  pub mode : String
  pub payload_digest : String
  pub schema_hash : Option String
  pub extra_context : Option Fields

-- the context of a plan under a configuration
unfoldable pub context_of : McpConfig → PlanSubject → String → ℕ → PlanContext
context_of cfg subject nonce expires_at = record {
  tool_name = subject.tool_name;
  mode = subject.mode;
  graph_url = cfg.url;
  graph_name = cfg.graph;
  graphspace = graphspace_or_default cfg.graphspace;
  principal = cfg.user;
  readonly = is_readonly cfg;
  payload_digest = subject.payload_digest;
  schema_hash = subject.schema_hash;
  nonce = nonce;
  expires_at = expires_at;
  extra_context = extra_or_empty subject.extra_context;
}

same_context :
    (cfg cfg' : McpConfig) (subject : PlanSubject) (m : String) (t : ℕ)
    → cfg'.url ≡ cfg.url
    → cfg'.graph ≡ cfg.graph
    → cfg'.graphspace ≡ cfg.graphspace
    → cfg'.user ≡ cfg.user
    → cfg'.readonly ≡ cfg.readonly
    → context_of cfg' subject m t ≡ context_of cfg subject m t
unfolding context_of
same_context cfg cfg' subject m t e1 e2 e3 e4 e5 = rw (e1, e2, e3, e4, e5) refl

abbrev given_or_fresh : Option String → String → String
given_or_fresh none fresh = fresh
given_or_fresh (some t) fresh = t

-- The answer of `verify_plan_hash`: valid, or the kind of the error and its reason.
pub data Verification : Type 0 where
  valid : Verification
  invalid : ErrorType → String → Verification

module _ (hash : PlanContext → String) where
  -- `build_plan_context`; `fresh` is what `_generate_nonce` would return
  unfoldable pub build_plan_context :
      McpConfig → ℕ → PlanSubject → Option String → String → ℕ → PlanContext × String
  build_plan_context cfg now subject nonce fresh ttl_seconds =
      let context = context_of cfg subject (given_or_fresh nonce fresh) (now + ttl_seconds) in
      (context, hash context)

  -- `verify_plan_hash` on an expiry that was coerced
  unfoldable pub verify_coerced :
      McpConfig → ℕ → String → PlanSubject → String → Option ℕ → Verification
  verify_coerced cfg now submitted subject nonce none =
      invalid ErrorType.plan_expired "Plan has expired. Run dry_run again."
  verify_coerced cfg now submitted subject nonce (some expires_at) =
      if ltb expires_at now
      then invalid ErrorType.plan_expired "Plan has expired. Run dry_run again."
      else if not (str_eq submitted (hash (context_of cfg subject nonce expires_at)))
      then invalid ErrorType.plan_hash_mismatch "Plan context has changed since dry_run."
      else valid

  -- `verify_plan_hash`
  unfoldable pub verify_plan_hash :
      McpConfig → ℕ → String → PlanSubject → Option String → Option Expiry → Result Verification
  unfolding coerce_expires_at verify_coerced
  verify_plan_hash cfg now submitted subject none expires_at =
      ok (invalid ErrorType.plan_hash_mismatch "Missing nonce in plan context.")
  verify_plan_hash cfg now submitted subject (some nonce) expires_at =
      elim (coerce_expires_at expires_at) [
        | err e ↦ err e
        | ok at ↦ ok (verify_coerced cfg now submitted subject nonce at)
      ]

  verified_forward :
      (cfg : McpConfig) (now : ℕ) (submitted : String) (subject : PlanSubject)
      (nonce : Option String) (expires_at : Option Expiry)
      → verify_plan_hash cfg now submitted subject nonce expires_at ≡ ok valid
      → (m : String) × (t : ℕ) × (nonce ≡ some m)
        × (expires_at ≡ some (seconds t))
        × (now ≤ t)
        × (submitted ≡ hash (context_of cfg subject m t))
  unfolding verify_plan_hash verify_coerced coerce_expires_at
  verified_forward cfg now submitted subject none e h = absurd (cc h)
  verified_forward cfg now submitted subject (some m) none h = absurd (cc h)
  verified_forward cfg now submitted subject (some m) (some malformed) h = absurd (cc h)
  verified_forward cfg now submitted subject (some m) (some infinite) h = absurd (cc h)
  verified_forward cfg now submitted subject (some m) (some (seconds t)) h = (
    m,
    t,
    refl,
    refl,
    ground arith,
    (str_eq_iff submitted (hash (context_of cfg subject m t))).0 (ground arith),
  )

  verified_back :
      (cfg : McpConfig) (now : ℕ) (subject : PlanSubject) (m : String) (t : ℕ)
      → now ≤ t
      → verify_plan_hash cfg now
          (hash (context_of cfg subject m t))
          subject
          (some m)
          (some (seconds t))
        ≡ ok valid
  unfolding verify_plan_hash verify_coerced coerce_expires_at
  verified_back cfg now subject m t h =
      ground (arith, str_eq_refl (hash (context_of cfg subject m t)))

  pub verified_by_context :
      (cfg : McpConfig) (now : ℕ) (submitted : String) (subject : PlanSubject)
      (nonce : Option String) (expires_at : Option Expiry)
      → (verify_plan_hash cfg now submitted subject nonce expires_at ≡ ok valid) ↔ (
          (m : String) × (t : ℕ) × (nonce ≡ some m)
          × (expires_at ≡ some (seconds t))
          × (now ≤ t)
          × (submitted ≡ hash (context_of cfg subject m t)))
  verified_by_context cfg now submitted subject given expires_at = (
    verified_forward cfg now submitted subject given expires_at,
    λ (m, t, e, f, l, g). rw (e, f, g) (verified_back cfg now subject m t l),
  )

  -- A submitted hash is valid exactly if the request names a nonce and a numeric expiry that is not
  -- over, and the hash is that of the context made of the request's tool, mode, payload digest,
  -- schema hash and extra context, of that nonce and that expiry, and of the URL, graph, graphspace,
  -- user and mode of writing in the server's current configuration.
  pub verified_iff :
      (cfg : McpConfig) (now : ℕ) (submitted : String) (subject : PlanSubject)
      (nonce : Option String) (expires_at : Option Expiry)
      → (verify_plan_hash cfg now submitted subject nonce expires_at ≡ ok valid) ↔ (
          (m : String) × (t : ℕ) × (nonce ≡ some m)
          × (expires_at ≡ some (seconds t))
          × (now ≤ t)
          × (submitted
              ≡ hash (record {
                tool_name = subject.tool_name;
                mode = subject.mode;
                graph_url = cfg.url;
                graph_name = cfg.graph;
                graphspace = graphspace_or_default cfg.graphspace;
                principal = cfg.user;
                readonly = is_readonly cfg;
                payload_digest = subject.payload_digest;
                schema_hash = subject.schema_hash;
                nonce = m;
                expires_at = t;
                extra_context = extra_or_empty subject.extra_context;
              })))
  unfolding context_of
  verified_iff cfg now submitted subject given expires_at =
      verified_by_context cfg now submitted subject given expires_at

  -- A plan that is built is valid as long as it lives, under every configuration that has the same
  -- target, principal and mode of writing.
  pub verify-build :
      (cfg cfg' : McpConfig) (now now' : ℕ) (subject : PlanSubject) (nonce : Option String)
      (fresh : String) (ttl_seconds : ℕ)
      → let (context, plan_hash) = build_plan_context cfg now subject nonce fresh ttl_seconds in
        cfg'.url ≡ cfg.url
        → cfg'.graph ≡ cfg.graph
        → cfg'.graphspace ≡ cfg.graphspace
        → cfg'.user ≡ cfg.user
        → cfg'.readonly ≡ cfg.readonly
        → now' ≤ context.expires_at
        → verify_plan_hash cfg' now' plan_hash subject
            (some context.nonce)
            (some (seconds context.expires_at))
          ≡ ok valid
  unfolding build_plan_context context_of
  verify-build cfg cfg' now now' subject given fresh ttl e1 e2 e3 e4 e5 l =
      let m = given_or_fresh given fresh in
      subst
        (λ (c : PlanContext).
          verify_plan_hash cfg' now' (hash c) subject (some m) (some (seconds (now + ttl)))
          ≡ ok valid)
        (same_context cfg cfg' subject m (now + ttl) e1 e2 e3 e4 e5)
        (verified_back cfg' now' subject m (now + ttl) l)
