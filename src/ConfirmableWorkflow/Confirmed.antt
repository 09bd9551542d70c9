-- ===== src/ConfirmableWorkflow/Confirmed.antt =====
-- What a confirmation that succeeds goes back to, and that it succeeds once.
use incubator_hugegraph_ai.Prelude.{
  ℕ, ◌≤◌, String, ◌≡◌, ◌≢◌, refl, sym, ap, ◌∙◌, subst, true, false, Option, none, some, List, any,
  arith, inr, Result, ok, err,
}
use incubator_hugegraph_ai.WritePlan.Value.{Value}
use incubator_hugegraph_ai.ConfirmationStore.{ConfirmationDb, consume, issue, consumed_for}
use incubator_hugegraph_ai.ConfirmationStore.SingleUse.{
  Call, perform_all, single_use, attempted, one_key,
}
use incubator_hugegraph_ai.ConfirmationStore.Issuing.{
  IsJustified, consume-IsJustified, consume-issue,
}
use incubator_hugegraph_ai.Guard.{McpConfig}
use incubator_hugegraph_ai.PlanHash.{
  PlanContext, PlanSubject, Expiry, seconds, Verification, valid, invalid, context_of,
  verify_plan_hash, verified_by_context, verify-build, build_plan_context,
}
use incubator_hugegraph_ai.ConfirmableWorkflow.{
  payload_of, issue_plan, nonce_or_empty, seconds_or_zero, consume_verified,
  verify_and_consume_issued_plan,
}

module _ (digest : String → String) (loads : String → Option Value)
    (hash : PlanContext → String) where
  -- What a confirmation that returned a payload found.
  pub record Confirmation (cfg : McpConfig) (now later : ℕ) (submitted : String)
      (subject : PlanSubject) (given : Option String) (expires_at : Option Expiry)
      (db after : ConfirmationDb) (payload : Option Value) : Type 0 where
    pub nonce : String
    pub expiry : ℕ
    pub given_nonce : given ≡ some nonce
    pub given_expiry : expires_at ≡ some (seconds expiry)
    pub writable : cfg.readonly ≡ false
    pub alive : now ≤ expiry
    pub bound : submitted ≡ hash (context_of cfg subject nonce expiry)
    pub justified : IsJustified digest loads later nonce submitted expiry db
    pub consumed : (consume digest loads later nonce submitted expiry db).0 ≡ ok payload
    pub left : after ≡ (consume digest loads later nonce submitted expiry db).1

  consumed_ok :
      (cfg : McpConfig) (later : ℕ) (submitted : String) (given : Option String)
      (expires_at : Option Expiry) (v : Result Verification) (db : ConfirmationDb)
      {payload : Option Value}
      → (consume_verified digest loads hash cfg later submitted given expires_at v db).0
        ≡ ok (payload_of payload)
      → (v ≡ ok valid)
        × (cfg.readonly ≡ false)
        × ((consume digest loads later
              (nonce_or_empty given)
              submitted
              (seconds_or_zero expires_at)
              db).0
            ≡ ok payload)
        × ((consume_verified digest loads hash cfg later submitted given expires_at v db).1
            ≡ (consume digest loads later
                (nonce_or_empty given)
                submitted
                (seconds_or_zero expires_at)
                db).1)
  unfolding consume_verified
  consumed_ok cfg later submitted given expires_at (err e) db h = absurd (cc h)
  consumed_ok cfg later submitted given expires_at (ok (invalid t reason)) db h = absurd (cc h)
  consumed_ok cfg later submitted given expires_at (ok valid) db h = ground arith

  -- A confirmation that returns a payload names a nonce and an unexpired expiry, and a hash that
  -- binds them to the current target and the request's subject, on a server that is not read-only;
  -- it consumed a row that was issued for that nonce, hash and expiry, and returns its payload.
  pub confirmed_is_issued :
      (cfg : McpConfig) (now later : ℕ) (submitted : String) (subject : PlanSubject)
      (given : Option String) (expires_at : Option Expiry) (db : ConfirmationDb)
      {payload : Option Value}
      → (verify_and_consume_issued_plan digest loads hash cfg now later submitted subject given
          expires_at db).0
        ≡ ok (payload_of payload)
      → Confirmation cfg now later submitted subject given expires_at db
          (verify_and_consume_issued_plan digest loads hash cfg now later submitted subject given
            expires_at db).1
          payload
  unfolding verify_and_consume_issued_plan
  confirmed_is_issued cfg now later submitted subject given expires_at db {payload} h =
      let (checked, writable, c, stored) =
        consumed_ok cfg later submitted given expires_at
          (verify_plan_hash hash cfg now submitted subject given expires_at) db h in
      let (m, t, e, f, l, g) =
        (verified_by_context hash cfg now submitted subject given expires_at).0 checked in
      record {
        nonce = m;
        expiry = t;
        given_nonce = e;
        given_expiry = f;
        writable = writable;
        alive = l;
        bound = g;
        justified = consume-IsJustified digest loads later m submitted t db (named m t e f c);
        consumed = named m t e f c;
        left =
            stored
            ∙ ap
                (λ (x : Option String × Option Expiry).
                  (consume digest loads later (nonce_or_empty x.0) submitted (seconds_or_zero x.1)
                    db).1)
                (pair e f);
      }
    where
      pair :
          {m : String} {t : ℕ}
          → given ≡ some m
          → expires_at ≡ some (seconds t)
          → ◌≡◌ {A = Option String × Option Expiry} (given, expires_at) (some m, some (seconds t))
      pair e f = cc

      named :
          (m : String) (t : ℕ)
          → given ≡ some m
          → expires_at ≡ some (seconds t)
          → (consume digest loads later
              (nonce_or_empty given)
              submitted
              (seconds_or_zero expires_at)
              db).0
            ≡ ok payload
          → (consume digest loads later m submitted t db).0 ≡ ok payload
      named m t e f c =
          sym (
            ap
              (λ (x : Option String × Option Expiry).
                (consume digest loads later (nonce_or_empty x.0) submitted (seconds_or_zero x.1)
                  db).0)
              (pair e f))
          ∙ c

  -- A read-only server confirms nothing and leaves the store as it was.
  pub readonly_consumes_nothing :
      (cfg : McpConfig) (now later : ℕ) (submitted : String) (subject : PlanSubject)
      (given : Option String) (expires_at : Option Expiry) (db : ConfirmationDb)
      → cfg.readonly ≡ true
      → ((verify_and_consume_issued_plan digest loads hash cfg now later submitted subject given
            expires_at db).1
          ≡ db)
        × ((payload : Option Value)
            → (verify_and_consume_issued_plan digest loads hash cfg now later submitted subject
                given expires_at db).0
              ≢ ok (payload_of payload))
  unfolding verify_and_consume_issued_plan consume_verified
  readonly_consumes_nothing cfg now later submitted subject given expires_at db r = ground arith

  -- A plan hash is confirmed once: whatever is issued, consumed, recorded or cleaned up after a
  -- confirmation that returned a payload, and whatever a second confirmation of the same hash
  -- brings, under every configuration, the second returns none.
  pub confirmed_once :
      (cfg : McpConfig) (now later : ℕ) (submitted : String) (subject : PlanSubject)
      (given : Option String) (expires_at : Option Expiry) (db : ConfirmationDb)
      {payload : Option Value}
      → (verify_and_consume_issued_plan digest loads hash cfg now later submitted subject given
          expires_at db).0
        ≡ ok (payload_of payload)
      → (cs : List Call) (cfg' : McpConfig) (now' later' : ℕ) (subject' : PlanSubject)
        (given' : Option String) (expires_at' : Option Expiry) (payload' : Option Value)
      → (verify_and_consume_issued_plan digest loads hash cfg' now' later' submitted subject' given'
          expires_at'
          (perform_all digest loads cs
            (verify_and_consume_issued_plan digest loads hash cfg now later submitted subject given
              expires_at db).1)).0
        ≢ ok (payload_of payload')
  confirmed_once cfg now later submitted subject given e db h cs cfg' now' later' subject' given' e'
        p' again =
      let first = confirmed_is_issued cfg now later submitted subject given e db h in
      let then_store =
        perform_all digest loads cs
          (verify_and_consume_issued_plan digest loads hash cfg now later submitted subject given e
            db).1 in
      let second =
        confirmed_is_issued cfg' now' later' submitted subject' given' e' then_store again in
      single_use digest loads later first.nonce submitted first.expiry db first.consumed cs later'
        second.nonce submitted second.expiry (inr refl) p'
        (subst
          (λ (s : ConfirmationDb).
            (consume digest loads later' second.nonce submitted second.expiry
              (perform_all digest loads cs s)).0
            ≡ ok p')
          first.left second.consumed)

  -- A plan that is built and issued for a fresh nonce and plan hash is confirmed, as long as it
  -- lives, on a server that is not read-only and has the same target and principal, and yields the
  -- payload that it was issued with.
  pub confirm-issue :
      (cfg cfg' : McpConfig) (now issued_at now' later : ℕ) (subject : PlanSubject)
      (given : Option String) (fresh : String) (ttl_seconds : ℕ) (text : String) (payload : Value)
      (db : ConfirmationDb)
      → let (context, plan_hash) =
          build_plan_context hash cfg now subject given fresh ttl_seconds in
        (issue_plan digest loads issued_at context plan_hash (some text) db).0 ≡ ok none
        → any (consumed_for (digest context.nonce)) db.consumed ≡ false
        → attempted (one_key plan_hash (digest context.nonce)) db ≡ false
        → loads text ≡ some payload
        → cfg'.url ≡ cfg.url
        → cfg'.graph ≡ cfg.graph
        → cfg'.graphspace ≡ cfg.graphspace
        → cfg'.user ≡ cfg.user
        → cfg'.readonly ≡ cfg.readonly
        → cfg'.readonly ≡ false
        → now' ≤ context.expires_at
        → later ≤ context.expires_at
        → (verify_and_consume_issued_plan digest loads hash cfg' now' later plan_hash subject
            (some context.nonce)
            (some (seconds context.expires_at))
            (issue_plan digest loads issued_at context plan_hash (some text) db).1).0
          ≡ ok (payload_of (some payload))
  unfolding verify_and_consume_issued_plan consume_verified issue_plan
  confirm-issue cfg cfg' now issued_at now' later subject given fresh ttl text payload db h unused
        free loaded e1 e2 e3 e4 e5 writable alive in_time =
      let (context, plan_hash) = build_plan_context hash cfg now subject given fresh ttl in
      let valid_now =
        verify-build hash cfg cfg' now now' subject given fresh ttl e1 e2 e3 e4 e5 alive in
      let issued : (issue digest loads issued_at context.nonce plan_hash context.expires_at
            (some text) db).0
          ≡ ok tt =
        ground arith in
      let taken =
        consume-issue digest loads issued_at later context.nonce plan_hash context.expires_at text
          payload db issued in_time unused free loaded in
      ground arith
