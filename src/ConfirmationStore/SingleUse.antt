-- ===== src/ConfirmationStore/SingleUse.antt =====
-- A nonce, and a plan hash, authorises at most one write attempt.
use incubator_hugegraph_ai.Prelude.{
  ℕ, String, ◌≡◌, ◌≢◌, ◌⊎◌, inl, inr, refl, Bool, true, false, ◌||◌, ◌&&◌, not, Option, none, some,
  List, [], ◌∷◌, arith, any, find, count_where, ◌==◌, any-update, any-append, Bool-cases,
  Option-cases, str_eq, str_eq_refl, any_mono, Error, ok, err,
}
use incubator_hugegraph_ai.WritePlan.Status.{PlanStatus}
use incubator_hugegraph_ai.WritePlan.Value.{Value}
use incubator_hugegraph_ai.ConfirmationStore.{
  ConfirmationDb, OperationRow, IssuedRow, cleanup_expired, issue, consume, consume_cleaned,
  take_confirmation, record_outcome, load_payload, consumed_for, issued_for, taken, attempt_row,
  check_issued,
}

-- Some recorded attempt passes a test of its two keys, the plan hash and the nonce digest.
abbrev pub attempted : (String → String → Bool) → ConfirmationDb → Bool
attempted t db = any (λ (r : OperationRow). t r.plan_hash r.nonce_digest) db.operations

abbrev pub one_key : String → String → String → String → Bool
one_key h d a b = str_eq a h || str_eq b d

abbrev both_keys : String → String → String → String → Bool
both_keys h d a b = str_eq a h && str_eq b d

shares :
    (h d h' d' a b : String)
    → (d ≡ d') ⊎ (h ≡ h')
    → both_keys h d a b ≡ true
    → one_key h' d' a b ≡ true
shares h d h' d' a b (inl e) k = rw (← e) (ground arith)
shares h d h' d' a b (inr e) k = rw (← e) (ground arith)

-- A call of a method that writes.
pub data Call : Type 0 where
  issue_call : ℕ → String → String → ℕ → Option String → Call
  consume_call : ℕ → String → String → ℕ → Call
  outcome_call : ℕ → String → PlanStatus → String → Call

module _ (digest : String → String) (loads : String → Option Value) where
  unfoldable pub perform : Call → ConfirmationDb → ConfirmationDb
  perform (issue_call now nonce plan_hash expires_at payload) db =
      (issue digest loads now nonce plan_hash expires_at payload db).1
  perform (consume_call now nonce plan_hash expires_at) db =
      (consume digest loads now nonce plan_hash expires_at db).1
  perform (outcome_call now plan_hash status receipt) db =
      (record_outcome now plan_hash status receipt db).1

  unfoldable pub perform_all : List Call → ConfirmationDb → ConfirmationDb
  unfolding perform
  perform_all [] db = db
  perform_all (c ∷ cs) db = perform_all cs (perform c db)

  load_keeps : (text : Option String) (db : ConfirmationDb) → (load_payload loads text db).1 ≡ db
  load_keeps none db = refl
  load_keeps (some t) db = ground arith

  attempted-taken :
      (t : String → String → Bool) (now : ℕ) (nonce plan_hash : String) (expires_at : ℕ)
      (r : IssuedRow) (db : ConfirmationDb)
      → attempted t (taken digest loads now nonce plan_hash expires_at r db)
        ≡ (attempted t db || t plan_hash (digest nonce))
  unfolding taken
  attempted-taken t now nonce plan_hash e r db =
      rw
        (any-append (λ (r : OperationRow). t r.plan_hash r.nonce_digest) db.operations
          (attempt_row digest loads now nonce plan_hash r ∷ []))
        (unfold any in ground arith)

  take_effect :
      (t : String → String → Bool) (now : ℕ) (nonce plan_hash : String) (expires_at : ℕ)
      (r : IssuedRow) (db : ConfirmationDb)
      → attempted t (take_confirmation digest loads now nonce plan_hash expires_at r db).1 ≡ (
          attempted t db
          || (not (attempted (one_key plan_hash (digest nonce)) db) && t plan_hash (digest nonce)))
  unfolding take_confirmation
  take_effect t now nonce plan_hash e r db =
      elim (Bool-cases (attempted (one_key plan_hash (digest nonce)) db)) [
        | inl clash ↦ rw clash (ground arith)
        | inr free ↦
            rw (free, load_keeps r.plan_payload_json) (attempted-taken t now nonce plan_hash e r db)
      ]

  -- `consume` refuses and changes nothing, or takes a confirmation that passed the checks.
  pub data Consumption (now : ℕ) (nonce plan_hash : String) (expires_at : ℕ) (db : ConfirmationDb)
      : Type 0 where
    refused :
        (e : Error)
        → consume_cleaned digest loads now nonce plan_hash expires_at db ≡ (err e, db)
        → Consumption now nonce plan_hash expires_at db
    accepted :
        (r : IssuedRow)
        → any (consumed_for (digest nonce)) db.consumed ≡ false
        → find (issued_for (digest nonce)) db.issued ≡ some r
        → check_issued digest loads now plan_hash expires_at r ≡ none
        → consume_cleaned digest loads now nonce plan_hash expires_at db
          ≡ take_confirmation digest loads now nonce plan_hash expires_at r db
        → Consumption now nonce plan_hash expires_at db

  pub consumption :
      (now : ℕ) (nonce plan_hash : String) (expires_at : ℕ) (db : ConfirmationDb)
      → Consumption now nonce plan_hash expires_at db
  unfolding consume_cleaned
  consumption now nonce plan_hash e db =
      elim (Bool-cases (any (consumed_for (digest nonce)) db.consumed)) [
        | inl used ↦ refused Error.confirmation_already_used_error (rw used)
        | inr unused ↦ elim (Option-cases (find (issued_for (digest nonce)) db.issued)) [
          | inl missing ↦ refused Error.confirmation_not_issued_error (rw (unused, missing))
          | inr (r, found) ↦ elim (Option-cases (check_issued digest loads now plan_hash e r)) [
            | inl passed ↦ accepted r unused found passed (rw (unused, found, passed))
            | inr (x, failed) ↦ refused x (rw (unused, found, failed))
          ]
        ]
      ]

  attempted-cleanup :
      (t : String → String → Bool) (now : ℕ) (db : ConfirmationDb)
      → attempted t (cleanup_expired now db) ≡ attempted t db
  unfolding cleanup_expired
  attempted-cleanup t now db = refl

  cleaned_keeps :
      (t : String → String → Bool) (now : ℕ) (nonce plan_hash : String) (expires_at : ℕ)
      (db : ConfirmationDb)
      → Consumption now nonce plan_hash expires_at db
      → attempted t db ≡ true
      → attempted t (consume_cleaned digest loads now nonce plan_hash expires_at db).1 ≡ true
  cleaned_keeps t now nonce plan_hash e db (refused x eq) a = rw eq a
  cleaned_keeps t now nonce plan_hash e db (accepted r u f c eq) a =
      rw (eq, take_effect t now nonce plan_hash e r db, a)

  consume_keeps :
      (t : String → String → Bool) (now : ℕ) (nonce plan_hash : String) (expires_at : ℕ)
      (db : ConfirmationDb)
      → attempted t db ≡ true
      → attempted t (consume digest loads now nonce plan_hash expires_at db).1 ≡ true
  unfolding consume
  consume_keeps t now nonce plan_hash e db a =
      let cleaned = cleanup_expired now db in
      cleaned_keeps t now nonce plan_hash e cleaned (consumption now nonce plan_hash e cleaned)
        (rw (attempted-cleanup t now db) a)

  issue_keeps :
      (t : String → String → Bool) (now : ℕ) (nonce plan_hash : String) (expires_at : ℕ)
      (text : Option String) (db : ConfirmationDb)
      → attempted t (issue digest loads now nonce plan_hash expires_at text db).1 ≡ attempted t db
  unfolding issue cleanup_expired
  issue_keeps t now nonce plan_hash e text db = ground arith

  outcome_keeps :
      (t : String → String → Bool) (now : ℕ) (plan_hash : String) (status : PlanStatus)
      (text : String) (db : ConfirmationDb)
      → attempted t (record_outcome now plan_hash status text db).1 ≡ attempted t db
  unfolding record_outcome
  outcome_keeps t now plan_hash status text db =
      let matches : OperationRow → Bool = λ r. str_eq r.plan_hash plan_hash in
      elim (Bool-cases (count_where matches db.operations == 1)) [
        | inl one ↦ rw one (
            any-update (λ (r : OperationRow). t r.plan_hash r.nonce_digest) matches _ db.operations
              (λ r. ground arith))
        | inr other ↦ rw other
      ]

  perform_keeps :
      (t : String → String → Bool) (c : Call) (db : ConfirmationDb)
      → attempted t db ≡ true
      → attempted t (perform c db) ≡ true
  unfolding perform
  perform_keeps t (issue_call now nonce plan_hash e text) db a =
      rw (issue_keeps t now nonce plan_hash e text db) a
  perform_keeps t (consume_call now nonce plan_hash e) db a =
      consume_keeps t now nonce plan_hash e db a
  perform_keeps t (outcome_call now plan_hash status text) db a =
      rw (outcome_keeps t now plan_hash status text db) a

  perform_all_keeps :
      (t : String → String → Bool) (cs : List Call) (db : ConfirmationDb)
      → attempted t db ≡ true
      → attempted t (perform_all cs db) ≡ true
  unfolding perform_all
  perform_all_keeps t [] db a = a
  perform_all_keeps t (c ∷ cs) db a = perform_all_keeps t cs (perform c db) (perform_keeps t c db a)

  take_fresh :
      (now : ℕ) (nonce plan_hash : String) (expires_at : ℕ) (r : IssuedRow) (db : ConfirmationDb)
      {payload : Option Value}
      → (take_confirmation digest loads now nonce plan_hash expires_at r db).0 ≡ ok payload
      → attempted (one_key plan_hash (digest nonce)) db ≡ false
  unfolding take_confirmation
  take_fresh now nonce plan_hash e r db h =
      elim (Bool-cases (attempted (one_key plan_hash (digest nonce)) db)) [
        | inl clash ↦ absurd (cc (rw clash at h))
        | inr free ↦ free
      ]

  -- A consumption that returns has recorded its attempt.
  cleaned_records :
      (now : ℕ) (nonce plan_hash : String) (expires_at : ℕ) (db : ConfirmationDb)
      {payload : Option Value}
      → Consumption now nonce plan_hash expires_at db
      → (consume_cleaned digest loads now nonce plan_hash expires_at db).0 ≡ ok payload
      → (attempted (one_key plan_hash (digest nonce)) db ≡ false)
        × (attempted
              (both_keys plan_hash (digest nonce))
              (consume_cleaned digest loads now nonce plan_hash expires_at db).1
            ≡ true)
  cleaned_records now nonce plan_hash e db (refused x eq) h = absurd (ground (arith, eq))
  cleaned_records now nonce plan_hash e db (accepted r u f c eq) h =
      let fresh = take_fresh now nonce plan_hash e r db (rw eq at h) in
      (
        fresh,
        rw
            (
              eq,
              take_effect (both_keys plan_hash (digest nonce)) now nonce plan_hash e r db,
              fresh,
              str_eq_refl plan_hash,
              str_eq_refl (digest nonce),
            )
            (ground arith),
      )

  pub consume_records :
      (now : ℕ) (nonce plan_hash : String) (expires_at : ℕ) (db : ConfirmationDb)
      {payload : Option Value}
      → (consume digest loads now nonce plan_hash expires_at db).0 ≡ ok payload
      → (attempted (one_key plan_hash (digest nonce)) db ≡ false)
        × (attempted
              (both_keys plan_hash (digest nonce))
              (consume digest loads now nonce plan_hash expires_at db).1
            ≡ true)
  unfolding consume
  consume_records now nonce plan_hash e db h =
      let cleaned = cleanup_expired now db in
      let (fresh, recorded) =
        cleaned_records now nonce plan_hash e cleaned (consumption now nonce plan_hash e cleaned)
          h in
      (rw (← attempted-cleanup (one_key plan_hash (digest nonce)) now db) fresh, recorded)

  -- Once a confirmation has been consumed, no later call of `consume` with the same nonce digest or
  -- the same plan hash returns, whatever was issued, consumed, recorded or cleaned up in between.
  pub single_use :
      (now : ℕ) (nonce plan_hash : String) (expires_at : ℕ) (db : ConfirmationDb)
      {payload : Option Value}
      → (consume digest loads now nonce plan_hash expires_at db).0 ≡ ok payload
      → (cs : List Call) (now' : ℕ) (nonce' plan_hash' : String) (expires_at' : ℕ)
      → (digest nonce ≡ digest nonce') ⊎ (plan_hash ≡ plan_hash')
      → (payload' : Option Value)
      → (consume digest loads now' nonce' plan_hash' expires_at'
          (perform_all cs (consume digest loads now nonce plan_hash expires_at db).1)).0
        ≢ ok payload'
  single_use now nonce plan_hash e db h cs now' nonce' plan_hash' e' same p' again =
      let later = perform_all cs (consume digest loads now nonce plan_hash e db).1 in
      let kept =
        perform_all_keeps (both_keys plan_hash (digest nonce)) cs _
          (consume_records now nonce plan_hash e db h).1 in
      let fresh = (consume_records now' nonce' plan_hash' e' later again).0 in
      let clash =
        any_mono
          (λ (r : OperationRow). both_keys plan_hash (digest nonce) r.plan_hash r.nonce_digest)
          (λ (r : OperationRow). one_key plan_hash' (digest nonce') r.plan_hash r.nonce_digest)
          later.operations
          (λ r k.
            shares plan_hash (digest nonce) plan_hash' (digest nonce') r.plan_hash r.nonce_digest
              same k)
          kept in
      cc (fresh, clash)
