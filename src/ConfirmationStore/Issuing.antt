-- ===== src/ConfirmationStore/Issuing.antt =====
-- What a confirmation that was issued is worth, and what a consumption proves.
use incubator_hugegraph_ai.Prelude.{
  ℕ, ◌+◌, ◌≤◌, ◌<◌, String, ◌≡◌, inl, inr, refl, Bool, false, ◌||◌, ◌&&◌, Option, none, some, List,
  [], ◌∷◌, ◌∙◌, arith, any, find, find-update, find-append, find-delete, find_satisfies, any-find,
  any_delete_false, find_mem, mem-delete, Memᴰ, update_where, updated, Bool-cases, Option-cases,
  str_eq, str_eq_iff, str_eq_refl, ok, ltb, leb,
}
use incubator_hugegraph_ai.WritePlan.Value.{Value}
use incubator_hugegraph_ai.ConfirmationStore.{
  ConfirmationDb, IssuedRow, default_plan_ttl_seconds, cleanup_expired, issue, consume,
  consume_cleaned, take_confirmation, check_issued, issued_for, consumed_for, upsert_issued,
  row_differs, load_payload, clashes, taken,
}
use incubator_hugegraph_ai.ConfirmationStore.SingleUse.{
  attempted, one_key, Consumption, refused, accepted, consumption,
}

abbrev replaceable : IssuedRow → IssuedRow → Bool
replaceable new r = issued_for new.nonce_digest r && str_eq r.plan_hash new.plan_hash

find_new : (new : IssuedRow) → find (issued_for new.nonce_digest) (new ∷ []) ≡ some new
find_new new = unfold find in rw (str_eq_refl new.nonce_digest)

find_replaced :
    (new r : IssuedRow) (rows : List IssuedRow)
    → find (issued_for new.nonce_digest) rows ≡ some r
    → find (issued_for new.nonce_digest) (update_where (replaceable new) (λ _. new) rows)
      ≡ some (updated (replaceable new) (λ _. new) r)
find_replaced new r rows e = rw (
  find-update (issued_for new.nonce_digest) (replaceable new) (λ _. new) rows
      (λ x. ground (arith, str_eq_refl new.nonce_digest)),
  e,
)

-- After the upsert the row of the nonce is the new one, or differs from it.
find-upsert :
    (new : IssuedRow) (rows : List IssuedRow)
    → row_differs (find (issued_for new.nonce_digest) (upsert_issued new rows)) new ≡ false
    → find (issued_for new.nonce_digest) (upsert_issued new rows) ≡ some new
unfolding upsert_issued
find-upsert new rows h =
    let p : IssuedRow → Bool = issued_for new.nonce_digest in
    elim (Option-cases (find p rows)) [
      | inl missing ↦
          rw (any-find p rows, missing, find-append p rows (new ∷ []), missing) (find_new new)
      | inr (r, found) ↦
          rw (any-find p rows, found)
            (rw (find_replaced new r rows found) (
              ground (
                arith,
                find_satisfies p rows found,
                rw (any-find p rows, found, find_replaced new r rows found) at h,
              )))
    ]

-- What `issue` leaves behind when it returns.
pub record IsIssued (now : ℕ) (new : IssuedRow) (db after : ConfirmationDb) : Type 0 where
  pub row : find (issued_for new.nonce_digest) after.issued ≡ some new
  pub later : now < new.expires_at
  pub bounded : new.expires_at ≤ now + default_plan_ttl_seconds
  pub consumed : after.consumed ≡ (cleanup_expired now db).consumed
  pub operations : after.operations ≡ db.operations

module _ (digest : String → String) (loads : String → Option Value) where
  abbrev pub new_row : ℕ → String → String → ℕ → Option String → IssuedRow
  new_row now nonce plan_hash expires_at text = record {
    nonce_digest = digest nonce;
    plan_hash = plan_hash;
    expires_at = expires_at;
    issued_at = now;
    plan_payload_json = text;
  }

  -- `issue` returns only for a lifetime between one second and the limit, and then the nonce's row
  -- is the new one.
  pub issue-IsIssued :
      (now : ℕ) (nonce plan_hash : String) (expires_at : ℕ) (text : Option String)
      (db : ConfirmationDb)
      → (issue digest loads now nonce plan_hash expires_at text db).0 ≡ ok tt
      → IsIssued now
          (new_row now nonce plan_hash expires_at text)
          db
          (issue digest loads now nonce plan_hash expires_at text db).1
  unfolding issue
  issue-IsIssued now nonce plan_hash e text db h =
      let new = new_row now nonce plan_hash e text in
      let cleaned = cleanup_expired now db in
      elim (Bool-cases (leb e now || ltb (now + default_plan_ttl_seconds) e)) [
        | inl bad ↦ absurd (cc (rw bad at h))
        | inr fine ↦
            elim (Bool-cases (
              row_differs (find (issued_for new.nonce_digest) (upsert_issued new cleaned.issued))
                new)) [
                  | inl differs ↦ absurd (cc (rw (fine, differs) at h))
                  | inr same ↦
                      rw (fine, same)
                        (record {
                          row = find-upsert new cleaned.issued same;
                          later = ground arith;
                          bounded = ground arith;
                          consumed = refl;
                          operations = unfold cleanup_expired in refl;
                        })
                ]
      ]

  issued_passes :
      (now now' : ℕ) (nonce plan_hash : String) (expires_at : ℕ) (text : Option String)
      → now' ≤ expires_at
      → expires_at ≤ now + default_plan_ttl_seconds
      → check_issued digest loads now' plan_hash expires_at
          (new_row now nonce plan_hash expires_at text)
        ≡ none
  unfolding check_issued
  issued_passes now now' nonce plan_hash e text h k = ground (arith, str_eq_refl plan_hash)

  consume_passing :
      (now : ℕ) (nonce plan_hash : String) (expires_at : ℕ) (r : IssuedRow) (db : ConfirmationDb)
      → any (consumed_for (digest nonce)) db.consumed ≡ false
      → find (issued_for (digest nonce)) db.issued ≡ some r
      → check_issued digest loads now plan_hash expires_at r ≡ none
      → attempted (one_key plan_hash (digest nonce)) db ≡ false
      → consume_cleaned digest loads now nonce plan_hash expires_at db
        ≡ load_payload loads r.plan_payload_json
            (taken digest loads now nonce plan_hash expires_at r db)
  unfolding consume_cleaned take_confirmation
  consume_passing now nonce plan_hash e r db u f c a = rw (u, f, c, a)

  -- A confirmation that was issued for a fresh nonce and plan hash can be consumed until it
  -- expires, and yields the payload that it was issued with.
  pub consume-issue :
      (now now' : ℕ) (nonce plan_hash : String) (expires_at : ℕ) (text : String) (payload : Value)
      (db : ConfirmationDb)
      → (issue digest loads now nonce plan_hash expires_at (some text) db).0 ≡ ok tt
      → now' ≤ expires_at
      → any (consumed_for (digest nonce)) db.consumed ≡ false
      → attempted (one_key plan_hash (digest nonce)) db ≡ false
      → loads text ≡ some payload
      → (consume digest loads now' nonce plan_hash expires_at
          (issue digest loads now nonce plan_hash expires_at (some text) db).1).0
        ≡ ok (some payload)
  unfolding consume cleanup_expired
  consume-issue now now' nonce plan_hash e text payload db h late unused fresh loaded =
      let new = new_row now nonce plan_hash e (some text) in
      let after = (issue digest loads now nonce plan_hash e (some text) db).1 in
      let issued = issue-IsIssued now nonce plan_hash e (some text) db h in
      rw
        (consume_passing now' nonce plan_hash e new (cleanup_expired now' after)
          (any_delete_false (consumed_for (digest nonce)) _ after.consumed (
            rw issued.consumed
              (any_delete_false (consumed_for (digest nonce)) _ db.consumed unused)))
          (find-delete (issued_for new.nonce_digest) _ after.issued issued.row (ground arith))
          (issued_passes now now' nonce plan_hash e (some text) late issued.bounded)
          (rw issued.operations fresh))
        (rw loaded)

  -- What a consumption that returned found.
  pub record IsJustified (now : ℕ) (nonce plan_hash : String) (expires_at : ℕ) (db : ConfirmationDb)
      : Type 0 where
    pub row : IssuedRow
    pub issued : Memᴰ row db.issued
    pub nonce_matches : row.nonce_digest ≡ digest nonce
    pub hash_matches : row.plan_hash ≡ plan_hash
    pub expiry_matches : row.expires_at ≡ expires_at
    pub in_time : now ≤ row.expires_at
    pub bounded : row.expires_at ≤ row.issued_at + default_plan_ttl_seconds
    pub payload_loads :
        (payload : Option Value)
        → (consume digest loads now nonce plan_hash expires_at db).0 ≡ ok payload
        → (load_payload loads row.plan_payload_json db).0 ≡ ok payload

  check_passes :
      (now : ℕ) (plan_hash : String) (expires_at : ℕ) (r : IssuedRow)
      → check_issued digest loads now plan_hash expires_at r ≡ none
      → (r.plan_hash ≡ plan_hash)
        × (r.expires_at ≡ expires_at)
        × (now ≤ r.expires_at)
        × (r.expires_at ≤ r.issued_at + default_plan_ttl_seconds)
  unfolding check_issued
  check_passes now plan_hash e r h =
      (ground (arith, str_eq_iff r.plan_hash plan_hash), ground arith, ground arith, ground arith)

  load_result :
      (text : Option String) (db db' : ConfirmationDb)
      → (load_payload loads text db).0 ≡ (load_payload loads text db').0
  load_result none db db' = refl
  load_result (some t) db db' = ground arith

  take_loads :
      (now : ℕ) (nonce plan_hash : String) (expires_at : ℕ) (r : IssuedRow)
      (db db' : ConfirmationDb) {payload : Option Value}
      → (take_confirmation digest loads now nonce plan_hash expires_at r db).0 ≡ ok payload
      → (load_payload loads r.plan_payload_json db').0 ≡ ok payload
  unfolding take_confirmation
  take_loads now nonce plan_hash e r db db' h =
      elim (Bool-cases (any (clashes plan_hash (digest nonce)) db.operations)) [
        | inl clash ↦ absurd (cc (rw clash at h))
        | inr free ↦
            load_result r.plan_payload_json db' (taken digest loads now nonce plan_hash e r db)
            ∙ (rw free at h)
      ]

  justify :
      (now : ℕ) (nonce plan_hash : String) (expires_at : ℕ) (db : ConfirmationDb)
      {payload : Option Value}
      → Consumption digest loads now nonce plan_hash expires_at (cleanup_expired now db)
      → (consume digest loads now nonce plan_hash expires_at db).0 ≡ ok payload
      → IsJustified now nonce plan_hash expires_at db
  unfolding consume cleanup_expired
  justify now nonce plan_hash e db (refused x eq) h = absurd (cc (rw eq at h))
  justify now nonce plan_hash e db (accepted r u f c eq) h =
      let (same_hash, same_expiry, in_time, bounded) = check_passes now plan_hash e r c in
      record {
        row = r;
        issued = mem-delete _ db.issued (find_mem (issued_for (digest nonce)) _ f);
        nonce_matches = (str_eq_iff r.nonce_digest (digest nonce)).0 (find_satisfies _ _ f);
        hash_matches = same_hash;
        expiry_matches = same_expiry;
        in_time = in_time;
        bounded = bounded;
        payload_loads =
            λ p k. take_loads now nonce plan_hash e r (cleanup_expired now db) db (rw eq at k);
      }

  -- A consumption returns only for a row that was issued for the nonce, with the same plan hash and
  -- expiry, not yet expired and within the limit of its issue, and returns that row's payload.
  pub consume-IsJustified :
      (now : ℕ) (nonce plan_hash : String) (expires_at : ℕ) (db : ConfirmationDb)
      {payload : Option Value}
      → (consume digest loads now nonce plan_hash expires_at db).0 ≡ ok payload
      → IsJustified now nonce plan_hash expires_at db
  consume-IsJustified now nonce plan_hash e db h =
      justify now nonce plan_hash e db
        (consumption digest loads now nonce plan_hash e (cleanup_expired now db)) h
