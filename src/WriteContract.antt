-- ===== src/WriteContract.antt =====
-- hugegraph-mcp/hugegraph_mcp/write_contract.py: which confirmation protocol a request uses.
-- An expiry is the number of seconds that the request gives.
use incubator_hugegraph_ai.Prelude.{
  ℕ, String, ◌≡◌, ◌↔◌, ◌⊎◌, ◌≢◌, Bool, true, false, ◌&&◌, ◌||◌, not, Option, none, some, List, [],
  ◌∷◌, arith, str_eq, if◌then◌else◌, is_some, refl, sym, ap, ◌∙◌, inl, inr, str_eq_iff, str_eq_refl,
  Bool-cases,
}

pub data ConfirmationProtocol : Type 0 where
  canonical legacy : ConfirmationProtocol

pub record ConfirmationResolution : Type 0 where
  pub protocol : ConfirmationProtocol
  pub plan_id : Option String
  pub plan_hash : Option String
  pub nonce : Option String
  pub expires_at : Option ℕ
  pub warnings : List String

-- `bool(plan_id)`
abbrev pub is_present : Option String → Bool
is_present none = false
is_present (some t) = not (str_eq t "")

-- the resolution, or the reason of `_protocol_error`
pub data Resolved : Type 0 where
  resolved : ConfirmationResolution → Resolved
  protocol_error : String → Resolved

abbrev pub some_legacy : Option String → Option String → Option ℕ → Bool
some_legacy h n e = is_some h || is_some n || is_some e

abbrev pub all_legacy : Option String → Option String → Option ℕ → Bool
all_legacy h n e = is_some h && is_some n && is_some e

abbrev pub canonical_resolution : Option String → ConfirmationResolution
canonical_resolution plan_id = record {
  protocol = ConfirmationProtocol.canonical;
  plan_id = plan_id;
  plan_hash = none;
  nonce = none;
  expires_at = none;
  warnings = [];
}

abbrev pub legacy_resolution : Option String → Option String → Option ℕ → ConfirmationResolution
legacy_resolution plan_hash nonce expires_at = record {
  protocol = ConfirmationProtocol.legacy;
  plan_id = none;
  plan_hash = plan_hash;
  nonce = nonce;
  expires_at = expires_at;
  warnings =
      "LEGACY_CONFIRMATION_DEPRECATED: use plan_id with confirm_write_tool; legacy confirmation fields will be removed after one release."
      ∷ [];
}

-- `resolve_confirmation_protocol`
unfoldable pub resolve_confirmation_protocol :
    Option String → Option String → Option String → Option ℕ → Resolved
resolve_confirmation_protocol plan_id plan_hash nonce expires_at =
    if is_present plan_id && some_legacy plan_hash nonce expires_at
    then protocol_error "plan_id cannot be combined with plan_hash, nonce, or expires_at."
    else if is_present plan_id
    then resolved (canonical_resolution plan_id)
    else if some_legacy plan_hash nonce expires_at && not (all_legacy plan_hash nonce expires_at)
    then protocol_error "plan_hash, nonce, and expires_at must be supplied together."
    else if all_legacy plan_hash nonce expires_at
    then resolved (legacy_resolution plan_hash nonce expires_at)
    else protocol_error "A plan_id or complete legacy locator is required."

-- `resolve_optional_legacy_locator`: none where the request gives no locator at all
unfoldable pub resolve_optional_legacy_locator :
    Option String → Option String → Option ℕ → Option Resolved
resolve_optional_legacy_locator plan_hash nonce expires_at =
    if some_legacy plan_hash nonce expires_at
    then some (resolve_confirmation_protocol none plan_hash nonce expires_at)
    else none

-- The tests of the resolution, one by one.
present : (o : Option String) → is_present o ≡ true → (t : String) × (o ≡ some t) × (t ≢ "")
present none h = absurd (ground arith)
present (some t) h = (t, refl, λ e. ground (arith, str_eq_iff t ""))

present_some : (t : String) → t ≢ "" → is_present (some t) ≡ true
present_some t named = elim (Bool-cases (str_eq t "")) [
  | inl blank ↦ absurd (named ((str_eq_iff t "").0 blank))
  | inr other ↦ rw other refl
]

absent : (o : Option String) → is_present o ≡ false → (o ≡ none) ⊎ (o ≡ some "")
absent none h = inl refl
absent (some t) h = inr (ap some ((str_eq_iff t "").0 (ground arith)))

absent_blank : (o : Option String) → (o ≡ none) ⊎ (o ≡ some "") → is_present o ≡ false
absent_blank o (inl e) = rw e refl
absent_blank o (inr e) = rw (e, str_eq_refl "") refl

no_legacy :
    (h n : Option String) (e : Option ℕ)
    → some_legacy h n e ≡ false
    → (h ≡ none) × (n ≡ none) × (e ≡ none)
no_legacy none none none q = (refl, refl, refl)
no_legacy (some h) n e q = absurd (ground arith)
no_legacy none (some n) e q = absurd (ground arith)
no_legacy none none (some e) q = absurd (ground arith)

whole_legacy :
    (h n : Option String) (e : Option ℕ)
    → all_legacy h n e ≡ true
    → (t : String) × (u : String) × (k : ℕ) × (h ≡ some t) × (n ≡ some u) × (e ≡ some k)
whole_legacy (some h) (some n) (some e) q = (h, n, e, refl, refl, refl)
whole_legacy none n e q = absurd (ground arith)
whole_legacy (some h) none e q = absurd (ground arith)
whole_legacy (some h) (some n) none q = absurd (ground arith)

legacy_same :
    {h n : Option String} {e : Option ℕ} {h' n' : Option String} {e' : Option ℕ}
    → h ≡ h'
    → n ≡ n'
    → e ≡ e'
    → legacy_resolution h n e ≡ legacy_resolution h' n' e'
legacy_same p q r = rw (p, q, r) refl

-- The resolution by its tests.
resolved_by_tests :
    (plan_id plan_hash nonce : Option String) (expires_at : Option ℕ) (r : ConfirmationResolution)
    → (resolve_confirmation_protocol plan_id plan_hash nonce expires_at ≡ resolved r) ↔ (
        ((is_present plan_id ≡ true)
          × (some_legacy plan_hash nonce expires_at ≡ false)
          × (r ≡ canonical_resolution plan_id))
        ⊎ ((is_present plan_id ≡ false)
            × (all_legacy plan_hash nonce expires_at ≡ true)
            × (r ≡ legacy_resolution plan_hash nonce expires_at)))
unfolding resolve_confirmation_protocol
resolved_by_tests plan_id plan_hash given expires_at r = ground arith

-- the text with which a client is told that the legacy fields go away
abbrev pub deprecation : String
deprecation =
    "LEGACY_CONFIRMATION_DEPRECATED: use plan_id with confirm_write_tool; legacy confirmation fields will be removed after one release."

-- A request is resolved exactly in two cases. Either it gives a plan id that is not empty and no
-- other field, and is then canonical with that plan id, no legacy value and no warning. Or it gives
-- no plan id, or an empty one, and a hash, a nonce and an expiry, and is then legacy with just
-- these three values, no plan id and the deprecation warning.
pub resolved_iff :
    (plan_id plan_hash nonce : Option String) (expires_at : Option ℕ) (r : ConfirmationResolution)
    → (resolve_confirmation_protocol plan_id plan_hash nonce expires_at ≡ resolved r) ↔ (
        ((t : String) × (plan_id ≡ some t)
          × (t ≢ "")
          × (plan_hash ≡ none)
          × (nonce ≡ none)
          × (expires_at ≡ none)
          × (r ≡ record {
            protocol = ConfirmationProtocol.canonical;
            plan_id = some t;
            plan_hash = none;
            nonce = none;
            expires_at = none;
            warnings = [];
          }))
        ⊎ ((h : String) × (n : String) × (e : ℕ) × ((plan_id ≡ none) ⊎ (plan_id ≡ some ""))
            × (plan_hash ≡ some h)
            × (nonce ≡ some n)
            × (expires_at ≡ some e)
            × (r ≡ record {
              protocol = ConfirmationProtocol.legacy;
              plan_id = none;
              plan_hash = some h;
              nonce = some n;
              expires_at = some e;
              warnings = deprecation ∷ [];
            })))
resolved_iff plan_id plan_hash given expires_at r =
    let (by_tests, to_resolved) = resolved_by_tests plan_id plan_hash given expires_at r in
    (
      (λ h. elim (by_tests h) [
        | inl (p, l, q) ↦
            let (t, e, named) = present plan_id p in
            let (e1, e2, e3) = no_legacy plan_hash given expires_at l in
            inl (t, e, named, e1, e2, e3, q ∙ ap canonical_resolution e)
        | inr (p, l, q) ↦
            let (t, u, k, e1, e2, e3) = whole_legacy plan_hash given expires_at l in
            inr (t, u, k, absent plan_id p, e1, e2, e3, q ∙ legacy_same e1 e2 e3)
      ]),
      (λ c. to_resolved (elim c [
        | inl (t, e, named, e1, e2, e3, q) ↦
            inl (
              rw e (present_some t named),
              rw (e1, e2, e3) refl,
              q ∙ ap canonical_resolution (sym e),
            )
        | inr (t, u, k, p, e1, e2, e3, q) ↦
            inr (absent_blank plan_id p, rw (e1, e2, e3) refl, q ∙ sym (legacy_same e1 e2 e3))
      ])),
    )

-- An optional locator is resolved, or absent, exactly if none or all three of its fields are given.
pub optional_locator_iff :
    (plan_hash nonce : Option String) (expires_at : Option ℕ)
    → ((resolve_optional_legacy_locator plan_hash nonce expires_at ≡ none)
        ⊎ (resolve_optional_legacy_locator plan_hash nonce expires_at
            ≡ some (resolved (legacy_resolution plan_hash nonce expires_at))))
      ↔ ((some_legacy plan_hash nonce expires_at ≡ false)
          ⊎ (all_legacy plan_hash nonce expires_at ≡ true))
unfolding resolve_optional_legacy_locator resolve_confirmation_protocol
optional_locator_iff plan_hash given expires_at = ground arith
