-- ===== src/WritePlan/Freezing.antt =====
-- What freezing a state and thawing it again keeps.
use incubator_hugegraph_ai.Prelude.{String, ◌≡◌, refl, ap}
use incubator_hugegraph_ai.WritePlan.Value.{
  Value, Values, Fields, none_value, bool, int, str, enum, list, tuple, set, frozenset, mapping,
  nil, cons, end, field, freeze, freeze_items, freeze_mapping, thaw, thaw_items, thaw_mapping,
}

-- The values that `json.loads` returns.
mutual
  pub data IsJson : Value → Type 0 where
    json_none : IsJson none_value
    json_bool : (b : _) → IsJson (bool b)
    json_int : (n : _) → IsJson (int n)
    json_str : (s : String) → IsJson (str s)
    json_list : {vs : Values} → IsJsonItems vs → IsJson (list vs)
    json_mapping : {fs : Fields} → IsJsonFields fs → IsJson (mapping fs)

  pub data IsJsonItems : Values → Type 0 where
    json_nil : IsJsonItems nil
    json_cons : {v : Value} {vs : Values} → IsJson v → IsJsonItems vs → IsJsonItems (cons v vs)

  pub data IsJsonFields : Fields → Type 0 where
    json_end : IsJsonFields end
    json_field :
        (k : String) {v : Value} {fs : Fields}
        → IsJson v
        → IsJsonFields fs
        → IsJsonFields (field k v fs)

module _ (sort : Values → Values) where
  mutual
    unfolding freeze freeze_items freeze_mapping thaw thaw_items thaw_mapping

    thaw-freeze_rec : {v : Value} → IsJson v → thaw sort (freeze v) ≡ v
    thaw-freeze_rec json_none = refl
    thaw-freeze_rec (json_bool b) = refl
    thaw-freeze_rec (json_int n) = refl
    thaw-freeze_rec (json_str s) = refl
    thaw-freeze_rec (json_list h) = ap list (thaw-freeze_items h)
    thaw-freeze_rec (json_mapping h) = ap mapping (thaw-freeze_fields h)

    thaw-freeze_items : {vs : Values} → IsJsonItems vs → thaw_items sort (freeze_items vs) ≡ vs
    thaw-freeze_items json_nil = refl
    thaw-freeze_items (json_cons h t) = cc (thaw-freeze_rec h, thaw-freeze_items t)

    thaw-freeze_fields :
        {fs : Fields} → IsJsonFields fs → thaw_mapping sort (freeze_mapping fs) ≡ fs
    thaw-freeze_fields json_end = refl
    thaw-freeze_fields (json_field k h t) = cc (thaw-freeze_rec h, thaw-freeze_fields t)

  -- What a plan shows of a frozen JSON state is the state that it was given, whatever the order in
  -- which frozen sets are listed.
  pub thaw-freeze : (v : Value) → IsJson v → thaw sort (freeze v) ≡ v
  thaw-freeze v h = thaw-freeze_rec h

mutual
  unfolding freeze freeze_items freeze_mapping

  freeze_idem_rec : (v : Value) → freeze (freeze v) ≡ freeze v
  freeze_idem_rec none_value = refl
  freeze_idem_rec (bool b) = refl
  freeze_idem_rec (int n) = refl
  freeze_idem_rec (str s) = refl
  freeze_idem_rec (enum s) = refl
  freeze_idem_rec (list vs) = ap tuple (freeze_items_idem vs)
  freeze_idem_rec (tuple vs) = ap tuple (freeze_items_idem vs)
  freeze_idem_rec (set vs) = ap frozenset (freeze_items_idem vs)
  freeze_idem_rec (frozenset vs) = ap frozenset (freeze_items_idem vs)
  freeze_idem_rec (mapping fs) = ap mapping (freeze_mapping_idem fs)

  freeze_items_idem : (vs : Values) → freeze_items (freeze_items vs) ≡ freeze_items vs
  freeze_items_idem nil = refl
  freeze_items_idem (cons v vs) = cc (freeze_idem_rec v, freeze_items_idem vs)

  freeze_mapping_idem : (fs : Fields) → freeze_mapping (freeze_mapping fs) ≡ freeze_mapping fs
  freeze_mapping_idem end = refl
  freeze_mapping_idem (field k v fs) = cc (freeze_idem_rec v, freeze_mapping_idem fs)

-- Freezing what is frozen changes nothing.
pub freeze_idem : (v : Value) → freeze (freeze v) ≡ freeze v
freeze_idem v = freeze_idem_rec v
