-- ===== src/Execution/Registry.antt =====
-- `WriteExecutorRegistry` of write_executor.py and `ReconcileReaderRegistry` of reconciler.py: a dict
-- from an operation's kind to a function.
use incubator_hugegraph_ai.Prelude.{
  String, Option, none, some, List, [], ◌∷◌, str_eq, if◌then◌else◌, Error, Result, ok, err,
}

abbrev pub Registry {ℓ} : Type ℓ → Type ℓ
Registry A = List (String × A)

module _ {ℓ} {A : Type ℓ} where
  -- `d[kind] = value`
  unfoldable pub put : String → A → Registry A → Registry A
  put kind a [] = (kind, a) ∷ []
  put kind a ((k, b) ∷ r) = if str_eq k kind then (k, a) ∷ r else (k, b) ∷ put kind a r

  -- `register`
  unfoldable pub register : String → A → Registry A → Result (Registry A)
  unfolding put
  register kind a r =
      if str_eq kind "" then err (Error.value_error "kind must be non-empty") else ok (put kind a r)

  -- `adapter_for` and `reader_for`
  unfoldable pub function_for : String → Registry A → Option A
  function_for kind [] = none
  function_for kind ((k, a) ∷ r) = if str_eq k kind then some a else function_for kind r
