-- ===== src/GremlinPolicy/Decision.antt =====
-- `classify_gremlin_read_safety` and `GremlinPolicy` of gremlin_policy.py.
use incubator_hugegraph_ai.Prelude.{
  List, String, Bool, true, false, not, Option, none, some, if◌then◌else◌, any, all,
}
use incubator_hugegraph_ai.GremlinPolicy.Characters.{Text, is_one_of, is_space}
use incubator_hugegraph_ai.GremlinPolicy.Lexer.{lex_gremlin_query}
use incubator_hugegraph_ai.GremlinPolicy.Analysis.{read_methods, Gathered, analyze_tokens}

-- `GremlinClassification`; `unclear` is its "uncertain"
pub data Classification : Type 0 where
  safe unsafe unclear : Classification

abbrev pub is_read : Text → Bool
is_read method = is_one_of method read_methods

abbrev pub verdict : Gathered → Classification
verdict analysis =
    if analysis.has_write_method
    then unsafe
    else if analysis.uncertain
    then unclear
    else if not (all is_read analysis.methods)
    then unclear
    else safe

-- `classify_gremlin_read_safety`
unfoldable pub classify_gremlin_read_safety : Text → Classification
unfolding analyze_tokens lex_gremlin_query
classify_gremlin_read_safety query =
    if not (any (λ c. not (is_space c)) query)
    then unclear
    else verdict (analyze_tokens (lex_gremlin_query query))

-- `GremlinDecision`
pub record GremlinDecision : Type 0 where
  pub allowed : Bool
  pub classification : Classification
  pub reason : String
  pub error_type : Option String
  pub suggestion : Option String

-- `GremlinPolicy.check_read`
unfoldable pub check_read : Text → GremlinDecision
unfolding classify_gremlin_read_safety
check_read query = elim (classify_gremlin_read_safety query) [
  | safe ↦ record {
    allowed = true;
    classification = safe;
    reason = "Query is a known read-only traversal.";
    error_type = none;
    suggestion = none;
  }
  | unsafe ↦ record {
    allowed = false;
    classification = unsafe;
    reason = "Query contains write or mutate operations.";
    error_type = some "UNSAFE_GREMLIN";
    suggestion =
        some "Use execute_gremlin_write for write operations when write access is enabled.";
  }
  | unclear ↦ record {
    allowed = false;
    classification = unclear;
    reason = "Query contains unknown or ambiguous steps; cannot confirm read-only safety.";
    error_type = some "UNSAFE_GREMLIN";
    suggestion = some "Use a clearly read-only Gremlin traversal starting with g.V() or g.E().";
  }
]

-- `is_safe_gremlin_read`
unfoldable pub is_safe_gremlin_read : Text → Bool
unfolding classify_gremlin_read_safety
is_safe_gremlin_read query = elim (classify_gremlin_read_safety query) [
  | safe ↦ true
  | unsafe ↦ false
  | unclear ↦ false
]

-- `_extract_method_names`
unfoldable pub extract_method_names : Text → List Text
unfolding analyze_tokens lex_gremlin_query
extract_method_names query = (analyze_tokens (lex_gremlin_query query)).methods

-- `_has_unsafe_write_steps`
unfoldable pub has_unsafe_write_steps : Text → Bool
unfolding analyze_tokens lex_gremlin_query
has_unsafe_write_steps query = (analyze_tokens (lex_gremlin_query query)).has_write_method

-- `_has_dynamic_construction_markers` and `_has_bare_identifier_arguments`
unfoldable pub has_uncertain_parts : Text → Bool
unfolding analyze_tokens lex_gremlin_query
has_uncertain_parts query = (analyze_tokens (lex_gremlin_query query)).uncertain

-- `_strip_string_literals`
unfoldable pub strip_string_literals : Text → Text
unfolding lex_gremlin_query
strip_string_literals query = (lex_gremlin_query query).normalized
