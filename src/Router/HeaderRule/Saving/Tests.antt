-- ===== src/Router/HeaderRule/Saving/Tests.antt =====
-- A rule that a health check has marked.
use silverwind.Prelude.{
  ◌≡◌, refl, Bool, true, Option, none, some, [], ◌∷◌, map, err, string_eq, ◌⧺◌,
}
use silverwind.Serde.{Messages}
use silverwind.Router.HeaderRule.{HeaderRoutingRule, text}
use silverwind.Router.HeaderRule.Saving.{serialize, deserialize_all}
use silverwind.Router.HeaderRule.Saving.RoundTrip.{deserialize_all-serialize}

abbrev messages : Messages
messages = record {
  unknown_field = λ name known. "unknown field `" ⧺ name ⧺ "`";
  missing_field = λ name. "missing field `" ⧺ name ⧺ "`";
  duplicate_field = λ name. "duplicate field `" ⧺ name ⧺ "`";
  unknown_variant = λ name known. "unknown variant `" ⧺ name ⧺ "`";
  invalid_type = λ v expected. "invalid type, expected " ⧺ expected;
  custom = λ s. s;
}

abbrev rule : Option Bool → HeaderRoutingRule
rule alive = record {
  endpoint = "http://a";
  is_alive = alive;
  header_key = "x-version";
  header_value_mapping_type = text "1";
}

deserialize_all-serialize_example :
    deserialize_all messages (map serialize (rule none ∷ rule (some true) ∷ []))
    ≡ err "unknown field `is_alive`"
deserialize_all-serialize_example =
    (deserialize_all-serialize messages (rule none ∷ rule (some true) ∷ [])).1 1 (rule (some true))
      true refl refl
