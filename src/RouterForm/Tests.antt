-- ===== src/RouterForm/Tests.antt =====
-- A directory that is there and one that is not.
use silverwind.Prelude.{String, ◌≡◌, refl, Bool, [], ◌∷◌, str_eq, ok, err, string_eq, ◌⧺◌}
use silverwind.Serde.{Messages, str, strs, empty, entry}
use silverwind.Router.{Router}
use silverwind.Router.Poll.{new_random}
use silverwind.RouterForm.{read_static_file, deserialize_router}

abbrev messages : Messages
messages = record {
  unknown_field = λ name known. "unknown field `" ⧺ name ⧺ "`";
  missing_field = λ name. "missing field `" ⧺ name ⧺ "`";
  duplicate_field = λ name. "duplicate field `" ⧺ name ⧺ "`";
  unknown_variant = λ name known. "unknown variant `" ⧺ name ⧺ "`";
  invalid_type = λ v expected. "invalid type, expected " ⧺ expected;
  custom = λ s. s;
}

abbrev is_srv : String → Bool
is_srv s = str_eq s "/srv"

there :
    read_static_file messages is_srv is_srv (entry "doc_root" (str "/srv") empty)
    ≡ ok (record { doc_root = "/srv" })
unfolding read_static_file
there = refl

missing :
    read_static_file messages is_srv is_srv (entry "doc_root" (str "/x") empty)
    ≡ err "doc_root '/x' does not exist in the file system"
unfolding read_static_file
missing = refl

several :
    deserialize_router messages (λ o. err "") (strs ("http://a" ∷ "http://b" ∷ []))
    ≡ ok (Router.random (new_random ("http://a" ∷ "http://b" ∷ [])))
unfolding deserialize_router
several = refl
