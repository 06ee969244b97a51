-- ===== src/RouterForm.antt =====
-- rust-proxy/src/vojo/router.rs: the forms in which a router and a static route are read from the
-- configuration. The file system is asked by two arguments, and `read_object` is the derived reader
-- of the tagged form.
mod Tests
use silverwind.Prelude.{
  ℕ, zero, suc, ◌+◌, ◌-◌, ◌*◌, ◌/◌, ◌%◌, ◌^◌, ◌≤◌, ◌<◌, String, ◌≡◌, refl, sym, ap, ◌∙◌, ◌≢◌, ◌↔◌,
  ◌⊎◌, inl, inr, Bool, true, false, not, ◌&&◌, ◌||◌, Option, none, some, List, [], ◌∷◌, ◌++◌, map,
  arith, eq_iff, eq_refl, ltb, leb, str_eq, ◌==◌, if◌then◌else◌, Bool-cases, Option-cases, lt→ltb,
  le→ltb, le→leb, lt→leb, length, get_elem?, is_empty, any, all, select, replicate, length-append,
  get_elem?_lt, All, All-get_elem?, All-select, select-holds, ℤ, pos, negsuc, to_u32, as_i32,
  add_i32, sub_i32, lt_ℤ, le_ℤ, min_ℤ, add_i32_pos, sub_i32_pos, as_i32_pos, Outcome, ok, err,
  panic, ◌>>=◌, ok_or, Outcome-cases, Done, or_else, and_then, map_err, ok-inj, some-inj, none≢some,
  Eq, string_eq, ◌⧺◌, contains_char, strip_prefix, is_some, starts_with, split, decimal, int_text,
  join, ends_with, contains_str,
}
use silverwind.Serde.{
  Value, Entries, str, bool, strs, object, empty, entry, Messages, text_of, required,
}
use silverwind.Router.Base.{BaseRoute, StaticFileRoute}
use silverwind.Router.Poll.{RandomRoute, new_random}
use silverwind.Router.{Router}

module _ (messages : Messages) (exists is_dir : String → Bool) where
  directory : String → Outcome (Option String)
  directory value =
      if not (exists value)
      then err (messages.custom ("doc_root '" ⧺ value ⧺ "' does not exist in the file system"))
      else if not (is_dir value)
      then err (messages.custom ("doc_root '" ⧺ value ⧺ "' is not a directory"))
      else ok (some value)

  -- A later entry takes the place of an earlier one.
  visit_map : Option String → Entries → Outcome (Option String)
  unfolding directory
  visit_map doc_root empty = ok doc_root
  visit_map doc_root (entry name v rest) = text_of messages v >>= λ value.
      (if str_eq name "doc_root"
        then directory value
        else err (messages.unknown_field name ("doc_root" ∷ [])))
      >>= λ found. visit_map found rest

  unfoldable pub read_static_file : Entries → Outcome StaticFileRoute
  unfolding visit_map
  read_static_file o = visit_map none o >>= λ doc_root.
      required messages "doc_root" doc_root >>= λ root. ok (record { doc_root = root })

module _ (messages : Messages) (read_object : Entries → Outcome Router) where
  -- A text is one target, a list of texts several, of which one is taken at random.
  unfoldable pub deserialize_router : Value → Outcome Router
  unfolding new_random
  deserialize_router (str v) =
      ok (Router.random (record { routes = record { endpoint = v; is_alive = none } ∷ [] }))
  deserialize_router (strs backends) = ok (Router.random (new_random backends))
  deserialize_router (object o) = read_object o
  deserialize_router (bool b) = err (messages.invalid_type (bool b) "string, array or object")
