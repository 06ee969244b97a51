-- ===== src/Router/HeaderRule/Saving.antt =====
-- rust-proxy/src/vojo/router.rs: how a rule of the header router is written to the configuration and
-- read from it.
mod RoundTrip
mod Tests
use silverwind.Prelude.{
  ℕ, zero, suc, ◌+◌, ◌-◌, ◌*◌, ◌/◌, ◌%◌, ◌^◌, ◌≤◌, ◌<◌, String, ◌≡◌, refl, sym, ap, ◌∙◌, ◌≢◌, ◌↔◌,
  ◌⊎◌, inl, inr, Bool, true, false, not, ◌&&◌, ◌||◌, Option, none, some, List, [], ◌∷◌, ◌++◌, map,
  arith, eq_iff, eq_refl, ltb, leb, str_eq, ◌==◌, if◌then◌else◌, Bool-cases, Option-cases, lt→ltb,
  le→ltb, le→leb, lt→leb, length, get_elem?, is_empty, any, all, select, replicate, length-append,
  get_elem?_lt, All, All-get_elem?, All-select, select-holds, ℤ, pos, negsuc, to_u32, as_i32,
  add_i32, sub_i32, lt_ℤ, le_ℤ, min_ℤ, add_i32_pos, sub_i32_pos, as_i32_pos, Outcome, ok, err,
  panic, ◌>>=◌, ok_or, Outcome-cases, Done, or_else, and_then, map_err, ok-inj, some-inj, none≢some,
  Eq, string_eq, ◌⧺◌, contains_char, strip_prefix, is_some, starts_with, split, decimal, join,
  ends_with, contains_str,
}
use silverwind.Serde.{
  Value, Entries, str, bool, strs, object, empty, entry, Messages, text_of, texts_of, entries_of,
  once, required,
}
use silverwind.Router.HeaderRule.{
  HeaderRoutingRule, HeaderValueMappingType, SplitSegment, regex, text, split_segment,
}

segment : SplitSegment → Entries
segment s = entry "by" (str s.split_by) (entry "matches" (strs s.split_list) empty)

mapping : HeaderValueMappingType → Value
unfolding segment
mapping (text value) = object (entry "text" (str value) empty)
mapping (regex value) = object (entry "regex" (str value) empty)
mapping (split_segment s) = object (entry "split" (object (segment s)) empty)

-- `is_alive` is written only if it is set.
mark : Option Bool → Entries → Entries
mark none rest = rest
mark (some alive) rest = entry "is_alive" (bool alive) rest

unfoldable pub serialize : HeaderRoutingRule → Entries
unfolding mapping mark
serialize r = entry "endpoint" (str r.endpoint) (
    mark r.is_alive (
      entry "header" (str r.header_key)
        (entry "match" (mapping r.header_value_mapping_type) empty)))

-- The fields that were read so far.
record SegmentFields : Type 0 where
  by : Option String
  matches : Option (List String)

record Fields : Type 0 where
  endpoint : Option String
  header : Option String
  mapping_type : Option HeaderValueMappingType

module _ (messages : Messages) where
  -- A field that the segment does not know is skipped.
  segment_field : String → Value → SegmentFields → Outcome SegmentFields
  segment_field name v s =
      if str_eq name "by"
      then (once messages "by" s.by (text_of messages v) >>= λ x. ok (record s { by = x }))
      else if str_eq name "matches"
      then (once messages "matches" s.matches (texts_of messages v) >>= λ x.
          ok (record s { matches = x }))
      else ok s

  segment_fields : SegmentFields → Entries → Outcome SegmentFields
  unfolding segment_field
  segment_fields s empty = ok s
  segment_fields s (entry name v rest) = segment_field name v s >>= λ next. segment_fields next rest

  read_segment : Entries → Outcome SplitSegment
  unfolding segment_fields
  read_segment o = segment_fields (record { by = none; matches = none }) o >>= λ s.
      required messages "by" s.by >>= λ by. required messages "matches" s.matches >>= λ matches.
      ok (record { split_by = by; split_list = matches })

  variant : String → Value → Outcome HeaderValueMappingType
  unfolding read_segment
  variant name v =
      if str_eq name "text"
      then (text_of messages v >>= λ s. ok (text s))
      else if str_eq name "regex"
      then (text_of messages v >>= λ s. ok (regex s))
      else if str_eq name "split"
      then (entries_of messages v >>= λ o. read_segment o >>= λ s. ok (split_segment s))
      else err (messages.unknown_variant name ("text" ∷ "regex" ∷ "split" ∷ []))

  -- `MatchTypeHelper`: an object with the variant's name as its one key.
  one_variant : Entries → Outcome HeaderValueMappingType
  unfolding variant
  one_variant (entry name v empty) = variant name v
  one_variant o = err (messages.invalid_type (object o) "map with a single key")

  read_mapping : Value → Outcome HeaderValueMappingType
  unfolding one_variant
  read_mapping v = entries_of messages v >>= one_variant

  field : String → Value → Fields → Outcome Fields
  unfolding read_mapping
  field name v f =
      if str_eq name "endpoint"
      then (once messages "endpoint" f.endpoint (text_of messages v) >>= λ x.
          ok (record f { endpoint = x }))
      else if str_eq name "header"
      then (once messages "header" f.header (text_of messages v) >>= λ x.
          ok (record f { header = x }))
      else if str_eq name "match"
      then (once messages "match" f.mapping_type (read_mapping v) >>= λ x.
          ok (record f { mapping_type = x }))
      else err (messages.unknown_field name ("endpoint" ∷ "header" ∷ "match" ∷ []))

  fields : Fields → Entries → Outcome Fields
  unfolding field
  fields f empty = ok f
  fields f (entry name v rest) = field name v f >>= λ next. fields next rest

  finish : Fields → Outcome HeaderRoutingRule
  finish f = required messages "endpoint" f.endpoint >>= λ endpoint.
      required messages "header" f.header >>= λ header.
      required messages "match" f.mapping_type >>= λ mapping_type. ok (record {
        endpoint = endpoint;
        is_alive = none;
        header_key = header;
        header_value_mapping_type = mapping_type;
      })

  unfoldable pub deserialize : Entries → Outcome HeaderRoutingRule
  unfolding fields finish
  deserialize o =
      fields (record { endpoint = none; header = none; mapping_type = none }) o >>= finish

  -- The rules of a router, one after the other.
  unfoldable pub deserialize_all : List Entries → Outcome (List HeaderRoutingRule)
  unfolding deserialize
  deserialize_all [] = ok []
  deserialize_all (o ∷ os) = do r ← deserialize o; rs ← deserialize_all os; ok (r ∷ rs)
