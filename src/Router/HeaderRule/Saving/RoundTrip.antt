-- ===== src/Router/HeaderRule/Saving/RoundTrip.antt =====
-- What becomes of the rules of a header router when the configuration is written and read again.
use silverwind.Prelude.{
  ℕ, zero, suc, String, ◌≡◌, refl, ap, ◌∙◌, Bool, Option, none, some, List, [], ◌∷◌, map, get_elem?,
  All, Outcome, ok, err, some-inj, string_eq,
}
use mathlib.Core.Path.{subst}
use silverwind.Serde.{Entries, Messages}
use silverwind.Router.HeaderRule.{
  HeaderRoutingRule, HeaderValueMappingType, regex, text, split_segment,
}
use silverwind.Router.HeaderRule.Saving.{
  serialize, deserialize, deserialize_all, mapping, mark, segment, read_mapping, one_variant,
  variant, read_segment, segment_fields, segment_field, fields, field, finish,
}

module _ (messages : Messages) where
  read-mapping : (m : HeaderValueMappingType) → read_mapping messages (mapping m) ≡ ok m
  unfolding read_mapping one_variant variant mapping segment read_segment segment_fields
      segment_field
  read-mapping (regex value) = refl
  read-mapping (text value) = refl
  read-mapping (split_segment s) = refl

  read-unmarked :
      (endpoint key : String) (m : HeaderValueMappingType)
      → deserialize messages (
          serialize (record {
            endpoint = endpoint;
            is_alive = none;
            header_key = key;
            header_value_mapping_type = m;
          }))
        ≡ ok (record {
          endpoint = endpoint;
          is_alive = none;
          header_key = key;
          header_value_mapping_type = m;
        })
  unfolding deserialize serialize mark fields field finish
  read-unmarked endpoint key m = rw (read-mapping m) refl

  abbrev pub unknown : String
  unknown = messages.unknown_field "is_alive" ("endpoint" ∷ "header" ∷ "match" ∷ [])

  -- What a rule is read back as, after it was written with the mark.
  abbrev reread : Option Bool → HeaderRoutingRule → Outcome HeaderRoutingRule
  reread none r = ok r
  reread (some b) r = err unknown

  read-rule :
      (r : HeaderRoutingRule) (alive : Option Bool)
      → deserialize messages (serialize (record r { is_alive = alive }))
        ≡ reread alive (record r { is_alive = alive })
  unfolding deserialize serialize mark fields field finish
  read-rule r none = read-unmarked r.endpoint r.header_key r.header_value_mapping_type
  read-rule r (some b) = refl

  read-marked :
      (r : HeaderRoutingRule) (alive : Option Bool)
      → r.is_alive ≡ alive
      → deserialize messages (serialize r) ≡ reread alive r
  read-marked r alive e =
      subst (λ a. deserialize messages (serialize r) ≡ reread a r) e (read-rule r r.is_alive)

  unmarked_rules :
      (rules : List HeaderRoutingRule)
      → All (λ r. r.is_alive ≡ none) rules
      → deserialize_all messages (map serialize rules) ≡ ok rules
  unfolding deserialize_all
  unmarked_rules [] h = refl
  unmarked_rules (r ∷ rs) (e, h) = rw (read-marked r none e) (rw (unmarked_rules rs h) refl)

  after_rule :
      (r : HeaderRoutingRule) (alive : Option Bool) (os : List Entries)
      → r.is_alive ≡ alive
      → deserialize_all messages os ≡ err unknown
      → deserialize_all messages (serialize r ∷ os) ≡ err unknown
  unfolding deserialize_all
  after_rule r none os e h = rw (read-marked r none e) (rw h refl)
  after_rule r (some b) os e h = rw (read-marked r (some b) e) refl

  one_marked :
      (rules : List HeaderRoutingRule) (i : ℕ) (r : HeaderRoutingRule) (b : Bool)
      → get_elem? rules i ≡ some r
      → r.is_alive ≡ some b
      → deserialize_all messages (map serialize rules) ≡ err unknown
  unfolding deserialize_all
  one_marked [] i r b e h = cc
  one_marked (x ∷ rs) zero r b e h =
      rw (read-marked x (some b) (ap (λ (r : HeaderRoutingRule). r.is_alive) (some-inj e) ∙ h)) refl
  one_marked (x ∷ rs) (suc i) r b e h =
      after_rule x x.is_alive (map serialize rs) refl (one_marked rs i r b e h)

  -- The rules of a header router that carry no health mark are read back from what is written of
  -- them as they were; but if one of them, at any place, carries a mark, then what is written cannot
  -- be read, since the reader does not know the field of the mark.
  pub deserialize_all-serialize :
      (rules : List HeaderRoutingRule)
      → (All (λ r. r.is_alive ≡ none) rules
          → deserialize_all messages (map serialize rules) ≡ ok rules)
        × ((i : ℕ) (r : HeaderRoutingRule) (b : Bool)
            → get_elem? rules i ≡ some r
            → r.is_alive ≡ some b
            → deserialize_all messages (map serialize rules) ≡ err unknown)
  deserialize_all-serialize rules = (unmarked_rules rules, one_marked rules)
