-- ===== src/Serde.antt =====
-- serde: the values that the readers and writers of the configuration pass on, with the entries of
-- an object in their order, and the messages of its errors.
use silverwind.Prelude.{
  String, Bool, Option, none, some, List, Outcome, ok, err, ◌>>=◌, ok_or, string_eq,
}

mutual
  pub data Value : Type 0 where
    str : String → Value
    bool : Bool → Value
    strs : List String → Value
    object : Entries → Value

  pub data Entries : Type 0 where
    empty : Entries
    entry : String → Value → Entries → Entries

-- serde::de::Error.
pub record Messages : Type 0 where
  pub unknown_field : String → List String → String
  pub missing_field : String → String
  pub duplicate_field : String → String
  pub unknown_variant : String → List String → String
  pub invalid_type : Value → String → String
  pub custom : String → String

module _ (messages : Messages) where
  -- What is read into a `String` and into a `Vec<String>`.
  abbrev pub text_of : Value → Outcome String
  text_of (str s) = ok s
  text_of (bool b) = err (messages.invalid_type (bool b) "a string")
  text_of (strs v) = err (messages.invalid_type (strs v) "a string")
  text_of (object o) = err (messages.invalid_type (object o) "a string")

  abbrev pub texts_of : Value → Outcome (List String)
  texts_of (str s) = err (messages.invalid_type (str s) "a sequence")
  texts_of (bool b) = err (messages.invalid_type (bool b) "a sequence")
  texts_of (strs v) = ok v
  texts_of (object o) = err (messages.invalid_type (object o) "a sequence")

  abbrev pub entries_of : Value → Outcome Entries
  entries_of (str s) = err (messages.invalid_type (str s) "a map")
  entries_of (bool b) = err (messages.invalid_type (bool b) "a map")
  entries_of (strs v) = err (messages.invalid_type (strs v) "a map")
  entries_of (object o) = ok o

  -- A field that must come once.
  abbrev pub once {ℓ} : {A : Type ℓ} → String → Option A → Outcome A → Outcome (Option A)
  once name none a = a >>= λ x. ok (some x)
  once name (some b) a = err (messages.duplicate_field name)

  abbrev pub required {ℓ} : {A : Type ℓ} → String → Option A → Outcome A
  required name a = ok_or a (messages.missing_field name)
