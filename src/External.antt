-- ===== src/External.antt =====
-- The code that rust-proxy calls and does not hold: the crates http, regex, ipnet and iprange,
-- base64 and jsonwebtoken, and the floating-point numbers. Each is a record of operations, with
-- the documented laws that proofs use, and is an argument of every definition that calls it.
pub mod Samples
use Prim.Native.Char.{code}
use silverwind.Prelude.{
  any, str_eq, Bool-cases, inl, inr, eq_iff, refl, ◌∙◌, ℕ, ◌+◌, String, ◌≡◌, Bool, true, false,
  ◌&&◌, Option, none, some, or_else, List, [], ◌∷◌, leb, ◌==◌, if◌then◌else◌, ℤ, All, Outcome, ok,
}

-- Upper-case ASCII letters as lower-case ones, by code point.
abbrev pub lower : ℕ → ℕ
lower c = if leb b'A' c && leb c b'Z' then c + 32 else c

-- Header names are compared without regard to ASCII case.
unfoldable pub same_name : String → String → Bool
same_name String.[] String.[] = true
same_name (String.◌∷◌ c s) (String.◌∷◌ d t) =
    let rest = same_name s t in if lower (code c) == lower (code d) then rest else false
same_name _ _ = false

-- The header names that the code spells out.
abbrev pub known_names : List String
known_names =
    "retry-after" ∷ "x-ratelimit-limit" ∷ "x-ratelimit-remaining" ∷ "x-ratelimit-reset"
    ∷ "X-Real-IP" ∷ "X-Forwarded-For" ∷ "cache-control" ∷ "expires" ∷ "access-control-allow-origin"
    ∷ "access-control-allow-methods" ∷ "access-control-allow-headers"
    ∷ "access-control-allow-credentials" ∷ "access-control-max-age" ∷ "vary" ∷ "content-encoding"
    ∷ "host" ∷ []

-- http: HeaderMap, HeaderName and HeaderValue.
pub record Http : Type 1 where
  pub HeaderMap : Type 0
  pub HeaderValue : Type 0
  pub empty : HeaderMap
  pub is_empty : HeaderMap → Bool
  pub get : HeaderMap → String → Option HeaderValue
  pub insert : HeaderMap → String → HeaderValue → HeaderMap
  pub remove : HeaderMap → String → HeaderMap
  -- A second value of a name, and the names of a second map in place of those of the first.
  pub append : HeaderMap → String → HeaderValue → HeaderMap
  pub extend : HeaderMap → HeaderMap → HeaderMap
  -- HeaderName::from_str succeeds.
  pub valid_name : String → Bool
  pub name_error : String
  -- HeaderValue::from_str, HeaderValue::from of an integer, and HeaderValue::to_str.
  pub of_str : String → Option HeaderValue
  pub of_str_error : String
  pub of_int : ℤ → HeaderValue
  pub to_str : HeaderValue → Option String
  pub to_str_error : String
  pub get-empty : (k : String) → get empty k ≡ none
  pub get-is_empty : (m : HeaderMap) (k : String) → is_empty m ≡ true → get m k ≡ none
  pub get-insert :
      (m : HeaderMap) (n k : String) (v : HeaderValue)
      → valid_name n ≡ true
      → get (insert m n v) k ≡ (if same_name n k then some v else get m k)
  pub get-remove :
      (m : HeaderMap) (n k : String)
      → get (remove m n) k ≡ (if same_name n k then none else get m k)
  pub get-append :
      (m : HeaderMap) (n k : String) (v : HeaderValue)
      → get (append m n v) k ≡ or_else (get m k) (if same_name n k then some v else none)
  pub get-extend : (m n : HeaderMap) (k : String) → get (extend m n) k ≡ or_else (get n k) (get m k)
  pub to_str-of_str : (s : String) (v : HeaderValue) → of_str s ≡ some v → to_str v ≡ some s
  pub known : All (λ n. valid_name n ≡ true) known_names

-- regex: Regex::new, is_match and replace. An error has a message.
pub record RegexEngine : Type 1 where
  pub Regex : Type 0
  pub compile : String → Option Regex
  pub compile_error : String → String
  pub is_match : Regex → String → Bool
  pub replace : Regex → String → String → String
  pub replace_all : Regex → String → String → String

-- ipnet and iprange, with the parser of IPv4 addresses.
pub record IpNets : Type 1 where
  pub Net : Type 0
  pub Addr : Type 0
  pub parse_net : String → Option Net
  pub net_error : String → String
  pub parse_addr : String → Option Addr
  pub addr_error : String → String
  pub net_contains : Net → Addr → Bool

-- f64: the numbers of a `u64`, their quotient and the test `>=`.
pub record Float : Type 1 where
  pub F64 : Type 0
  pub of_u64 : ℕ → F64
  pub divide : F64 → F64 → F64
  pub ge : F64 → F64 → Bool

-- The bodies of messages, and the encoders flate2 and zstd with what decodes their output.
pub record Codecs : Type 1 where
  pub Bytes : Type 0
  pub empty : Bytes
  pub of_text : String → Bytes
  pub size : Bytes → ℕ
  pub gzip : ℤ → Bytes → Outcome Bytes
  pub zstd : ℤ → Bytes → Outcome Bytes
  pub gunzip : Bytes → Option Bytes
  pub unzstd : Bytes → Option Bytes
  pub gunzip-gzip : (level : ℤ) (a b : Bytes) → gzip level a ≡ ok b → gunzip b ≡ some a
  pub unzstd-zstd : (level : ℤ) (a b : Bytes) → zstd level a ≡ ok b → unzstd b ≡ some a

-- url: Url, whose errors have a message.
pub record Urls : Type 1 where
  pub Url : Type 0
  pub parse : String → Option Url
  pub parse_error : String → String
  pub text : Url → String
  pub scheme : Url → String
  pub host : Url → Option String
  -- The port that is written, and that or else the one of the scheme.
  pub port : Url → Option ℕ
  pub port_or_known_default : Url → Option ℕ
  pub join : Url → String → Option Url

-- http: Uri, and PathAndQuery. An error has a message.
pub record Uris : Type 1 where
  pub Uri : Type 0
  pub PathAndQuery : Type 0
  pub parse : String → Option Uri
  pub parse_path : String → Option PathAndQuery
  pub parse_error : String → String
  pub text : Uri → String
  pub path_and_query : Uri → Option String
  pub host : Uri → Option String
  pub with_path : Uri → PathAndQuery → Option Uri
  pub parts_error : String

-- A name is legal if it is among those that the code spells out.
pub legal :
    (http : Http) (n : String) → any (λ k. str_eq k n) known_names ≡ true → http.valid_name n ≡ true
legal http n h = among known_names http.known h
  where
    among :
        (names : List String)
        → All (λ k. http.valid_name k ≡ true) names
        → any (λ k. str_eq k n) names ≡ true
        → http.valid_name n ≡ true
    among [] all e = cc
    among (k ∷ names) (valid, all) e = elim (Bool-cases (str_eq k n)) [
      | inl same ↦ rw⁻¹ ((eq_iff k n).0 same) valid
      | inr other ↦ among names all (rw other at e)
    ]

pub get-insert_self :
    (http : Http) (m : http.HeaderMap) (n : String) (v : http.HeaderValue)
    → any (λ k. str_eq k n) known_names ≡ true
    → same_name n n ≡ true
    → http.get (http.insert m n v) n ≡ some v
get-insert_self http m n v known same = http.get-insert m n n v (legal http n known) ∙ rw same refl
