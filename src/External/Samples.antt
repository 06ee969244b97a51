-- ===== src/External/Samples.antt =====
-- Values of the interfaces of External: they show that the laws can hold, and let tests run.
use silverwind.Prelude.{
  or_else, ok, Outcome, ap, ℕ, List, length, [], ◌∷◌, sym, some, none, refl, Option, ◌+◌, String,
  refl, sym, true, false, Option, none, some, str_eq, if◌then◌else◌, pos, negsuc, string_eq, ◌⧺◌,
  strip_prefix, starts_with, decimal,
}
use mathlib.Core.Bool.{false≢true}
use silverwind.External.{same_name, Http, RegexEngine, IpNets, Codecs, Uris, Urls}

-- A header map as the function that looks a name up; every name and every value is legal.
abbrev pub plain_http : Http
plain_http = record {
  HeaderMap = String → Option String;
  HeaderValue = String;
  empty = λ k. none;
  is_empty = λ m. false;
  get = λ m k. m k;
  insert = λ m n v k. if same_name n k then some v else m k;
  remove = λ m n k. if same_name n k then none else m k;
  append = λ m n v k. or_else (m k) (if same_name n k then some v else none);
  extend = λ m n k. or_else (n k) (m k);
  valid_name = λ n. true;
  name_error = "invalid HTTP header name";
  of_str = λ s. some s;
  of_str_error = "failed to parse header value";
  of_int = λ n. elim n [ pos k ↦ decimal k | negsuc k ↦ "-" ⧺ decimal (k + 1) ];
  to_str = λ v. some v;
  to_str_error = "failed to convert header to a str";
  get-empty = λ k. refl;
  get-is_empty = λ m k e. absurd (false≢true e);
  get-insert = λ m n k v h. refl;
  get-remove = λ m n k. refl;
  get-append = λ m n k v. refl;
  get-extend = λ m n k. refl;
  to_str-of_str = λ s v e. sym e;
  known = (
    refl,
    (
      refl,
      (
        refl,
        (
          refl,
          (
            refl,
            (
              refl,
              (refl, (refl, (refl, (refl, (refl, (refl, (refl, (refl, (refl, (refl, tt)))))))))),
            ),
          ),
        ),
      ),
    ),
  );
}

-- A pattern matches the texts that begin with it, and is replaced there.
abbrev pub prefix_regex : RegexEngine
prefix_regex = record {
  Regex = String;
  compile = λ s. some s;
  compile_error = λ s. s;
  is_match = λ r s. starts_with s r;
  replace_all = λ r s t. elim (strip_prefix s r) [ none ↦ s | some rest ↦ t ⧺ rest ];
  replace = λ r s t. elim (strip_prefix s r) [ none ↦ s | some rest ↦ t ⧺ rest ];
}

-- A network holds its own address alone.
abbrev pub plain_nets : IpNets
plain_nets = record {
  Net = String;
  Addr = String;
  parse_net = λ s. some s;
  net_error = λ s. s;
  parse_addr = λ s. some s;
  addr_error = λ s. s;
  net_contains = λ n a. str_eq n (a ⧺ "/32");
}

abbrev tail : List ℕ → Option (List ℕ)
tail [] = none
tail (n ∷ b) = some b

abbrev tail_of : Outcome (List ℕ) → Option (List ℕ)
tail_of (ok b) = tail b
tail_of _ = none

-- Encoders that mark what they encoded.
abbrev pub plain_codecs : Codecs
plain_codecs = record {
  Bytes = List ℕ;
  empty = [];
  of_text = λ s. [];
  size = length;
  gzip = λ level b. ok (31 ∷ b);
  zstd = λ level b. ok (40 ∷ b);
  gunzip = tail;
  unzstd = tail;
  gunzip-gzip = λ level a b e. ap tail_of (sym e);
  unzstd-zstd = λ level a b e. ap tail_of (sym e);
}

-- Every text is a URI, whose host is the same for all.
abbrev pub plain_uris : Uris
plain_uris = record {
  Uri = String;
  PathAndQuery = String;
  parse = λ s. some s;
  parse_path = λ s. some s;
  parse_error = λ s. s;
  text = λ u. u;
  path_and_query = λ u. some u;
  host = λ u. some "backend";
  with_path = λ u p. some p;
  parts_error = "invalid URI parts";
}

-- Every text is a URL of the port 80.
abbrev pub plain_urls : Urls
plain_urls = record {
  Url = String;
  parse = λ s. some s;
  parse_error = λ s. s;
  text = λ u. u;
  scheme = λ u. "http";
  host = λ u. some "backend";
  port = λ u. some 80;
  port_or_known_default = λ u. some 80;
  join = λ u p. some (u ⧺ p);
}
