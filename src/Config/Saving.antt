-- ===== src/Config/Saving.antt =====
-- rust-proxy/src/vojo/app_config.rs: the map of the services is written as the list of its values,
-- and read from such a list. How serde writes and reads one service is a parameter: `write` and
-- `read` between a service and its form in the document, each of which can fail. The order in which
-- the HashMap gives its values is that of the list that stands for it.
use silverwind.Prelude.{
  String, ◌≡◌, refl, sym, ap, ◌∙◌, inl, inr, Option, none, some, List, [], ◌∷◌, ◌++◌, map,
  if◌then◌else◌, Bool-cases, All, ℤ, Outcome, ok, err, panic, ◌>>=◌, or_else, ok-inj, string_eq,
}
use silverwind.External.{RegexEngine}
use silverwind.Prelude.Assoc.{lookup, insert, lookup-insert_self}
use silverwind.Prelude.Maps.{lookup-insert_other}
use silverwind.Config.{ApiService, int_eq}

-- serde writes, and reads, the elements of a Vec in their order, up to the first error.
unfoldable pub each : {A B : Type 0} → (A → Outcome B) → List A → Outcome (List B)
each f [] = ok []
each f (x ∷ xs) = f x >>= λ y. each f xs >>= λ ys. ok (y ∷ ys)

module _ (engine : RegexEngine) where
  abbrev pub values : List (ℤ × ApiService engine) → List (ApiService engine)
  values config = map (λ x. x.1) config

  read_from : List (ApiService engine) → List (ℤ × ApiService engine) → List (ℤ × ApiService engine)
  unfolding insert
  read_from [] hashmap = hashmap
  read_from (item ∷ services) hashmap = read_from services (insert item.listen_port item hashmap)

  -- The last of the services that listen on the port, or else the one that is given.
  unfoldable pub last_on :
      ℤ → List (ApiService engine) → Option (ApiService engine) → Option (ApiService engine)
  last_on port [] found = found
  last_on port (item ∷ services) found =
      last_on port services (if int_eq.beq item.listen_port port then some item else found)

  lookup-insert :
      (port : ℤ) (item : ApiService engine) (m : List (ℤ × ApiService engine))
      → lookup port (insert item.listen_port item m)
        ≡ (if int_eq.beq item.listen_port port then some item else lookup port m)
  lookup-insert port item m = elim (Bool-cases (int_eq.beq item.listen_port port)) [
    | inl same ↦ rw same (
        ap (λ p. lookup p (insert item.listen_port item m))
          (sym ((int_eq.beq_iff item.listen_port port).0 same))
        ∙ lookup-insert_self item.listen_port item m)
    | inr other ↦ rw other (lookup-insert_other item.listen_port port item m other)
  ]

  lookup-read_from :
      (port : ℤ) (services : List (ApiService engine)) (m : List (ℤ × ApiService engine))
      → lookup port (read_from services m) ≡ last_on port services (lookup port m)
  unfolding read_from last_on
  lookup-read_from port [] m = refl
  lookup-read_from port (item ∷ services) m =
      lookup-read_from port services (insert item.listen_port item m)
      ∙ ap (last_on port services) (lookup-insert port item m)

  -- A map in which every service stands under its port, and every port once.
  unfoldable pub AreKeyed : List (ℤ × ApiService engine) → Type 0
  AreKeyed [] = Unit
  AreKeyed ((port, item) ∷ m) = (item.listen_port ≡ port) × (lookup port m ≡ none) × AreKeyed m

  last_on-values :
      (port : ℤ) (m : List (ℤ × ApiService engine)) (found : Option (ApiService engine))
      → AreKeyed m
      → last_on port (values m) found ≡ or_else (lookup port m) found
  unfolding last_on AreKeyed lookup
  last_on-values port [] found h = refl
  last_on-values port ((p, item) ∷ m) found (keyed, new, h) =
      last_on-values port m (if int_eq.beq item.listen_port port then some item else found) h
      ∙ (ap (λ x. or_else (lookup port m) (if int_eq.beq x port then some item else found)) keyed
          ∙ elim (Bool-cases (int_eq.beq p port)) [
            | inl same ↦ rw same (
                ap (λ x. or_else x (some item))
                  (ap (λ k. lookup k m) (sym ((int_eq.beq_iff p port).0 same)) ∙ new))
            | inr other ↦ rw other refl
          ])

module _ (engine : RegexEngine) {Form : Type 0} (write : ApiService engine → Outcome Form)
    (read : Form → Outcome (ApiService engine)) where
  unfoldable pub serialize_api_service_config : List (ℤ × ApiService engine) → Outcome (List Form)
  unfolding each
  serialize_api_service_config config = each write (values engine config)

  unfoldable pub deserialize_service_config : List Form → Outcome (List (ℤ × ApiService engine))
  unfolding each read_from
  deserialize_service_config forms =
      each read forms >>= λ services. ok (read_from engine services [])

  -- The service can be written, and is read back from what is written of it.
  abbrev pub IsReadBack : ApiService engine → Type 0
  IsReadBack s = (form : Form) × (write s ≡ ok form) × (read form ≡ ok s)

  -- Services that are read back, are so as a list.
  each-IsReadBack :
      (services : List (ApiService engine))
      → All IsReadBack services
      → (forms : List Form) × (each write services ≡ ok forms) × (each read forms ≡ ok services)
  unfolding each
  each-IsReadBack [] h = ([], refl, refl)
  each-IsReadBack (s ∷ services) ((form, w, r), h) =
      let (forms, ws, rs) = each-IsReadBack services h in
      (form ∷ forms, rw w (rw ws refl), rw r (rw rs refl))

  written_first :
      (s : ApiService engine) (form : Form) (services : List (ApiService engine))
      (forms : List Form)
      → write s ≡ ok form
      → each write (s ∷ services) ≡ ok forms
      → (rest : List Form) × (each write services ≡ ok rest) × (forms ≡ form ∷ rest)
  unfolding each
  written_first s form services forms w e = of_rest (each write services) refl (rw w at e)
    where
      of_rest :
          (o : Outcome (List Form))
          → each write services ≡ o
          → (o >>= λ ys. ok (form ∷ ys)) ≡ ok forms
          → (rest : List Form) × (each write services ≡ ok rest) × (forms ≡ form ∷ rest)
      of_rest (ok rest) e f = (rest, e, sym (ok-inj f))
      of_rest (err m) e f = cc
      of_rest panic e f = cc

  each-err :
      (before after : List (ℤ × ApiService engine)) (port : ℤ) (s : ApiService engine) (form : Form)
      (e : String) (forms : List Form)
      → All IsReadBack (values engine before)
      → write s ≡ ok form
      → read form ≡ err e
      → each write (values engine (before ++ (port, s) ∷ after)) ≡ ok forms
      → each read forms ≡ err e
  unfolding each
  each-err [] after port s form e forms h w r written =
      let (rest, ws, is) = written_first s form (values engine after) forms w written in
      rw is (rw r refl)
  each-err ((p, x) ∷ before) after port s form e forms ((f, wf, rf), h) w r written =
      let (rest, ws, is) = written_first x f _ forms wf written in
      rw is (rw rf (rw (each-err before after port s form e rest h w r ws) refl))

  round_trip :
      (m : List (ℤ × ApiService engine))
      → AreKeyed engine m
      → All IsReadBack (values engine m)
      → (forms : List Form) × (m' : List (ℤ × ApiService engine)) × (serialize_api_service_config m
          ≡ ok forms)
        × (deserialize_service_config forms ≡ ok m')
        × ((port : ℤ) → lookup port m' ≡ lookup port m)
  unfolding serialize_api_service_config deserialize_service_config lookup
  round_trip m keyed back =
      let (forms, ws, rs) = each-IsReadBack (values engine m) back in
      (
        forms,
        read_from engine (values engine m) [],
        ws,
        rw rs refl,
        λ port.
            lookup-read_from engine port (values engine m) []
            ∙ (last_on-values engine port m none keyed ∙ or_else-none (lookup port m)),
      )
    where
      or_else-none : (o : Option (ApiService engine)) → or_else o none ≡ o
      or_else-none none = refl
      or_else-none (some a) = refl

  unreadable :
      (before after : List (ℤ × ApiService engine)) (port : ℤ) (s : ApiService engine) (form : Form)
      (e : String) (forms : List Form)
      → All IsReadBack (values engine before)
      → write s ≡ ok form
      → read form ≡ err e
      → serialize_api_service_config (before ++ (port, s) ∷ after) ≡ ok forms
      → deserialize_service_config forms ≡ err e
  unfolding serialize_api_service_config deserialize_service_config
  unreadable before after port s form e forms h w r written =
      rw (each-err before after port s form e forms h w r written) refl

  pub deserialize_service_config-serialize_api_service_config :
      (m : List (ℤ × ApiService engine))
      → AreKeyed engine m
      → (All IsReadBack (values engine m)
          → (forms : List Form) × (m' : List (ℤ × ApiService engine))
            × (serialize_api_service_config m ≡ ok forms)
            × (deserialize_service_config forms ≡ ok m')
            × ((port : ℤ) → lookup port m' ≡ lookup port m))
        × ((before after : List (ℤ × ApiService engine)) (port : ℤ) (s : ApiService engine)
              (form : Form) (e : String) (forms : List Form)
            → m ≡ before ++ (port, s) ∷ after
            → All IsReadBack (values engine before)
            → write s ≡ ok form
            → read form ≡ err e
            → serialize_api_service_config m ≡ ok forms
            → deserialize_service_config forms ≡ err e)
  deserialize_service_config-serialize_api_service_config m keyed = (
    round_trip m keyed,
    λ before after port s form e forms is back w r written.
        unreadable before after port s form e forms back w r
          (ap serialize_api_service_config (sym is) ∙ written),
  )
