-- ===== src/HealthCheck/Tasks/Keys.antt =====
-- The keys of the tasks after the map was brought in line with the configuration.
use silverwind.Prelude.{
  ℕ, String, ◌≡◌, refl, sym, ap, ◌∙◌, ◌≢◌, inl, inr, Bool, true, false, not, ◌||◌, Option, none,
  some, List, [], ◌∷◌, if◌then◌else◌, Bool-cases, any, ℤ, ok, string_eq, is_some,
}
use silverwind.External.{RegexEngine}
use silverwind.Prelude.Assoc.{lookup, insert}
use silverwind.Prelude.Maps.{
  contains, contains-insert, lookup-insert_other, lookup-select, contains-cons, or_assoc, or_false,
}
use silverwind.Middleware.{Cell}
use silverwind.Route.{RouteConfig}
use silverwind.Config.{AppConfig, ApiService, int_eq}
use silverwind.HealthCheck.Tasks.{
  TaskKey, key_eq, HealthCheck, task_key, add, of_service, route_list, kept, retained, submitted,
  considered, submit_all, do_health_check,
}

module _ (engine : RegexEngine) where
  asks : TaskKey → Option TaskKey → Bool
  asks k none = false
  asks k (some j) = key_eq.beq j k

  -- Some route of some service asks for a task of the key.
  unfoldable pub asks_for : TaskKey → List (ℤ × ApiService engine) → Bool
  unfolding asks
  asks_for k services =
      any (λ s. any (λ route. asks k (task_key engine route)) s.1.route_configs) services

  add-contains :
      (k : TaskKey) (o : Option TaskKey) (route : RouteConfig engine)
      (list : List (TaskKey × RouteConfig engine))
      → contains k (add engine o route list) ≡ contains k list || asks k o
  unfolding add asks
  add-contains k none route list = sym (or_false (contains k list))
  add-contains k (some j) route list = contains-insert j k route list

  of_service-contains :
      (k : TaskKey) (routes : List (RouteConfig engine))
      (list : List (TaskKey × RouteConfig engine))
      → contains k (of_service engine routes list)
        ≡ contains k list || any (λ route. asks k (task_key engine route)) routes
  unfolding of_service
  of_service-contains k [] list = sym (or_false (contains k list))
  of_service-contains k (route ∷ routes) list =
      of_service-contains k routes (add engine (task_key engine route) route list)
      ∙ (ap (λ b. b || any (λ route. asks k (task_key engine route)) routes)
            (add-contains k (task_key engine route) route list)
          ∙ or_assoc (contains k list) _ _)

  route_list-contains :
      (k : TaskKey) (services : List (ℤ × ApiService engine))
      (list : List (TaskKey × RouteConfig engine))
      → contains k (route_list engine services list) ≡ contains k list || asks_for k services
  unfolding route_list asks_for
  route_list-contains k [] list = sym (or_false (contains k list))
  route_list-contains k ((port, service) ∷ services) list =
      route_list-contains k services (of_service engine service.route_configs list)
      ∙ (ap (λ b. b || asks_for k services) (of_service-contains k service.route_configs list)
          ∙ or_assoc (contains k list) _ _)

module _ (engine : RegexEngine) (remove : ℕ → Bool) (start : ℕ → RouteConfig engine → Bool)
    (removes : (id : ℕ) → remove id ≡ true)
    (starts : (id : ℕ) (route : RouteConfig engine) → start id route ≡ true) where
  kept-contains :
      (routes : List (TaskKey × RouteConfig engine)) (x : TaskKey × ℕ)
      → kept engine remove start routes x ≡ contains x.0 routes
  unfolding kept
  kept-contains routes (k, id) = rw (removes id) (or_false (contains k routes))

  lookup-retained :
      (k : TaskKey) (routes : List (TaskKey × RouteConfig engine)) (h : HealthCheck)
      → lookup k (retained engine remove start routes h).task_id_map
        ≡ (if contains k routes then lookup k h.task_id_map else none)
  unfolding retained
  lookup-retained k routes h =
      lookup-select (kept engine remove start routes) (λ j. contains j routes) k h.task_id_map
        (kept-contains routes)

  submitted-map :
      (k : TaskKey) (route : RouteConfig engine) (h : HealthCheck)
      → (submitted engine remove start k route h).task_id_map ≡ insert k h.current_id h.task_id_map
  unfolding submitted
  submitted-map k route h = rw (starts h.current_id route) refl

  differs :
      (old_map : List (TaskKey × ℕ)) (j k : TaskKey) (b : Bool)
      → contains j old_map ≡ b
      → contains k old_map ≡ not b
      → key_eq.beq j k ≡ false
  differs old_map j k b x y = elim (Bool-cases (key_eq.beq j k)) [
    | inl same ↦
        absurd (clash b (sym x ∙ (ap (λ z. contains z old_map) ((key_eq.beq_iff j k).0 same) ∙ y)))
    | inr other ↦ other
  ]
    where
      clash : (b : Bool) → b ≢ not b
      clash true e = cc
      clash false e = cc

  considered-old :
      (old_map : List (TaskKey × ℕ)) (j : TaskKey) (route : RouteConfig engine) (h : HealthCheck)
      → contains j old_map ≡ true
      → considered engine remove start old_map j route h ≡ h
  unfolding considered
  considered-old old_map j route h e = rw e refl

  considered-map :
      (old_map : List (TaskKey × ℕ)) (j : TaskKey) (route : RouteConfig engine) (h : HealthCheck)
      → contains j old_map ≡ false
      → (considered engine remove start old_map j route h).task_id_map
        ≡ insert j h.current_id h.task_id_map
  unfolding considered
  considered-map old_map j route h e = rw e (submitted-map j route h)

  submit_all-keeps :
      (k : TaskKey) (old_map : List (TaskKey × ℕ)) (routes : List (TaskKey × RouteConfig engine))
      (h : HealthCheck)
      → contains k old_map ≡ true
      → lookup k (submit_all engine remove start old_map routes h).task_id_map
        ≡ lookup k h.task_id_map
  unfolding submit_all
  submit_all-keeps k old_map [] h e = refl
  submit_all-keeps k old_map ((j, route) ∷ routes) h e =
      submit_all-keeps k old_map routes (considered engine remove start old_map j route h) e
      ∙ elim (Bool-cases (contains j old_map)) [
        | inl there ↦
            ap (λ (x : HealthCheck). lookup k x.task_id_map)
              (considered-old old_map j route h there)
        | inr new ↦
            ap (lookup k) (considered-map old_map j route h new)
            ∙ lookup-insert_other j k h.current_id h.task_id_map (differs old_map j k false new e)
      ]

  submit_all-adds :
      (k : TaskKey) (old_map : List (TaskKey × ℕ)) (routes : List (TaskKey × RouteConfig engine))
      (h : HealthCheck)
      → contains k old_map ≡ false
      → contains k (submit_all engine remove start old_map routes h).task_id_map
        ≡ contains k h.task_id_map || contains k routes
  unfolding submit_all
  submit_all-adds k old_map [] h e = sym (or_false (contains k h.task_id_map))
  submit_all-adds k old_map ((j, route) ∷ routes) h e =
      submit_all-adds k old_map routes (considered engine remove start old_map j route h) e
      ∙ elim (Bool-cases (contains j old_map)) [
        | inl there ↦
            ap (λ (x : HealthCheck). contains k x.task_id_map || contains k routes)
              (considered-old old_map j route h there)
            ∙ ap (λ b. contains k h.task_id_map || b)
                (sym (
                  contains-cons j k route routes
                  ∙ ap (λ b. b || contains k routes) (differs old_map j k true there e)))
        | inr new ↦
            ap (λ m. contains k m || contains k routes) (considered-map old_map j route h new)
            ∙ (ap (λ b. b || contains k routes) (contains-insert j k h.current_id h.task_id_map)
                ∙ (or_assoc (contains k h.task_id_map) (key_eq.beq j k) (contains k routes)
                    ∙ ap (λ b. contains k h.task_id_map || b)
                        (sym (contains-cons j k route routes))))
      ]

  contains-retained :
      (k : TaskKey) (routes : List (TaskKey × RouteConfig engine)) (h : HealthCheck)
      → contains k (retained engine remove start routes h).task_id_map ≡ true
      → contains k routes ≡ true
  unfolding contains
  contains-retained k routes h e = elim (Bool-cases (contains k routes)) [
    | inl there ↦ there
    | inr gone ↦ absurd (differ (sym (rw (lookup-retained k routes h) (rw gone refl)) ∙ e))
  ]
    where
      differ : false ≢ true
      differ e = cc

  all_keys :
      (k : TaskKey) (routes : List (TaskKey × RouteConfig engine)) (rest : HealthCheck)
      → (contains k rest.task_id_map ≡ true → contains k routes ≡ true)
      → contains k (submit_all engine remove start rest.task_id_map routes rest).task_id_map
        ≡ contains k routes
  unfolding contains
  all_keys k routes rest h = elim (Bool-cases (contains k rest.task_id_map)) [
    | inl there ↦
        ap is_some (submit_all-keeps k rest.task_id_map routes rest there) ∙ (there ∙ sym (h there))
    | inr new ↦
        submit_all-adds k rest.task_id_map routes rest new ∙ ap (λ b. b || contains k routes) new
  ]

  kept_ids :
      (k : TaskKey) (routes : List (TaskKey × RouteConfig engine)) (h : HealthCheck) (id : ℕ)
      → lookup k h.task_id_map ≡ some id
      → contains k routes ≡ true
      → let rest = retained engine remove start routes h in
        lookup k (submit_all engine remove start rest.task_id_map routes rest).task_id_map ≡ some id
  unfolding contains
  kept_ids k routes h id e there =
      let found = lookup-retained k routes h ∙ (rw there refl ∙ e) in
      submit_all-keeps k _ routes _ (ap is_some found) ∙ found

  -- When the configuration's lock is free and the timer removes and starts the tasks that it is
  -- told to, then after a round the keys of the task map are exactly those that the routes of the
  -- configuration ask for, with their identifier, type of check, targets and least number of
  -- targets, and a task that was there before and is still asked for keeps its id.
  pub do_health_check-keys :
      (poison_error : String) (shared_data : Cell (AppConfig engine)) (h : HealthCheck)
      → shared_data.poisoned ≡ false
      → let (h', answer) = do_health_check engine remove start poison_error shared_data h in
        let services = shared_data.value.api_service_config in
        (answer ≡ ok tt)
        × ((k : TaskKey) → contains k h'.task_id_map ≡ asks_for engine k services)
        × ((k : TaskKey) (id : ℕ)
            → lookup k h.task_id_map ≡ some id
            → asks_for engine k services ≡ true
            → lookup k h'.task_id_map ≡ some id)
  unfolding do_health_check contains
  do_health_check-keys poison_error shared_data h good =
      let services = shared_data.value.api_service_config in
      let routes = route_list engine services [] in
      let same = λ (k : TaskKey). route_list-contains engine k services [] in
      rw good (
        refl,
        λ k.
            all_keys k routes (retained engine remove start routes h) (contains-retained k routes h)
            ∙ same k,
        λ k id e asked. kept_ids k routes h id e (same k ∙ asked),
      )
