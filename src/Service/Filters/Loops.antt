-- ===== src/Service/Filters/Loops.antt =====
-- The loops of the filters, entry by entry.
use unified_ephemeral_runner.Common.{
  String, ◌≡◌, refl, sym, ap, ◌∙◌, subst, ◌⊎◌, inl, inr, Bool, true, false, not, ◌&&◌, Option, none,
  some, List, [], ◌∷◌, arith, ◌==◌, string_eq, nat_eq, pair_eq, Dict, get, Unique, if◌then◌else◌,
  eqb, Bool-cases, then_of, length, any,
}
use unified_ephemeral_runner.Capabilities.{
  contains_capability, normalize_capabilities, names, contains-normalize_capabilities,
}
use unified_ephemeral_runner.Model.{
  Duration, BackendName, BackendConfig, PoolConfig, AllocationRequest,
}
use unified_ephemeral_runner.Service.Filters.{
  FilterError, backend_matches_capabilities, with_normal_capabilities, eligible_each, filtered_pool,
  is_too_long, in_time_each, filter_backends_by_timeout,
}

-- The configuration that passes a test, changed by the filter.
abbrev pub passed :
    (BackendConfig → BackendConfig)
    → (BackendConfig → Bool)
    → Option BackendConfig
    → Option BackendConfig
passed change test none = none
passed change test (some cfg) = if test (change cfg) then some (change cfg) else none

pub get-eligible_each :
    (required excluded : List String) (m : Dict BackendName BackendConfig) (name : BackendName)
    → Unique m
    → get (eligible_each required excluded m) name
      ≡ passed with_normal_capabilities
          (λ cfg. backend_matches_capabilities cfg required excluded)
          (get m name)
unfolding eligible_each get
get-eligible_each required excluded [] name u = refl
get-eligible_each required excluded ((k, cfg) ∷ m) name u = elim (Bool-cases (k == name)) [
  | inl same ↦
      let gone = subst (λ j. get m j ≡ none) ((string_eq.agrees_iff k name).0 same) u.0 in
      ground (arith, get-eligible_each required excluded m name u.1)
  | inr other ↦ ground (arith, get-eligible_each required excluded m name u.1)
]

pub get-in_time_each :
    (timeout : Duration) (m : Dict BackendName BackendConfig) (name : BackendName)
    → Unique m
    → get (in_time_each timeout m) name
      ≡ passed (λ cfg. cfg) (λ cfg. not (is_too_long timeout cfg)) (get m name)
unfolding in_time_each get
get-in_time_each timeout [] name u = refl
get-in_time_each timeout ((k, cfg) ∷ m) name u = elim (Bool-cases (k == name)) [
  | inl same ↦
      let gone = subst (λ j. get m j ≡ none) ((string_eq.agrees_iff k name).0 same) u.0 in
      ground (arith, get-in_time_each timeout m name u.1)
  | inr other ↦ ground (arith, get-in_time_each timeout m name u.1)
]

-- The backend has every capability that the request requires and none that it excludes.
abbrev pub Meets : AllocationRequest → BackendConfig → Type 0
Meets request cfg =
    (capability : String)
    → (capability == "") ≡ false
    → (names request.required_capabilities capability ≡ true
        → names cfg.capabilities capability ≡ true)
      × (names request.excluded_capabilities capability ≡ true
          → names cfg.capabilities capability ≡ false)

pub any-has :
    (p : String → Bool) (xs : List String) (x : String)
    → contains_capability xs x ≡ true
    → any p xs ≡ false
    → p x ≡ false
any-has p [] x h none_of = absurd (ground arith)
any-has p (y ∷ xs) x h none_of = elim (Bool-cases (y == x)) [
  | inl same ↦
      let first : p y ≡ false = ground arith in
      ap p (sym ((string_eq.agrees_iff y x).0 same)) ∙ first
  | inr other ↦ any-has p xs x (ground arith) (ground arith)
]

pub matches-Meets :
    (cfg : BackendConfig) (request : AllocationRequest)
    → backend_matches_capabilities cfg
        (normalize_capabilities request.required_capabilities)
        (normalize_capabilities request.excluded_capabilities)
      ≡ true
    → Meets request cfg
unfolding backend_matches_capabilities
matches-Meets cfg request h capability named =
    let own = contains-normalize_capabilities cfg.capabilities capability named in
    let wanted = contains-normalize_capabilities request.required_capabilities capability named in
    let unwanted = contains-normalize_capabilities request.excluded_capabilities capability named in
    let (has_all, has_none) = both h in
    (
      λ required.
          sym own
          ∙ un_not (
              any-has (λ c. not (contains_capability (normalize_capabilities cfg.capabilities) c)) _
                capability (wanted ∙ required) has_all),
      λ excluded.
          sym own
          ∙ any-has (λ c. contains_capability (normalize_capabilities cfg.capabilities) c) _
              capability (unwanted ∙ excluded) has_none,
    )
  where
    un_not : {b : Bool} → not b ≡ false → b ≡ true
    un_not {b} e = ground arith

    both : {b d : Bool} → (not b && not d) ≡ true → (b ≡ false) × (d ≡ false)
    both {b} {d} e = ground arith

unfoldable pub backends_or :
    Dict BackendName BackendConfig → FilterError ⊎ PoolConfig → Dict BackendName BackendConfig
backends_or kept (inl e) = kept
backends_or kept (inr pool) = pool.backends

pub backends_or-filtered_pool :
    (pool : PoolConfig) (kept : Dict BackendName BackendConfig) (request : AllocationRequest)
    (dropped emptied : FilterError)
    → backends_or kept (filtered_pool pool kept request dropped emptied) ≡ kept
unfolding backends_or
backends_or-filtered_pool pool kept request dropped emptied = ground arith

pub backends_or-filter_backends_by_timeout :
    (pool : PoolConfig) (request : AllocationRequest)
    → eqb request.job_timeout 0 ≡ false
    → backends_or
        (in_time_each request.job_timeout pool.backends)
        (filter_backends_by_timeout pool request)
      ≡ in_time_each request.job_timeout pool.backends
unfolding backends_or filter_backends_by_timeout
backends_or-filter_backends_by_timeout pool request limited = ground arith

pub contains-empty :
    (xs : List String) (x : String) → eqb (length xs) 0 ≡ true → contains_capability xs x ≡ false
contains-empty [] x e = refl
contains-empty (y ∷ xs) x e = absurd (ground arith)

pub passed-cases :
    (change : BackendConfig → BackendConfig) (test : BackendConfig → Bool)
    (o : Option BackendConfig) (cfg' : BackendConfig)
    → passed change test o ≡ some cfg'
    → (cfg : BackendConfig) × (o ≡ some cfg) × (cfg' ≡ change cfg) × (test cfg' ≡ true)
passed-cases change test none cfg' e = absurd (ground arith)
passed-cases change test (some cfg) cfg' e = elim (Bool-cases (test (change cfg))) [
  | inl meets ↦
      let eq : change cfg ≡ cfg' = ap (or_else cfg') (sym (then_of _ _ _ meets) ∙ e) in
      (cfg, refl, sym eq, ap test (sym eq) ∙ meets)
  | inr fails ↦ absurd (ground arith)
]
  where
    or_else : BackendConfig → Option BackendConfig → BackendConfig
    or_else x none = x
    or_else x (some y) = y

pub unasked :
    (values : List String) (capability : String)
    → (capability == "") ≡ false
    → eqb (length (normalize_capabilities values)) 0 ≡ true
    → names values capability ≡ false
unasked values capability named e =
    sym (contains-normalize_capabilities values capability named) ∙ contains-empty _ capability e
