-- ===== src/Web/Stats/Log.antt =====
-- The visit counts of src/logging/visit_stats.cpp against a log of all accesses.
use localsoftware.Common.{
  ℕ, ◌+◌, ◌^◌, ◌<◌, ◌≡◌, ◌≢◌, ◌⊎◌, inl, inr, refl, ◌∙◌, Bool, ◌&&◌, List, [], ◌∷◌, arith,
  Bool-cases, Option-cases,
}
use localsoftware.Common.Maps.{lookup, bytes_beq, bytes_beq_iff, bytes_eq}
use localsoftware.Runtime.Ids.{u64}
use localsoftware.Web.Stats.{
  Bins, Visits, in_window, count_bins, get_endpoint_stats, bin_of, add_access, register_service,
}
use localsoftware.Web.Stats.Count.{
  one_if, registrations, get_endpoint_stats-add_access, get_endpoint_stats-add_access_ne,
}

-- A call of `add_access`: the service, the endpoint and the time.
pub record Access : Type 0 where
  pub service : List ℕ
  pub endpoint : List ℕ
  pub time : ℕ

-- The calls one after the other.
abbrev pub add_accesses : Visits → List Access → Visits
add_accesses visits [] = visits
add_accesses visits (a ∷ log) = add_accesses (add_access visits a.service a.endpoint a.time) log

abbrev pub matches : List ℕ → List ℕ → ℕ → ℕ → Access → Bool
matches service endpoint start end a =
    bytes_beq a.service service
    && (bytes_beq a.endpoint endpoint && in_window start end (bin_of a.time))

-- How many accesses of the log are of this endpoint, in a bin that starts in the window.
abbrev pub count_matches : List ℕ → List ℕ → ℕ → ℕ → List Access → ℕ
count_matches service endpoint start end [] = 0
count_matches service endpoint start end (a ∷ log) =
    one_if (matches service endpoint start end a) + count_matches service endpoint start end log

registrations-add_access :
    (visits : Visits) (name service endpoint : List ℕ) (now : ℕ)
    → registrations name (add_access visits service endpoint now) ≡ registrations name visits
unfolding add_access
registrations-add_access [] name service endpoint now = refl
registrations-add_access ((n, m) ∷ visits) name service endpoint now =
    ground (arith, registrations-add_access visits name service endpoint now)

count_bins_small :
    (start end : ℕ) (bins : Bins) (total : ℕ)
    → total < 2 ^ 64
    → count_bins start end bins total < 2 ^ 64
unfolding count_bins
count_bins_small start end [] total h = h
count_bins_small start end ((time, count) ∷ bins) total h =
    elim (Bool-cases (in_window start end time)) [
      | inl e ↦ rw e (count_bins_small start end bins (u64 (total + count)) (omega arith))
      | inr e ↦ rw e (count_bins_small start end bins total h)
    ]

stats_small :
    (visits : Visits) (service endpoint : List ℕ) (start end : ℕ)
    → get_endpoint_stats visits service endpoint start end < 2 ^ 64
unfolding get_endpoint_stats
stats_small [] service endpoint start end = omega arith
stats_small ((name, m) ∷ visits) service endpoint start end =
    let later = stats_small visits service endpoint start end in
    elim (Bool-cases (bytes_beq name service)) [
      | inl e ↦ elim (Option-cases (lookup endpoint m)) [
        | inl f ↦ rw (e, f) later
        | inr (bins, f) ↦ rw (e, f) (count_bins_small start end bins 0 (omega arith))
      ]
      | inr e ↦ rw e later
    ]

-- One access, whatever it is of.
any_access :
    (visits : Visits) (service endpoint name point : List ℕ) (now start end : ℕ)
    → registrations service visits ≡ 1
    → get_endpoint_stats (add_access visits name point now) service endpoint start end
      ≡ u64 (
          get_endpoint_stats visits service endpoint start end
          + one_if (
              bytes_beq name service
              && (bytes_beq point endpoint && in_window start end (bin_of now))))
any_access visits service endpoint name point now start end h =
    let same : get_endpoint_stats visits service endpoint start end
        ≡ u64 (get_endpoint_stats visits service endpoint start end + 0) =
      omega (arith, stats_small visits service endpoint start end) in
    let kept : (name ≢ service) ⊎ (point ≢ endpoint)
        → get_endpoint_stats (add_access visits name point now) service endpoint start end
          ≡ u64 (get_endpoint_stats visits service endpoint start end + 0) =
      λ ne.
        get_endpoint_stats-add_access_ne visits name point service endpoint now start end ne
        ∙ same in
    elim (Bool-cases (bytes_beq name service)) [
      | inl e ↦ elim (Bool-cases (bytes_beq point endpoint)) [
        | inl f ↦
            rw (e, f, (bytes_beq_iff name service).0 e, (bytes_beq_iff point endpoint).0 f)
              (get_endpoint_stats-add_access visits service endpoint now start end h)
        | inr f ↦ rw (e, f) (kept (inr λ q. ground (arith, (bytes_beq_iff point endpoint).1 q)))
      ]
      | inr e ↦ rw e (kept (inl λ q. ground (arith, (bytes_beq_iff name service).1 q)))
    ]

run-add_accesses :
    (log : List Access) (visits : Visits) (service endpoint : List ℕ) (start end : ℕ)
    → registrations service visits ≡ 1
    → get_endpoint_stats (add_accesses visits log) service endpoint start end
      ≡ u64 (
          get_endpoint_stats visits service endpoint start end
          + count_matches service endpoint start end log)
run-add_accesses [] visits service endpoint start end h =
    omega (arith, stats_small visits service endpoint start end)
run-add_accesses (a ∷ log) visits service endpoint start end h = omega (
  arith,
  any_access visits service endpoint a.service a.endpoint a.time start end h,
  run-add_accesses log (add_access visits a.service a.endpoint a.time) service endpoint start end
      (registrations-add_access visits service a.service a.endpoint a.time ∙ h),
)

registrations-register_service :
    (visits : Visits) (service : List ℕ)
    → registrations service (register_service visits service) ≡ registrations service visits + 1
unfolding register_service
registrations-register_service [] service = ground (arith, (bytes_beq_iff service service).1 refl)
registrations-register_service ((n, m) ∷ visits) service =
    ground (arith, registrations-register_service visits service)

new_service :
    (visits : Visits) (service endpoint : List ℕ) (start end : ℕ)
    → registrations service visits ≡ 0
    → get_endpoint_stats (register_service visits service) service endpoint start end ≡ 0
unfolding register_service get_endpoint_stats lookup
new_service [] service endpoint start end h = ground (arith, (bytes_beq_iff service service).1 refl)
new_service ((n, m) ∷ visits) service endpoint start end h =
    ground (arith, new_service visits service endpoint start end)

-- When a service is registered for the first time and any accesses follow, of it or of others, the
-- count of each of its endpoints over each window is the number of the accesses of that endpoint in
-- bins that start in the window, modulo 2 ^ 64.
pub get_endpoint_stats-add_accesses :
    (visits : Visits) (log : List Access) (service endpoint : List ℕ) (start end : ℕ)
    → registrations service visits ≡ 0
    → get_endpoint_stats
        (add_accesses (register_service visits service) log)
        service
        endpoint
        start
        end
      ≡ u64 (count_matches service endpoint start end log)
get_endpoint_stats-add_accesses visits log service endpoint start end h =
    let once : registrations service (register_service visits service) ≡ 1 =
      omega (arith, registrations-register_service visits service, h) in
    omega (
      arith,
      run-add_accesses log (register_service visits service) service endpoint start end once,
      new_service visits service endpoint start end h,
    )
