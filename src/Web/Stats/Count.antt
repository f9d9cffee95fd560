-- ===== src/Web/Stats/Count.antt =====
-- What an access changes in the counts.
use localsoftware.Common.{
  ℕ, ◌+◌, ◌^◌, ◌<◌, ◌≡◌, ◌≢◌, ◌⊎◌, refl, Bool, true, false, List, [], ◌∷◌, none, some, ◌==◌,
  if◌then◌else◌, arith, Option-cases, Bool-cases, inl, inr, ap,
}
use localsoftware.Common.Maps.{
  Map, lookup, insert, bytes_eq, bytes_beq, bytes_beq_iff, lookup-insert, lookup-insert_self,
}
use localsoftware.Runtime.Ids.{u64}
use localsoftware.Web.Stats.{
  Bins, Visits, in_window, count_bins, get_endpoint_stats, raise, bins_of, bin_of, add_access,
}

abbrev pub one_if : Bool → ℕ
one_if b = if b then 1 else 0

next_total : Bool → ℕ → ℕ → ℕ
next_total b total count = if b then u64 (total + count) else total

next_small : (b : Bool) (total count : ℕ) → total < 2 ^ 64 → next_total b total count < 2 ^ 64
unfolding next_total
next_small true total count h = omega arith
next_small false total count h = h

same_bin :
    (b : Bool) (total count : ℕ)
    → total < 2 ^ 64
    → (if b then u64 (total + u64 (count + 1)) else total)
      ≡ u64 ((if b then u64 (total + count) else total) + one_if b)
same_bin true total count h = omega arith
same_bin false total count h = omega arith

new_bin :
    (b : Bool) (total : ℕ)
    → total < 2 ^ 64
    → (if b then u64 (total + 1) else total) ≡ u64 (total + one_if b)
new_bin true total h = refl
new_bin false total h = omega arith

count_bins-raise :
    (start end : ℕ) (bins : Bins) (bin total : ℕ)
    → total < 2 ^ 64
    → count_bins start end (raise bins bin) total
      ≡ u64 (count_bins start end bins total + one_if (in_window start end bin))
unfolding count_bins raise next_total
count_bins-raise start end [] bin total h = new_bin (in_window start end bin) total h
count_bins-raise start end ((time, count) ∷ []) bin total h = elim (Bool-cases (bin == time)) [
  | inl e ↦
      let s : bin ≡ time = ground arith in
      rw (e, s) (same_bin (in_window start end time) total count h)
  | inr e ↦ rw e (
      new_bin (in_window start end bin) (next_total (in_window start end time) total count)
        (next_small (in_window start end time) total count h))
]
count_bins-raise start end ((time, count) ∷ c ∷ bins) bin total h =
    count_bins-raise start end (c ∷ bins) bin (next_total (in_window start end time) total count)
      (next_small (in_window start end time) total count h)

-- How often a service is registered.
abbrev pub registrations : List ℕ → Visits → ℕ
registrations service [] = 0
registrations service ((name, _) ∷ visits) =
    one_if (bytes_beq name service) + registrations service visits

pub unknown :
    (visits : Visits) (service endpoint : List ℕ) (start end : ℕ)
    → registrations service visits ≡ 0
    → get_endpoint_stats visits service endpoint start end ≡ 0
unfolding get_endpoint_stats
unknown [] service endpoint start end h = refl
unknown ((name, m) ∷ visits) service endpoint start end h =
    ground (arith, unknown visits service endpoint start end)

unknown-add_access :
    (visits : Visits) (service endpoint : List ℕ) (now : ℕ)
    → registrations service visits ≡ 0
    → registrations service (add_access visits service endpoint now) ≡ 0
unfolding add_access
unknown-add_access [] service endpoint now h = refl
unknown-add_access ((name, m) ∷ visits) service endpoint now h =
    ground (arith, unknown-add_access visits service endpoint now)

here :
    (m : Map (List ℕ) Bins) (visits : Visits) (service endpoint : List ℕ) (start end bin : ℕ)
    → registrations service visits ≡ 0
    → count_bins start end (raise (bins_of m endpoint) bin) 0
      ≡ u64 (
          (elim (lookup endpoint m) [
            | none ↦ get_endpoint_stats visits service endpoint start end
            | some bins ↦ count_bins start end bins 0
          ])
          + one_if (in_window start end bin))
unfolding count_bins
here m visits service endpoint start end bin h = elim (Option-cases (lookup endpoint m)) [
  | inl e ↦
      let b : bins_of m endpoint ≡ [] = ground arith in
      rw (b, e, unknown visits service endpoint start end h)
        (count_bins-raise start end [] bin 0 (omega arith))
  | inr (bins, e) ↦
      let b : bins_of m endpoint ≡ bins = ground arith in
      rw (b, e) (count_bins-raise start end bins bin 0 (omega arith))
]

-- An access of a service that is registered once raises by one, modulo 2 ^ 64, the count of the
-- endpoint over every window that holds the start of the access's bin, and leaves its count over every
-- other window as it was.
pub get_endpoint_stats-add_access :
    (visits : Visits) (service endpoint : List ℕ) (now start end : ℕ)
    → registrations service visits ≡ 1
    → get_endpoint_stats (add_access visits service endpoint now) service endpoint start end
      ≡ u64 (
          get_endpoint_stats visits service endpoint start end
          + (if in_window start end (bin_of now) then 1 else 0))
unfolding get_endpoint_stats add_access
get_endpoint_stats-add_access [] service endpoint now start end h = absurd (omega arith)
get_endpoint_stats-add_access ((name, m) ∷ visits) service endpoint now start end h =
    elim (Bool-cases (bytes_beq name service)) [
      | inl e ↦
          let rest : registrations service visits ≡ 0 = ground (arith, h, e) in
          rw (e, e, lookup-insert_self endpoint (raise (bins_of m endpoint) (bin_of now)) m)
            (here m visits service endpoint start end (bin_of now) rest)
      | inr e ↦
          let rest : registrations service visits ≡ 1 = ground (arith, h, e) in
          rw (e, e) (get_endpoint_stats-add_access visits service endpoint now start end rest)
    ]

-- An access changes no count of another endpoint, nor of another service.
pub get_endpoint_stats-add_access_ne :
    (visits : Visits) (service endpoint service' endpoint' : List ℕ) (now start end : ℕ)
    → (service ≢ service') ⊎ (endpoint ≢ endpoint')
    → get_endpoint_stats (add_access visits service endpoint now) service' endpoint' start end
      ≡ get_endpoint_stats visits service' endpoint' start end
unfolding get_endpoint_stats add_access
get_endpoint_stats-add_access_ne [] service endpoint service' endpoint' now start end h = refl
get_endpoint_stats-add_access_ne ((name, m) ∷ visits) service endpoint service' endpoint' now start
      end h =
    let ih =
      get_endpoint_stats-add_access_ne visits service endpoint service' endpoint' now start end h in
    let v = raise (bins_of m endpoint) (bin_of now) in
    let with_later : ℕ → ℕ = λ later.
      if bytes_beq name service'
      then elim (lookup endpoint' m) [ none ↦ later | some bins ↦ count_bins start end bins 0 ]
      else later in
    elim (Bool-cases (bytes_beq name service)) [
      | inl e ↦ elim h [
        | inl ne ↦
            let other : bytes_beq name service' ≡ false =
              ground (arith, (bytes_beq_iff name service).0 e, bytes_beq_iff name service') in
            rw (e, other) ih
        | inr ne ↦
            let same : lookup endpoint' (insert endpoint v m) ≡ lookup endpoint' m =
              ground
                (arith, lookup-insert endpoint endpoint' v m, bytes_beq_iff endpoint endpoint') in
            rw (e, same) (ap with_later ih)
      ]
      | inr e ↦ rw e (ap with_later ih)
    ]
