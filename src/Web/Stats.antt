-- ===== src/Web/Stats.antt =====
-- src/logging/visit_stats.{h,cpp}: accesses of the endpoints of each service, counted in bins of
-- `delta` seconds. Strings are lists of bytes, times are seconds since the epoch, and the clock is an
-- argument (one value for all services of a name). `get_pretty_stats` only prints.
pub mod Count
pub mod Log
use localsoftware.Common.{
  ℕ, ◌+◌, ◌*◌, ◌-◌, ◌/◌, ◌%◌, ◌^◌, Bool, true, false, ◌&&◌, List, [], ◌∷◌, ◌++◌, Option, none, some,
  leb, ◌==◌, if◌then◌else◌,
}
use localsoftware.Common.Int.{ℤ, pos, negsuc, leb_ℤ, ◌+ℤ◌}
use localsoftware.Common.Maps.{Map, lookup, insert, bytes_beq, bytes_eq}
use localsoftware.Runtime.Ids.{u64}
use localsoftware.Socket.Bytes.{to_int}

abbrev pub delta : ℕ
delta = 240

abbrev pub Bins : Type 0
Bins = List (ℕ × ℕ)

-- `visits_`.
abbrev pub Visits : Type 0
Visits = List (List ℕ × Map (List ℕ) Bins)

-- `start + delta * (signed)end`.
abbrev pub window_end : ℕ → ℕ → ℤ
window_end start end = elim (to_int end) [
  | pos n ↦ pos (start + delta * n)
  | negsuc n ↦ pos start +ℤ negsuc (delta * (n + 1) - 1)
]

abbrev pub in_window : ℕ → ℕ → ℕ → Bool
in_window start end time = leb start time && leb_ℤ (pos time) (window_end start end)

-- The loop over the bins of an endpoint.
unfoldable pub count_bins : ℕ → ℕ → Bins → ℕ → ℕ
count_bins start end [] total = total
count_bins start end ((time, count) ∷ bins) total =
    count_bins start end bins (if in_window start end time then u64 (total + count) else total)

unfoldable pub get_endpoint_stats : Visits → List ℕ → List ℕ → ℕ → ℕ → ℕ
unfolding count_bins lookup
get_endpoint_stats [] service endpoint start end = 0
get_endpoint_stats ((name, endpoints) ∷ visits) service endpoint start end =
    let later = get_endpoint_stats visits service endpoint start end in
    if bytes_beq name service
    then elim (lookup endpoint endpoints) [ none ↦ later | some bins ↦ count_bins start end bins 0 ]
    else later

-- The last bin is raised if it is the current one, else a new bin is opened.
unfoldable pub raise : Bins → ℕ → Bins
raise [] bin = (bin, 1) ∷ []
raise ((time, count) ∷ []) bin =
    if bin == time then (time, u64 (count + 1)) ∷ [] else (time, count) ∷ (bin, 1) ∷ []
raise (b ∷ c ∷ bins) bin = b ∷ raise (c ∷ bins) bin

-- `visits_for_service.second[endpoint]`.
abbrev pub bins_of : Map (List ℕ) Bins → List ℕ → Bins
bins_of endpoints endpoint = elim (lookup endpoint endpoints) [ none ↦ [] | some bins ↦ bins ]

abbrev pub bin_of : ℕ → ℕ
bin_of now = now / delta * delta

unfoldable pub add_access : Visits → List ℕ → List ℕ → ℕ → Visits
unfolding raise insert
add_access [] service endpoint now = []
add_access ((name, endpoints) ∷ visits) service endpoint now =
    let later = add_access visits service endpoint now in
    if bytes_beq name service
    then (name, insert endpoint (raise (bins_of endpoints endpoint) (bin_of now)) endpoints) ∷ later
    else (name, endpoints) ∷ later

pub register_service : Visits → List ℕ → Visits
register_service visits service = visits ++ (service, []) ∷ []
