-- ===== src/Thermostat/Cycles.antt =====
-- The state of the thermostat's client after any number of updates.
use localsoftware.Common.{
  ◌≡◌, refl, Bool, true, false, List, [], ◌∷◌, Option, none, some, if◌then◌else◌, ap, ◌∙◌,
}
use localsoftware.Thermostat.{ZoneData, S40Client, update_cycle, loop}

-- The last valid result, if there is one.
abbrev pub last_valid : List ZoneData → Option ZoneData → Option ZoneData
last_valid [] last = last
last_valid (d ∷ ds) last = last_valid ds (if d.valid then some d else last)

-- What the getters show of a result.
abbrev pub shown : S40Client → Option ZoneData → S40Client
shown c none = c
shown c (some d) = record {
  temperature_ = d.temperature;
  setpoint_ = d.setpoint;
  humidity_ = d.humidity;
  fan_ = d.fan;
  mode_ = d.mode;
  data_valid_ = true;
}

shown_update :
    (c : S40Client) (last : Option ZoneData) (d : ZoneData)
    → update_cycle (shown c last) d ≡ shown c (if d.valid then some d else last)
unfolding update_cycle
shown_update c last d = go d.valid
  where
    go :
        (b : Bool)
        → (if b then shown c (some d) else shown c last) ≡ shown c (if b then some d else last)
    go true = refl
    go false = refl

loop-shown :
    (c : S40Client) (last : Option ZoneData) (ds : List ZoneData)
    → loop (shown c last) ds ≡ shown c (last_valid ds last)
loop-shown c last [] = refl
loop-shown c last (d ∷ ds) =
    ap (λ t. loop t ds) (shown_update c last d) ∙ loop-shown c (if d.valid then some d else last) ds

-- After any number of updates the client shows the last valid result, and what it showed at first if
-- no result was valid.
pub loop_lem : (c : S40Client) (ds : List ZoneData) → loop c ds ≡ shown c (last_valid ds none)
loop_lem c ds = loop-shown c none ds
