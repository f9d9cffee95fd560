-- ===== src/Thermostat.antt =====
-- src/aio_landing/s40_client.{h,cpp}: the client of the thermostat. A JSON document is a value with
-- its members in order and no key twice, as `boost::json` parses it. What an exception leaves in the
-- result so far is kept, as in the source. The locks and the log output are left out.
pub mod Fetch
pub mod Read
pub mod Rounds
pub mod Cycles
mod Tests
use localsoftware.Common.{ℕ, Bool, true, false, List, [], ◌∷◌, Option, none, some, if◌then◌else◌}
use localsoftware.Common.Int.{ℤ, pos}
use localsoftware.Common.Maps.{bytes_beq}
use localsoftware.Common.Text.{codes}

mutual
  pub data Value : Type 0 where
    null : Value
    bool_value : Bool → Value
    -- The `int` that `to_number<int>` returns for the number, if it does not throw.
    number : Option ℤ → Value
    string_value : List ℕ → Value
    array : Items → Value
    object : Members → Value

  pub data Items : Type 0 where
    no_items : Items
    item : Value → Items → Items

  pub data Members : Type 0 where
    no_members : Members
    member : List ℕ → Value → Members → Members

-- `contains` and `at`.
unfoldable pub at_key : List ℕ → Members → Option Value
at_key key no_members = none
at_key key (member k v rest) =
    let later = at_key key rest in if bytes_beq k key then some v else later

-- `is_object` and `as_object`; `is_array` and `as_array`.
abbrev pub as_object : Value → Option Members
as_object (object m) = some m
as_object null = none
as_object (bool_value b) = none
as_object (number n) = none
as_object (string_value s) = none
as_object (array l) = none

abbrev pub as_array : Value → Option Items
as_array (array l) = some l
as_array null = none
as_array (bool_value b) = none
as_array (number n) = none
as_array (string_value s) = none
as_array (object m) = none

-- `to_number<int>`, `as_bool` and `as_string`, which throw on other values.
abbrev pub to_number : Value → Option ℤ
to_number (number n) = n
to_number null = none
to_number (bool_value b) = none
to_number (string_value s) = none
to_number (array l) = none
to_number (object m) = none

abbrev pub as_bool : Value → Option Bool
as_bool (bool_value b) = some b
as_bool null = none
as_bool (number n) = none
as_bool (string_value s) = none
as_bool (array l) = none
as_bool (object m) = none

abbrev pub as_string : Value → Option (List ℕ)
as_string (string_value s) = some s
as_string null = none
as_string (bool_value b) = none
as_string (number n) = none
as_string (array l) = none
as_string (object m) = none

-- A member that is an object, or an array: `contains(key) && at(key).is_object()`.
abbrev pub object_at : List ℕ → Members → Option Members
object_at key m = elim (at_key key m) [ none ↦ none | some v ↦ as_object v ]

abbrev pub array_at : List ℕ → Members → Option Items
array_at key m = elim (at_key key m) [ none ↦ none | some v ↦ as_array v ]

pub record ZoneData : Type 0 where
  pub temperature : ℤ
  pub setpoint : ℤ
  pub humidity : ℤ
  pub fan : Bool
  pub mode : List ℕ
  pub valid : Bool

abbrev pub no_data : ZoneData
no_data = record {
  temperature = pos 0;
  setpoint = pos 0;
  humidity = pos 0;
  fan = false;
  mode = [];
  valid = false;
}

-- How far the reading of a reply came: to the label `finished`, on to what follows, or to an exception.
pub data Walk : Type 0 where
  finished going raised : ZoneData → Walk

-- One statement after the other.
abbrev pub and_then : Walk → (ZoneData → Walk) → Walk
and_then (finished r) k = finished r
and_then (going r) k = k r
and_then (raised r) k = raised r

-- `result.field = …; result.valid = true;`, unless the conversion throws.
abbrev pub store_value {ℓ} : {A : Type ℓ} → Option A → (A → ZoneData → ZoneData) → ZoneData → Walk
store_value none store r = raised r
store_value (some x) store r = going (record (store x r) { valid = true })

-- `if (status.contains(key))`, with what is found there.
abbrev pub read_value {ℓ} :
    {A : Type ℓ} → Option Value → (Value → Option A) → (A → ZoneData → ZoneData) → ZoneData → Walk
read_value none convert store r = going r
read_value (some v) convert store r = store_value (convert v) store r

abbrev pub read_field {ℓ} :
    {A : Type ℓ}
    → List ℕ
    → Members
    → (Value → Option A)
    → (A → ZoneData → ZoneData)
    → ZoneData
    → Walk
read_field key m = read_value (at_key key m)

abbrev pub read_temperature : Members → ZoneData → Walk
read_temperature m =
    read_field (codes "temperature") m to_number
      (λ (n : ℤ) (r : ZoneData). record r { temperature = n })

abbrev pub read_humidity : Members → ZoneData → Walk
read_humidity m =
    read_field (codes "humidity") m to_number (λ (n : ℤ) (r : ZoneData). record r { humidity = n })

abbrev pub read_fan : Members → ZoneData → Walk
read_fan m = read_field (codes "fan") m as_bool (λ (b : Bool) (r : ZoneData). record r { fan = b })

abbrev pub read_mode : Members → ZoneData → Walk
read_mode m =
    read_field (codes "systemMode") m as_string
      (λ (s : List ℕ) (r : ZoneData). record r { mode = s })

abbrev pub read_setpoint : Members → ZoneData → Walk
read_setpoint m =
    read_field (codes "sp") m to_number (λ (n : ℤ) (r : ZoneData). record r { setpoint = n })

abbrev pub read_period_of : Option Members → ZoneData → Walk
read_period_of none r = going r
read_period_of (some period) r = and_then (read_mode period r) (read_setpoint period)

unfoldable pub read_period : Members → ZoneData → Walk
read_period m = read_period_of (object_at (codes "period") m)

-- `if (result.valid) goto finished`.
abbrev pub finish_if : Bool → ZoneData → Walk
finish_if b r = if b then finished r else going r

unfoldable pub read_status : Members → ZoneData → Walk
read_status m r = and_then (read_temperature m r) λ r.
    and_then (read_humidity m r)
      λ r. and_then (read_fan m r) λ r. and_then (read_period m r) λ r. finish_if r.valid r

abbrev pub read_status_of : Option Members → ZoneData → Walk
read_status_of none r = going r
read_status_of (some status) r = read_status status r

-- `zones[0].as_object()` throws if the first zone is no object.
abbrev pub read_zone : Option Members → ZoneData → Walk
read_zone none r = raised r
read_zone (some zone) r = read_status_of (object_at (codes "status") zone) r

unfoldable pub read_zones : Items → ZoneData → Walk
read_zones no_items r = going r
read_zones (item z0 rest) r = read_zone (as_object z0) r

abbrev pub read_zones_of : Option Items → ZoneData → Walk
read_zones_of none r = going r
read_zones_of (some zones) r = read_zones zones r

abbrev pub read_data : Option Members → ZoneData → Walk
read_data none r = going r
read_data (some data_obj) r = read_zones_of (array_at (codes "zones") data_obj) r

abbrev pub read_fields : Option Members → ZoneData → Walk
read_fields none r = going r
read_fields (some fields) r = read_data (object_at (codes "Data") fields) r

unfoldable pub read_message : Value → ZoneData → Walk
read_message msg r = read_fields (as_object msg) r

unfoldable pub read_messages : Items → ZoneData → Walk
read_messages no_items r = going r
read_messages (item msg rest) r = and_then (read_message msg r) (read_messages rest)

abbrev pub read_messages_of : Option Items → ZoneData → Walk
read_messages_of none r = going r
read_messages_of (some messages) r = read_messages messages r

abbrev pub read_object : Option Members → ZoneData → Walk
read_object none r = going r
read_object (some obj) r = read_messages_of (array_at (codes "messages") obj) r

-- What is done with the document of a reply.
unfoldable pub read_reply : Value → ZoneData → Walk
read_reply jv r = read_object (as_object jv) r

-- `S40Client`, as far as the getters show it.
pub record S40Client : Type 0 where
  pub temperature_ : ℤ
  pub setpoint_ : ℤ
  pub humidity_ : ℤ
  pub fan_ : Bool
  pub mode_ : List ℕ
  pub data_valid_ : Bool

abbrev pub new_client : S40Client
new_client = record {
  temperature_ = pos 0;
  setpoint_ = pos 0;
  humidity_ = pos 0;
  fan_ = false;
  mode_ = [];
  data_valid_ = false;
}

-- One round of `loop`, with what `fetch_data` returned.
unfoldable pub update_cycle : S40Client → ZoneData → S40Client
update_cycle c d =
    if d.valid
    then record {
      temperature_ = d.temperature;
      setpoint_ = d.setpoint;
      humidity_ = d.humidity;
      fan_ = d.fan;
      mode_ = d.mode;
      data_valid_ = true;
    }
    else c

-- The rounds of `loop` for these results of `fetch_data`.
abbrev pub loop : S40Client → List ZoneData → S40Client
loop c [] = c
loop c (d ∷ ds) = loop (update_cycle c d) ds
