-- ===== src/Thermostat/Read.antt =====
-- Reading the status of the first zone from a reply of the thermostat.
use localsoftware.Common.{Bool, true, false, ◌≡◌, refl, ap, ◌∙◌, Option, none, some}
use localsoftware.Common.Int.{ℤ}
use localsoftware.Common.Text.{codes}
use localsoftware.Thermostat.{
  Value, number, bool_value, string_value, object, Items, no_items, item, Members, at_key,
  object_at, array_at, as_object, to_number, as_bool, as_string, ZoneData, Walk, finished, going,
  raised, and_then, read_value, store_value, read_period_of, finish_if, read_status_of, read_zone,
  read_zones_of, read_data, read_fields, read_messages_of, read_object, read_mode, read_setpoint,
  read_temperature, read_humidity, read_fan, read_period, read_status, read_zones, read_message,
  read_messages, read_reply,
}

-- A status with all five values, at any place and among any other members.
pub record Status (m : Members) (d : ZoneData) : Type 0 where
  pub period : Members
  pub temperature : at_key (codes "temperature") m ≡ some (number (some d.temperature))
  pub humidity : at_key (codes "humidity") m ≡ some (number (some d.humidity))
  pub fan : at_key (codes "fan") m ≡ some (bool_value d.fan)
  pub inner : object_at (codes "period") m ≡ some period
  pub mode : at_key (codes "systemMode") period ≡ some (string_value d.mode)
  pub setpoint : at_key (codes "sp") period ≡ some (number (some d.setpoint))

-- A document whose first message carries that status in its first zone.
pub record Document (obj : Members) (d : ZoneData) : Type 0 where
  pub message : Members
  pub more_messages : Items
  pub data_obj : Members
  pub zone : Members
  pub more_zones : Items
  pub status : Members
  pub at_messages : array_at (codes "messages") obj ≡ some (item (object message) more_messages)
  pub at_data : object_at (codes "Data") message ≡ some data_obj
  pub at_zones : array_at (codes "zones") data_obj ≡ some (item (object zone) more_zones)
  pub at_status : object_at (codes "status") zone ≡ some status
  pub holds : Status status d

read_period-going :
    (m : Members) (r d : ZoneData)
    → Status m d
    → read_period m r ≡ going (record r { mode = d.mode; setpoint = d.setpoint; valid = true })
unfolding read_period
read_period-going m r d s = ap (λ o. read_period_of o r) s.inner ∙ rw (s.mode, s.setpoint) refl

read_status-finished :
    (m : Members) (r d : ZoneData)
    → Status m d
    → read_status m r ≡ finished (record d { valid = true })
unfolding read_status
read_status-finished m r d s =
    let later : ZoneData = record r {
      temperature = d.temperature;
      humidity = d.humidity;
      fan = d.fan;
      valid = true;
    } in
    rw (s.temperature, s.humidity, s.fan, read_period-going m later d s) refl

-- Whatever was read before, a reply whose first message carries all five values in the status of its
-- first zone ends the reading with exactly these values, and they are valid.
pub read_reply-finished :
    (obj : Members) (r d : ZoneData)
    → Document obj d
    → read_reply (object obj) r ≡ finished (record d { valid = true })
unfolding read_reply read_messages read_message read_zones
read_reply-finished obj r d t =
    let zones : read_zones (item (object t.zone) t.more_zones) r
        ≡ finished (record d { valid = true }) =
      ap (λ o. read_status_of o r) t.at_status ∙ read_status-finished t.status r d t.holds in
    let message : read_message (object t.message) r ≡ finished (record d { valid = true }) =
      ap (λ o. read_data o r) t.at_data ∙ (ap (λ o. read_zones_of o r) t.at_zones ∙ zones) in
    ap (λ o. read_messages_of o r) t.at_messages
    ∙ ap (λ x. and_then x (read_messages t.more_messages)) message

-- A reading ends at the label only with valid data.
abbrev pub IsSound : Walk → Type 0
IsSound (finished r) = r.valid ≡ true
IsSound (going r) = Unit {0}
IsSound (raised r) = Unit {0}

and_then-IsSound :
    (x : Walk) (k : ZoneData → Walk)
    → IsSound x
    → ((r : ZoneData) → IsSound (k r))
    → IsSound (and_then x k)
and_then-IsSound (finished r) k h f = h
and_then-IsSound (going r) k h f = f r
and_then-IsSound (raised r) k h f = tt

read_value-IsSound {ℓ} :
    {A : Type ℓ} (o : Option Value) (convert : Value → Option A) (store : A → ZoneData → ZoneData)
    (r : ZoneData)
    → IsSound (read_value o convert store r)
read_value-IsSound {A = A} none convert store r = tt
read_value-IsSound {A = A} (some v) convert store r = converted (convert v)
  where
    converted : (o : Option A) → IsSound (store_value o store r)
    converted none = tt
    converted (some x) = tt

read_period-IsSound : (m : Members) (r : ZoneData) → IsSound (read_period m r)
unfolding read_period
read_period-IsSound m r = go (object_at (codes "period") m)
  where
    go : (o : Option Members) → IsSound (read_period_of o r)
    go none = tt
    go (some period) =
        and_then-IsSound (read_mode period r) (read_setpoint period)
          (read_value-IsSound (at_key (codes "systemMode") period) as_string _ r)
          (read_value-IsSound (at_key (codes "sp") period) to_number _)

finish_if-IsSound : (r : ZoneData) (b : Bool) → r.valid ≡ b → IsSound (finish_if b r)
finish_if-IsSound r true e = e
finish_if-IsSound r false e = tt

read_status-IsSound : (m : Members) (r : ZoneData) → IsSound (read_status m r)
unfolding read_status
read_status-IsSound m r =
    and_then-IsSound (read_temperature m r) _
      (read_value-IsSound (at_key (codes "temperature") m) to_number
        (λ (n : ℤ) (d : ZoneData). record d { temperature = n }) r)
      λ r.
        and_then-IsSound (read_humidity m r) _
          (read_value-IsSound (at_key (codes "humidity") m) to_number
            (λ (n : ℤ) (d : ZoneData). record d { humidity = n }) r)
          λ r.
            and_then-IsSound (read_fan m r) _
              (read_value-IsSound (at_key (codes "fan") m) as_bool
                (λ (b : Bool) (d : ZoneData). record d { fan = b }) r)
              λ r.
                and_then-IsSound (read_period m r) _ (read_period-IsSound m r)
                  λ r. finish_if-IsSound r r.valid refl

read_zones-IsSound : (l : Items) (r : ZoneData) → IsSound (read_zones l r)
unfolding read_zones
read_zones-IsSound no_items r = tt
read_zones-IsSound (item z0 rest) r = first (as_object z0)
  where
    inner : (o : Option Members) → IsSound (read_status_of o r)
    inner none = tt
    inner (some status) = read_status-IsSound status r

    first : (o : Option Members) → IsSound (read_zone o r)
    first none = tt
    first (some zone) = inner (object_at (codes "status") zone)

read_message-IsSound : (msg : Value) (r : ZoneData) → IsSound (read_message msg r)
unfolding read_message
read_message-IsSound msg r = fields (as_object msg)
  where
    zones : (o : Option Items) → IsSound (read_zones_of o r)
    zones none = tt
    zones (some l) = read_zones-IsSound l r

    data_obj : (o : Option Members) → IsSound (read_data o r)
    data_obj none = tt
    data_obj (some m) = zones (array_at (codes "zones") m)

    fields : (o : Option Members) → IsSound (read_fields o r)
    fields none = tt
    fields (some m) = data_obj (object_at (codes "Data") m)

read_messages-IsSound : (l : Items) (r : ZoneData) → IsSound (read_messages l r)
unfolding read_messages
read_messages-IsSound no_items r = tt
read_messages-IsSound (item msg rest) r =
    and_then-IsSound (read_message msg r) (read_messages rest) (read_message-IsSound msg r)
      (read_messages-IsSound rest)

pub read_reply-IsSound : (jv : Value) (r : ZoneData) → IsSound (read_reply jv r)
unfolding read_reply
read_reply-IsSound jv r = top (as_object jv)
  where
    messages : (o : Option Items) → IsSound (read_messages_of o r)
    messages none = tt
    messages (some l) = read_messages-IsSound l r

    top : (o : Option Members) → IsSound (read_object o r)
    top none = tt
    top (some m) = messages (array_at (codes "messages") m)
