-- ===== src/Thermostat/Tests.antt =====
-- A thermostat that answers, and the theorems about its client.
use localsoftware.Common.{
  ℕ, ◌≡◌, refl, true, List, [], ◌∷◌, none, some, ◌==◌, if◌then◌else◌, length,
}
use localsoftware.Common.Int.{pos}
use localsoftware.Common.Text.{codes}
use localsoftware.Thermostat.{
  Value, number, bool_value, string_value, object, array, item, no_items, Members, member,
  no_members, at_key, ZoneData, no_data, finished, new_client, loop, update_cycle, read_reply,
}
use localsoftware.Thermostat.Fetch.{Network, connected, fetch_data}
use localsoftware.Thermostat.Read.{Document, read_reply-finished}
use localsoftware.Thermostat.Rounds.{Fetched, fetch_data-Fetched}
use localsoftware.Thermostat.Cycles.{shown, last_valid, loop_lem}

abbrev zone_data : ZoneData
zone_data = record {
  temperature = pos 21;
  setpoint = pos 20;
  humidity = pos 45;
  fan = true;
  mode = codes "heat";
  valid = true;
}

abbrev only : List ℕ → Value → Members
only key v = member key v no_members

abbrev period_part : Members
period_part =
    member (codes "sp") (number (some (pos 20)))
      (only (codes "systemMode") (string_value (codes "heat")))

abbrev status_part : Members
status_part = member (codes "period") (object period_part) (
    member (codes "fan") (bool_value true) (
      member (codes "humidity") (number (some (pos 45)))
        (only (codes "temperature") (number (some (pos 21))))))

abbrev document : Members
document = only (codes "messages") (
    array (
      item
        (object (
          only (codes "Data") (
            object (
              only (codes "zones")
                (array (item (object (only (codes "status") (object status_part))) no_items))))))
        no_items))

document-Document : Document document zone_data
unfolding at_key
document-Document = record {
  message = only (codes "Data") (
      object (
        only (codes "zones")
          (array (item (object (only (codes "status") (object status_part))) no_items))));
  more_messages = no_items;
  data_obj =
      only (codes "zones")
        (array (item (object (only (codes "status") (object status_part))) no_items));
  zone = only (codes "status") (object status_part);
  more_zones = no_items;
  status = status_part;
  at_messages = refl;
  at_data = refl;
  at_zones = refl;
  at_status = refl;
  holds = record {
    period = period_part;
    temperature = refl;
    humidity = refl;
    fan = refl;
    inner = refl;
    mode = refl;
    setpoint = refl;
  };
}

read_reply-finished_example : read_reply (object document) no_data ≡ finished zone_data
read_reply-finished_example = read_reply-finished document no_data zone_data document-Document

-- Each request is answered, the first retrieval with nothing.
abbrev thermostat : Network
thermostat = record {
  connection = connected;
  answer = λ sent. some (record { status = if length sent == 3 then 204 else 200; body = [] });
  parse = λ _. some (object document);
}

fetch_data-Fetched_example : Fetched thermostat (fetch_data thermostat)
fetch_data-Fetched_example = fetch_data-Fetched thermostat

loop_lem_example :
    loop new_client (zone_data ∷ no_data ∷ [])
    ≡ shown new_client (last_valid (zone_data ∷ no_data ∷ []) none)
loop_lem_example = loop_lem new_client (zone_data ∷ no_data ∷ [])

-- A status of the temperature alone makes the other values appear as zero.
abbrev cold_status : ZoneData
cold_status = record no_data { temperature = pos 19; valid = true }

setpoint_lost : (loop new_client (zone_data ∷ cold_status ∷ [])).setpoint_ ≡ pos 0
unfolding update_cycle
setpoint_lost = refl
