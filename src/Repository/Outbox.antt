-- ===== src/Repository/Outbox.antt =====
-- The notification outbox of repository.py: enqueue_outbox, list_pending_outbox, claim_outbox,
-- complete_outbox, fail_outbox and mark_outbox_delivered.
pub mod Delivery
use astrbot_community_plugin.Prelude.{
  ℕ, ◌+◌, String, Bool, true, false, not, ◌&&◌, ◌||◌, Option, none, some, List, [], ◌∷◌, map, ◌==◌,
  nat_eq, string_eq, option_eq, ltb, leb, if◌then◌else◌, member, find, filter, take,
}
use astrbot_community_plugin.Prelude.Dict.{get, put}
use astrbot_community_plugin.Prelude.Sorting.{sort}
use astrbot_community_plugin.Prelude.TextOrder.{pair_le}
use astrbot_community_plugin.Json.{Object}
use astrbot_community_plugin.Repository.Rows.{OutboxStatus, outbox_status_eq, OutboxEvent}
use astrbot_community_plugin.Repository.{or_text}
use astrbot_community_plugin.Repository.Jobs.{lease_expired}

abbrev pub event_key : OutboxEvent → String
event_key e = e.id

-- `payload` of `enqueue_outbox`; an empty id is a missing one.
pub record OutboxRequest : Type 0 where
  pub id : String
  pub event_type : String
  pub aggregate_type : String
  pub aggregate_id : String
  pub recipient_user_id : Option String
  pub payload : Object
  pub dedupe_key : String

unfoldable pub new_event : ℕ → String → OutboxRequest → OutboxEvent
new_event now fresh request = record {
  id = or_text request.id fresh;
  event_type = request.event_type;
  aggregate_type = request.aggregate_type;
  aggregate_id = request.aggregate_id;
  recipient_user_id = request.recipient_user_id;
  payload = request.payload;
  dedupe_key = request.dedupe_key;
  status = OutboxStatus.queued;
  attempts = 0;
  available_at = now;
  lease_owner = none;
  lease_expires_at = none;
  delivered_at = none;
  last_error = "";
  created_at = now;
  updated_at = now;
}

abbrev pub event_with_key : String → List OutboxEvent → Option OutboxEvent
event_with_key key = find (λ e. e.dedupe_key == key)

unfoldable pub enqueue_found :
    ℕ
    → String
    → OutboxRequest
    → List OutboxEvent
    → Option OutboxEvent
    → OutboxEvent × List OutboxEvent
unfolding new_event
enqueue_found now fresh request events (some event) = (event, events)
enqueue_found now fresh request events none =
    let event = new_event now fresh request in (event, put event_key event events)

unfoldable pub enqueue_outbox :
    ℕ → String → OutboxRequest → List OutboxEvent → OutboxEvent × List OutboxEvent
unfolding enqueue_found
enqueue_outbox now fresh request events =
    enqueue_found now fresh request events (event_with_key request.dedupe_key events)

unfoldable pub list_pending_outbox : ℕ → List OutboxEvent → List OutboxEvent
list_pending_outbox limit events = take limit (
    sort (λ a b. leb a.created_at b.created_at)
      (filter (λ e. e.status == OutboxStatus.queued || e.status == OutboxStatus.failed) events))

unfoldable pub is_candidate : ℕ → OutboxEvent → Bool
is_candidate now event =
    ltb event.attempts 5
    && ((event.status == OutboxStatus.queued || event.status == OutboxStatus.failed)
          && leb event.available_at now
        || event.status == OutboxStatus.running && lease_expired now event.lease_expires_at)

-- The order of the sort key `(available_at, created_at)`; `texts` gives the two columns of an event.
unfoldable pub claim_order : (OutboxEvent → String × String) → OutboxEvent → OutboxEvent → Bool
unfolding pair_le
claim_order texts a b = pair_le (texts a) (texts b)

unfoldable pub lease_to : ℕ → String → ℕ → OutboxEvent → OutboxEvent
lease_to now worker_id lease event = record event {
  status = OutboxStatus.running;
  attempts = event.attempts + 1;
  lease_owner = some worker_id;
  lease_expires_at = some (now + lease);
  updated_at = now;
}

unfoldable pub claimed_events :
    (OutboxEvent → String × String) → ℕ → ℕ → List OutboxEvent → List OutboxEvent
claimed_events texts now limit events =
    take limit (sort (claim_order texts) (filter (is_candidate now) events))

unfoldable pub lease_claimed : ℕ → String → ℕ → List String → OutboxEvent → OutboxEvent
lease_claimed now worker_id lease ids event =
    if member event.id ids then lease_to now worker_id lease event else event

unfoldable pub claim_outbox :
    (OutboxEvent → String × String)
    → ℕ
    → String
    → ℕ
    → ℕ
    → List OutboxEvent
    → List OutboxEvent × List OutboxEvent
unfolding claimed_events lease_claimed
claim_outbox texts now worker_id limit lease events =
    let claimed = claimed_events texts now limit events in
    (
      map (lease_to now worker_id lease) claimed,
      map (lease_claimed now worker_id lease (map event_key claimed)) events,
    )

unfoldable pub holds_lease : String → OutboxEvent → Bool
holds_lease worker_id event =
    event.status == OutboxStatus.running && event.lease_owner == some worker_id

-- A write to the event with the id, if there is one and it passes the test.
unfoldable pub write_on :
    (OutboxEvent → Bool)
    → (OutboxEvent → OutboxEvent)
    → List OutboxEvent
    → Option OutboxEvent
    → Bool × List OutboxEvent
write_on test change events none = (false, events)
write_on test change events (some event) =
    if test event then (true, put event_key (change event) events) else (false, events)

unfoldable pub delivered : ℕ → OutboxEvent → OutboxEvent
delivered now event = record event {
  status = OutboxStatus.delivered;
  lease_owner = none;
  lease_expires_at = none;
  delivered_at = some now;
  updated_at = now;
}

unfoldable pub complete_outbox : ℕ → String → String → List OutboxEvent → Bool × List OutboxEvent
unfolding write_on delivered holds_lease
complete_outbox now event_id worker_id events =
    write_on (holds_lease worker_id) (delivered now) events (get event_key event_id events)

unfoldable pub failed : ℕ → String → Bool → ℕ → OutboxEvent → OutboxEvent
failed now error_message retry retry_delay event = record event {
  status = if retry && ltb event.attempts 5 then OutboxStatus.failed else OutboxStatus.cancelled;
  available_at = now + retry_delay;
  lease_owner = none;
  lease_expires_at = none;
  last_error = error_message;
  updated_at = now;
}

unfoldable pub fail_outbox :
    ℕ → String → String → String → Bool → ℕ → List OutboxEvent → Bool × List OutboxEvent
unfolding write_on failed holds_lease
fail_outbox now event_id worker_id error_message retry retry_delay events =
    write_on (holds_lease worker_id) (failed now error_message retry retry_delay) events
      (get event_key event_id events)

unfoldable pub undelivered : OutboxEvent → Bool
undelivered event = not (event.status == OutboxStatus.delivered)

unfoldable pub marked : ℕ → OutboxEvent → OutboxEvent
marked now event = record event {
  status = OutboxStatus.delivered;
  delivered_at = some now;
  updated_at = now;
}

unfoldable pub mark_outbox_delivered : ℕ → String → List OutboxEvent → Bool × List OutboxEvent
unfolding write_on marked undelivered
mark_outbox_delivered now event_id events =
    write_on undelivered (marked now) events (get event_key event_id events)
