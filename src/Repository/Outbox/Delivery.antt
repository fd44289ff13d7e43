-- ===== src/Repository/Outbox/Delivery.antt =====
-- The outbox as a state machine: bounded attempts, one event to a key, and delivery as an end.
pub mod Attempts
use astrbot_community_plugin.Prelude.{
  ℕ, ◌≤◌, String, ◌≡◌, refl, sym, ap, ◌≢◌, inl, inr, ◌∙◌, Bool, true, false, Option, none, some,
  List, [], map, arith, In, In-map, In-map_intro, In-filter, In-take, member, member→In, Bool-cases,
  find-none, string_eq, ◌==◌,
}
use mathlib.Core.Path.{subst}
use astrbot_community_plugin.Prelude.Dict.{Distinct, get, put, get-In, In-put, In-put_keep}
use astrbot_community_plugin.Prelude.Distinct.{
  eq_of_key, Distinct-put, Distinct-put_other, Distinct-map,
}
use astrbot_community_plugin.Prelude.Sorting.{sort, In-sort}
use astrbot_community_plugin.Repository.Rows.{OutboxStatus, OutboxStatus-discrete, OutboxEvent}
use astrbot_community_plugin.Repository.{or_text}
use astrbot_community_plugin.Repository.Outbox.{
  event_key, OutboxRequest, new_event, event_with_key, enqueue_found, enqueue_outbox, is_candidate,
  claim_order, lease_to, claimed_events, lease_claimed, claim_outbox, holds_lease, write_on,
  delivered, complete_outbox, failed, fail_outbox, undelivered, marked, mark_outbox_delivered,
}

abbrev Events : Type 0
Events = List OutboxEvent

abbrev pub key_of : OutboxEvent → String
key_of e = e.dedupe_key

pub record IsValid (events : Events) : Type 0 where
  pub distinct_ids : Distinct event_key events
  pub distinct_keys : Distinct key_of events
  pub bounded : (e : OutboxEvent) → In e events → e.attempts ≤ 5

put-IsValid :
    (events : Events) (v : OutboxEvent)
    → IsValid events
    → v.attempts ≤ 5
    → ((e : OutboxEvent) → In e events → e.id ≢ v.id → e.dedupe_key ≢ v.dedupe_key)
    → IsValid (put event_key v events)
put-IsValid events v h b new = record {
  distinct_ids = Distinct-put event_key v events h.distinct_ids;
  distinct_keys = Distinct-put_other event_key key_of v events h.distinct_keys new h.distinct_ids;
  bounded = λ e m. elim (In-put event_key v events e m) [ inl q ↦ rw q b | inr n ↦ h.bounded e n ];
}

-- A write that keeps the id, the key and the bound.
record Change (change : OutboxEvent → OutboxEvent) : Type 0 where
  same_id : (e : OutboxEvent) → (change e).id ≡ e.id
  same_key : (e : OutboxEvent) → (change e).dedupe_key ≡ e.dedupe_key
  same_attempts : (e : OutboxEvent) → (change e).attempts ≡ e.attempts

delivered-Change : (now : ℕ) → Change (delivered now)
unfolding delivered
delivered-Change now = record {
  same_id = λ e. refl;
  same_key = λ e. refl;
  same_attempts = λ e. refl;
}

failed-Change :
    (now : ℕ) (message : String) (retry : Bool) (delay : ℕ)
    → Change (failed now message retry delay)
unfolding failed
failed-Change now message retry delay = record {
  same_id = λ e. refl;
  same_key = λ e. refl;
  same_attempts = λ e. refl;
}

marked-Change : (now : ℕ) → Change (marked now)
unfolding marked
marked-Change now = record { same_id = λ e. refl; same_key = λ e. refl; same_attempts = λ e. refl }

write_on-IsValid :
    (test : OutboxEvent → Bool) (change : OutboxEvent → OutboxEvent) (events : Events) (id : String)
    (found : Option OutboxEvent)
    → get event_key id events ≡ found
    → Change change
    → IsValid events
    → IsValid (write_on test change events found).1
unfolding write_on
write_on-IsValid test change events id none e c h = h
write_on-IsValid test change events id (some x) e c h = elim (Bool-cases (test x)) [
  | inl t ↦ rw t (
      let m = get-In event_key id events e in
      put-IsValid events (change x) h (rw c.same_attempts (h.bounded x m)) (λ y n d q. d (
        ap event_key (eq_of_key key_of events y x h.distinct_keys n m (q ∙ c.same_key x))
        ∙ sym (c.same_id x))))
  | inr f ↦ rw f h
]

-- A write leaves alone an event that fails its test.
write_on-keeps :
    (test : OutboxEvent → Bool) (change : OutboxEvent → OutboxEvent) (events : Events) (id : String)
    (found : Option OutboxEvent) (y : OutboxEvent)
    → get event_key id events ≡ found
    → Change change
    → IsValid events
    → In y events
    → test y ≡ false
    → In y (write_on test change events found).1
unfolding write_on
write_on-keeps test change events id none y e c h m f = m
write_on-keeps test change events id (some x) y e c h m f = elim (Bool-cases (test x)) [
  | inl t ↦ rw t (
      In-put_keep event_key (change x) events y m (λ q.
        let same : y ≡ x =
          eq_of_key event_key events y x h.distinct_ids m (get-In event_key id events e)
            (q ∙ c.same_id x) in
        cc (f, t, ap test same)))
  | inr g ↦ rw g m
]

module _ (texts : OutboxEvent → String × String) where
  -- One call of the outbox's interface. A new event gets an id that no event has.
  pub data Step (events : Events) : Events → Type 0 where
    enqueue :
        (now : ℕ) (fresh : String) (q : OutboxRequest)
        → ((e : OutboxEvent) → In e events → e.id ≢ or_text q.id fresh)
        → Step events (enqueue_outbox now fresh q events).1
    claim :
        (now : ℕ) (w : String) (limit lease : ℕ)
        → Step events (claim_outbox texts now w limit lease events).1
    complete : (now : ℕ) (id w : String) → Step events (complete_outbox now id w events).1
    fail :
        (now : ℕ) (id w message : String) (retry : Bool) (delay : ℕ)
        → Step events (fail_outbox now id w message retry delay events).1
    mark : (now : ℕ) (id : String) → Step events (mark_outbox_delivered now id events).1

  pub data Reach (events : Events) : Events → Type 0 where
    here : Reach events events
    next : {a b : Events} → Reach events a → Step a b → Reach events b

  claimed-is_candidate :
      (now limit : ℕ) (events : Events) (e : OutboxEvent)
      → In e (claimed_events texts now limit events)
      → In e events × (is_candidate now e ≡ true)
  unfolding claimed_events
  claimed-is_candidate now limit events e m =
      In-filter (is_candidate now) events
        (In-sort (claim_order texts) _ e (In-take limit (sort (claim_order texts) _) e m))

  claimed_of_id :
      (now limit : ℕ) (events : Events) (e : OutboxEvent)
      → IsValid events
      → In e events
      → member e.id (map event_key (claimed_events texts now limit events)) ≡ true
      → In e (claimed_events texts now limit events)
  claimed_of_id now limit events e h m t =
      let (k, n, q) =
        In-map event_key (claimed_events texts now limit events) (member→In e.id _ t) in
      rw
        (eq_of_key event_key events e k h.distinct_ids m
          (claimed-is_candidate now limit events k n).0 q)
        n

  same-lease_claimed :
      (now : ℕ) (w : String) (lease : ℕ) (ids : List String) (e : OutboxEvent)
      → ((lease_claimed now w lease ids e).id ≡ e.id)
        × ((lease_claimed now w lease ids e).dedupe_key ≡ e.dedupe_key)
  unfolding lease_claimed lease_to
  same-lease_claimed now w lease ids e = ground arith

  lease_to-bounded :
      (now : ℕ) (w : String) (lease : ℕ) (e : OutboxEvent)
      → is_candidate now e ≡ true
      → (lease_to now w lease e).attempts ≤ 5
  unfolding lease_to is_candidate
  lease_to-bounded now w lease e h = ground arith

  claim-IsValid :
      (now : ℕ) (w : String) (limit lease : ℕ) (events : Events)
      → IsValid events
      → IsValid (claim_outbox texts now w limit lease events).1
  unfolding claim_outbox
  claim-IsValid now w limit lease events h =
      let ids : List String = map event_key (claimed_events texts now limit events) in
      let f : OutboxEvent → OutboxEvent = lease_claimed now w lease ids in
      record {
        distinct_ids =
            Distinct-map event_key f events (λ e. (same-lease_claimed now w lease ids e).0)
              h.distinct_ids;
        distinct_keys =
            Distinct-map key_of f events (λ e. (same-lease_claimed now w lease ids e).1)
              h.distinct_keys;
        bounded = λ e m. let (k, n, q) = In-map f events m in rw q (keep k n);
      }
    where
      keep :
          (k : OutboxEvent)
          → In k events
          → (lease_claimed now w lease
              (map event_key (claimed_events texts now limit events))
              k).attempts
            ≤ 5
      keep k n =
          unfold lease_claimed in
          elim (Bool-cases (member k.id (map event_key (claimed_events texts now limit events)))) [
            | inl t ↦ rw t (
                lease_to-bounded now w lease k
                  (claimed-is_candidate now limit events k
                    (claimed_of_id now limit events k h n t)).1)
            | inr f ↦ rw f (h.bounded k n)
          ]

  -- A claim leaves alone an event that is no candidate.
  claim-keeps :
      (now : ℕ) (w : String) (limit lease : ℕ) (events : Events) (e : OutboxEvent)
      → IsValid events
      → In e events
      → is_candidate now e ≡ false
      → In e (claim_outbox texts now w limit lease events).1
  unfolding claim_outbox
  claim-keeps now w limit lease events e h m f =
      let ids : List String = map event_key (claimed_events texts now limit events) in
      let g : OutboxEvent → OutboxEvent = lease_claimed now w lease ids in
      let same : g e ≡ e = unfold lease_claimed in rw out in
      subst (λ x. In x (map g events)) same (In-map_intro g events e m)
    where
      out : member e.id (map event_key (claimed_events texts now limit events)) ≡ false
      out =
          elim (Bool-cases (member e.id (map event_key (claimed_events texts now limit events)))) [
            | inl t ↦ cc (
              f,
              (claimed-is_candidate now limit events e (claimed_of_id now limit events e h m t)).1,
            )
            | inr q ↦ q
          ]

  enqueue_found-IsValid :
      (now : ℕ) (fresh : String) (q : OutboxRequest) (events : Events) (found : Option OutboxEvent)
      → event_with_key q.dedupe_key events ≡ found
      → IsValid events
      → IsValid (enqueue_found now fresh q events found).1
  unfolding enqueue_found new_event
  enqueue_found-IsValid now fresh q events (some e) f h = h
  enqueue_found-IsValid now fresh q events none f h =
      put-IsValid events (new_event now fresh q) h (omega arith) (λ e m d k. cc (
        find-none (λ x. x.dedupe_key == q.dedupe_key) events f m,
        (string_eq.beq_iff e.dedupe_key q.dedupe_key).1 k,
      ))

  Step-IsValid : {a b : Events} → Step a b → IsValid a → IsValid b
  unfolding enqueue_outbox complete_outbox fail_outbox mark_outbox_delivered
  Step-IsValid {a} (enqueue now fresh q new) h =
      enqueue_found-IsValid now fresh q a (event_with_key q.dedupe_key a) refl h
  Step-IsValid {a} (claim now w limit lease) h = claim-IsValid now w limit lease a h
  Step-IsValid {a} (complete now id w) h =
      write_on-IsValid (holds_lease w) (delivered now) a id (get event_key id a) refl
        (delivered-Change now) h
  Step-IsValid {a} (fail now id w message retry delay) h =
      write_on-IsValid (holds_lease w) (failed now message retry delay) a id (get event_key id a)
        refl (failed-Change now message retry delay) h
  Step-IsValid {a} (mark now id) h =
      write_on-IsValid undelivered (marked now) a id (get event_key id a) refl (marked-Change now) h

  enqueue_found-keeps :
      (now : ℕ) (fresh : String) (q : OutboxRequest) (events : Events) (found : Option OutboxEvent)
      (e : OutboxEvent)
      → e.id ≢ or_text q.id fresh
      → In e events
      → In e (enqueue_found now fresh q events found).1
  unfolding enqueue_found new_event
  enqueue_found-keeps now fresh q events (some x) e n m = m
  enqueue_found-keeps now fresh q events none e n m =
      In-put_keep event_key (new_event now fresh q) events e m n

  delivered_tests :
      (e : OutboxEvent) (now : ℕ) (w : String)
      → e.status ≡ OutboxStatus.delivered
      → (is_candidate now e ≡ false) × (holds_lease w e ≡ false) × (undelivered e ≡ false)
  unfolding is_candidate holds_lease undelivered OutboxStatus-discrete
  delivered_tests e now w d = ground arith

  Step-delivered :
      {a b : Events} (e : OutboxEvent)
      → IsValid a
      → e.status ≡ OutboxStatus.delivered
      → Step a b
      → In e a
      → In e b
  unfolding enqueue_outbox complete_outbox fail_outbox mark_outbox_delivered
  Step-delivered {a} e h d (enqueue now fresh q new) m =
      enqueue_found-keeps now fresh q a (event_with_key q.dedupe_key a) e (new e m) m
  Step-delivered {a} e h d (claim now w limit lease) m =
      claim-keeps now w limit lease a e h m (delivered_tests e now w d).0
  Step-delivered {a} e h d (complete now id w) m =
      write_on-keeps (holds_lease w) (delivered now) a id (get event_key id a) e refl
        (delivered-Change now) h m (delivered_tests e now w d).1
  Step-delivered {a} e h d (fail now id w message retry delay) m =
      write_on-keeps (holds_lease w) (failed now message retry delay) a id (get event_key id a) e
        refl (failed-Change now message retry delay) h m (delivered_tests e now w d).1
  Step-delivered {a} e h d (mark now id) m =
      write_on-keeps undelivered (marked now) a id (get event_key id a) e refl (marked-Change now) h
        m (delivered_tests e now "" d).2

  Reach-IsValid : {a b : Events} → IsValid a → Reach a b → IsValid b
  Reach-IsValid h here = h
  Reach-IsValid h (next r s) = Step-IsValid s (Reach-IsValid h r)

  -- A delivered event of a valid outbox is final: it stays as it is through every sequence of calls
  -- in which a new event gets an id that no event has, so that it is neither claimed again nor failed
  -- nor delivered twice.
  pub delivery_final :
      {a b : Events} (e : OutboxEvent)
      → IsValid a
      → In e a
      → e.status ≡ OutboxStatus.delivered
      → Reach a b
      → In e b
  delivery_final e h m d here = m
  delivery_final e h m d (next r s) =
      Step-delivered e (Reach-IsValid h r) d s (delivery_final e h m d r)
