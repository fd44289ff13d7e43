-- ===== src/Repository/Outbox/Delivery/Attempts.antt =====
-- How often the outbox of repository.py hands out one event.
use astrbot_community_plugin.Prelude.{
  ℕ, ◌+◌, ◌≤◌, String, ◌≡◌, refl, sym, ap, ◌≢◌, ◌⊎◌, inl, inr, ◌∙◌, Bool, Option, none, some, List,
  [], ◌∷◌, map, arith, In, In-map, In-map_intro, member, member→In, Bool-cases, string_eq, ◌==◌,
  if◌then◌else◌,
}
use mathlib.Core.Path.{subst}
use astrbot_community_plugin.Prelude.Dict.{get, get-In, In-put, In-put_keep, In-put_new}
use astrbot_community_plugin.Repository.Rows.{OutboxEvent}
use astrbot_community_plugin.Repository.{or_text}
use astrbot_community_plugin.Repository.Outbox.{
  event_key, OutboxRequest, new_event, event_with_key, enqueue_found, enqueue_outbox, lease_to,
  claimed_events, lease_claimed, claim_outbox, holds_lease, write_on, delivered, complete_outbox,
  failed, fail_outbox, undelivered, marked, mark_outbox_delivered,
}
use astrbot_community_plugin.Repository.Outbox.Delivery.{
  Events, Step, enqueue, claim, complete, fail, mark, IsValid, Step-IsValid, Change,
  delivered-Change, failed-Change, marked-Change, claimed-is_candidate,
}

-- The attempts of every event with the id are the number, which is 0 unless there is such an event.
record Counted (id : String) (n : ℕ) (events : Events) : Type 0 where
  exact : (e : OutboxEvent) → In e events → e.id ≡ id → e.attempts ≡ n
  seen : (n ≡ 0) ⊎ ((e : OutboxEvent) × In e events × (e.id ≡ id))

write_on-Counted :
    (id : String) (n : ℕ) (test : OutboxEvent → Bool) (change : OutboxEvent → OutboxEvent)
    (events : Events) (key : String) (found : Option OutboxEvent)
    → get event_key key events ≡ found
    → Change change
    → Counted id n events
    → Counted id (n + 0) (write_on test change events found).1
unfolding write_on
write_on-Counted id n test change events key none g c h = record {
  exact = λ e m q. h.exact e m q ∙ omega arith;
  seen = elim h.seen [ inl z ↦ inl (omega (arith, z)) | inr s ↦ inr s ];
}
write_on-Counted id n test change events key (some x) g c h = elim (Bool-cases (test x)) [
  | inr f ↦ rw f (record {
    exact = λ e m q. h.exact e m q ∙ omega arith;
    seen = elim h.seen [ inl z ↦ inl (omega (arith, z)) | inr s ↦ inr s ];
  })
  | inl t ↦ rw t (record {
    exact = λ e m q. elim (In-put event_key (change x) events e m) [
      | inl same ↦
          ap (λ (y : OutboxEvent). y.attempts) same
          ∙ c.same_attempts x
          ∙ h.exact x (get-In event_key key events g)
              (sym (c.same_id x) ∙ ap event_key (sym same) ∙ q)
          ∙ omega arith
      | inr old ↦ h.exact e old q ∙ omega arith
    ];
    seen = elim h.seen [
      | inl z ↦ inl (omega (arith, z))
      | inr (e, m, q) ↦ elim (Bool-cases (e.id == (change x).id)) [
        | inl t ↦ inr (
          change x,
          In-put_new event_key (change x) events,
          sym ((string_eq.beq_iff e.id (change x).id).0 t) ∙ q,
        )
        | inr f ↦ inr (
          e,
          In-put_keep event_key (change x) events e m
              (λ p. cc (f, (string_eq.beq_iff e.id (change x).id).1 p)),
          q,
        )
      ]
    ];
  })
]

enqueue_found-Counted :
    (id : String) (n now : ℕ) (fresh : String) (q : OutboxRequest) (events : Events)
    (found : Option OutboxEvent)
    → ((e : OutboxEvent) → In e events → e.id ≢ or_text q.id fresh)
    → Counted id n events
    → Counted id (n + 0) (enqueue_found now fresh q events found).1
unfolding enqueue_found new_event
enqueue_found-Counted id n now fresh q events (some x) new h = record {
  exact = λ e m p. h.exact e m p ∙ omega arith;
  seen = elim h.seen [ inl z ↦ inl (omega (arith, z)) | inr s ↦ inr s ];
}
enqueue_found-Counted id n now fresh q events none new h =
    let made : OutboxEvent = new_event now fresh q in
    record {
      exact = λ e m p. elim (In-put event_key made events e m) [
        | inr old ↦ h.exact e old p ∙ omega arith
        | inl same ↦ elim h.seen [
          | inl z ↦ ap (λ (y : OutboxEvent). y.attempts) same ∙ omega (arith, z)
          | inr (x, k, w) ↦ absurd (new x k (w ∙ sym p ∙ ap event_key same))
        ]
      ];
      seen = elim h.seen [
        | inl z ↦ inl (omega (arith, z))
        | inr (e, m, p) ↦ inr (e, In-put_keep event_key made events e m (new e m), p)
      ];
    }

keys-lease_to :
    (now : ℕ) (w : String) (lease : ℕ) (events : Events)
    → map event_key (map (lease_to now w lease) events) ≡ map event_key events
unfolding lease_to
keys-lease_to now w lease [] = refl
keys-lease_to now w lease (e ∷ events) = ap (λ keys. e.id ∷ keys) (keys-lease_to now w lease events)

-- One if the id is among the ids, else none.
abbrev pub once : String → List String → ℕ
once id ids = if member id ids then 1 else 0

attempts-lease_claimed :
    (now : ℕ) (w : String) (lease : ℕ) (ids : List String) (e : OutboxEvent)
    → ((lease_claimed now w lease ids e).attempts ≡ e.attempts + once e.id ids)
      × ((lease_claimed now w lease ids e).id ≡ e.id)
unfolding lease_claimed lease_to
attempts-lease_claimed now w lease ids e = elim (Bool-cases (member e.id ids)) [
  | inl t ↦ rw t (refl, refl)
  | inr f ↦ rw f (omega arith, refl)
]

lease_claimed-Counted :
    (id : String) (n now : ℕ) (w : String) (lease : ℕ) (ids : List String) (events : Events)
    → ((k : String) → In k ids → (e : OutboxEvent) × In e events × (e.id ≡ k))
    → Counted id n events
    → Counted id (n + once id ids) (map (lease_claimed now w lease ids) events)
lease_claimed-Counted id n now w lease ids events of h =
    let f : OutboxEvent → OutboxEvent = lease_claimed now w lease ids in
    let there : ((e : OutboxEvent) × In e events × (e.id ≡ id))
        → (e : OutboxEvent) × In e (map f events) × (e.id ≡ id) =
      λ (e, m, q).
        (f e, In-map_intro f events e m, (attempts-lease_claimed now w lease ids e).1 ∙ q) in
    record {
      exact = λ e m q.
          let (k, l, same) = In-map f events m in
          let own : k.id ≡ id =
            sym (attempts-lease_claimed now w lease ids k).1 ∙ ap event_key (sym same) ∙ q in
          ap (λ (y : OutboxEvent). y.attempts) same
          ∙ (attempts-lease_claimed now w lease ids k).0
          ∙ ap (λ x. k.attempts + once x ids) own
          ∙ ap (λ x. x + once id ids) (h.exact k l own);
      seen = elim h.seen [
        | inr s ↦ inr (there s)
        | inl z ↦ elim (Bool-cases (member id ids)) [
          | inl t ↦ inr (there (of id (member→In id ids t)))
          | inr f ↦ inl (rw f (omega (arith, z)))
        ]
      ];
    }

module _ (texts : OutboxEvent → String × String) where
  -- How often a call hands out the event with the id: once if a claim returns it.
  unfoldable pub handed : (id : String) {a b : Events} → Step texts a b → ℕ
  handed id {a} (claim now w limit lease) =
      once id (map event_key (claim_outbox texts now w limit lease a).0)
  handed id s = 0

  -- A sequence of calls from an empty outbox that hands out the event with the id so many times.
  pub data Delivers (id : String) : ℕ → Events → Type 0 where
    start : Delivers id 0 []
    call :
        {n : ℕ} {a b : Events}
        → Delivers id n a
        → (s : Step texts a b) → Delivers id (n + handed id s) b

  claim-Counted :
      (id : String) (n now : ℕ) (w : String) (limit lease : ℕ) (events : Events)
      → Counted id n events
      → Counted id
          (n + once id (map event_key (claim_outbox texts now w limit lease events).0))
          (claim_outbox texts now w limit lease events).1
  unfolding claim_outbox
  claim-Counted id n now w limit lease events h =
      let claimed : Events = claimed_events texts now limit events in
      subst
        (λ ids.
          Counted id (n + once id ids)
            (map (lease_claimed now w lease (map event_key claimed)) events))
        (sym (keys-lease_to now w lease claimed))
        (lease_claimed-Counted id n now w lease (map event_key claimed) events
          (λ k m.
            let (e, l, q) = In-map event_key claimed m in
            (e, (claimed-is_candidate texts now limit events e l).0, sym q))
          h)

  Step-Counted :
      (id : String) {n : ℕ} {a b : Events} (s : Step texts a b)
      → Counted id n a
      → Counted id (n + handed id s) b
  unfolding enqueue_outbox complete_outbox fail_outbox mark_outbox_delivered handed
  Step-Counted id {n} {a} (enqueue now fresh q new) h =
      enqueue_found-Counted id n now fresh q a (event_with_key q.dedupe_key a) new h
  Step-Counted id {n} {a} (claim now w limit lease) h = claim-Counted id n now w limit lease a h
  Step-Counted id {n} {a} (complete now key w) h =
      write_on-Counted id n (holds_lease w) (delivered now) a key (get event_key key a) refl
        (delivered-Change now) h
  Step-Counted id {n} {a} (fail now key w message retry delay) h =
      write_on-Counted id n (holds_lease w) (failed now message retry delay) a key
        (get event_key key a) refl (failed-Change now message retry delay) h
  Step-Counted id {n} {a} (mark now key) h =
      write_on-Counted id n undelivered (marked now) a key (get event_key key a) refl
        (marked-Change now) h

  sound :
      (id : String) {n : ℕ} {events : Events}
      → Delivers id n events
      → Counted id n events × IsValid events
  sound id start = (
    record { exact = λ e m. absurd m; seen = inl refl },
    record { distinct_ids = tt; distinct_keys = tt; bounded = λ e m. absurd m },
  )
  sound id (call t s) = let (c, v) = sound id t in (Step-Counted id s c, Step-IsValid texts s v)

  -- From an empty outbox, whatever calls are made in which a new event gets an id that no event has, no
  -- event is handed out more than five times, and no two events share an id or a deduplication key.
  pub handed_at_most_five :
      (id : String) {n : ℕ} {events : Events} → Delivers id n events → (n ≤ 5) × IsValid events
  handed_at_most_five id t =
      let (c, v) = sound id t in
      (
        elim c.seen [
          | inl z ↦ omega (arith, z)
          | inr (e, m, q) ↦ omega (arith, c.exact e m q, v.bounded e m)
        ],
        v,
      )
