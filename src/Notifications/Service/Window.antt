-- ===== src/Notifications/Service/Window.antt =====
-- The window of idempotency, along two emissions.
use toupac.Prelude.{
  ℕ, ◌+◌, ◌*◌, ◌<◌, ◌≡◌, refl, inl, inr, String, true, Option, some, none, List, eq_iff, Bool-cases,
  arith,
}
use toupac.Prelude.Results.{Result, ok, err}
use toupac.Cache.{Cache, IsLawful, second}
use toupac.Notifications.Models.{EmitResult, no_result}
use toupac.Notifications.Catalog.{NotifEvent, CatalogError, get_event, validate_context}
use toupac.Notifications.Outbox.{Host, Outbox, Fault}
use toupac.Notifications.Service.{
  Emission, idempotency_ttl_seconds, announce, cache_key, mark_emitted, already_emitted, emit,
  emit_event, emit_checked, emit_valid, settle, Emitted, key_of,
}
use toupac.Notifications.Service.Desk.{Progress}

-- what an emission answers when it is recognised
abbrev pub hit : EmitResult
hit = record no_result { idempotency_hit = true }

module _ (host : Host) {C : Cache String} (lawful : IsLawful C) where
  -- An emission that returned with something logged.
  record Logged (now : ℕ) (a : Emission) (events : List NotifEvent) (p : Emitted host C)
      (marks : C.Store) : Type 0 where
    event : NotifEvent
    known : get_event a.event_code events ≡ some event
    valid : validate_context host.is_uuid event a.context ≡ none
    marked : p.2 ≡ mark_emitted host C now (key_of host C a) marks

  settle-marked :
      (now : ℕ) (key : String) (p : Result Fault (Unit {0}) × Progress) (marks : C.Store)
      (result : EmitResult)
      → (settle host C now key p marks).0 ≡ ok result
      → 0 < result.logs_created
      → (settle host C now key p marks).2 ≡ mark_emitted host C now key marks
  settle-marked now key (err fault, d) marks result h k = cc
  settle-marked now key (ok done, d) marks result h k = ground arith

  emit_valid-marked :
      (now : ℕ) (a : Emission) (event : NotifEvent) (outbox : Outbox) (marks : C.Store)
      (result : EmitResult)
      → (emit_valid host C now a event outbox marks).0 ≡ ok result
      → 0 < result.logs_created
      → (emit_valid host C now a event outbox marks).2
        ≡ mark_emitted host C now (key_of host C a) marks
  emit_valid-marked now a event outbox marks result h k =
      elim (Bool-cases (already_emitted host C now (key_of host C a) marks)) [
        | inl emitted ↦
            let same : Path (Result Fault EmitResult) (ok hit) (ok result) = rw emitted at h in
            absurd (ground arith)
        | inr new ↦ rw new (
            settle-marked now (key_of host C a)
              (announce host now a event (key_of host C a)
                (record { outbox = outbox; result = no_result }))
              marks result (rw new at h) k)
      ]

  emit_checked-Logged :
      (now : ℕ) (events : List NotifEvent) (a : Emission) (event : NotifEvent) (outbox : Outbox)
      (marks : C.Store) (result : EmitResult) (error : Option CatalogError)
      → get_event a.event_code events ≡ some event
      → validate_context host.is_uuid event a.context ≡ error
      → (emit_checked host C now a event error outbox marks).0 ≡ ok result
      → 0 < result.logs_created
      → Logged now a events (emit_checked host C now a event error outbox marks) marks
  emit_checked-Logged now events a event outbox marks result (some error) known valid h k = cc
  emit_checked-Logged now events a event outbox marks result none known valid h k = record {
    event = event;
    known = known;
    valid = valid;
    marked = emit_valid-marked now a event outbox marks result h k;
  }

  emit_event-Logged :
      (now : ℕ) (events : List NotifEvent) (a : Emission) (outbox : Outbox) (marks : C.Store)
      (result : EmitResult) (o : Option NotifEvent)
      → get_event a.event_code events ≡ o
      → (emit_event host C now a o outbox marks).0 ≡ ok result
      → 0 < result.logs_created
      → Logged now a events (emit_event host C now a o outbox marks) marks
  emit_event-Logged now events a outbox marks result none e h k = cc
  emit_event-Logged now events a outbox marks result (some event) e h k =
      emit_checked-Logged now events a event outbox marks result
        (validate_context host.is_uuid event a.context) e refl h k

  get-mark_emitted :
      (now later : ℕ) (key : String) (marks : C.Store)
      → later < now + idempotency_ttl_seconds * second
      → already_emitted host C later key (mark_emitted host C now key marks) ≡ true
  get-mark_emitted now later key marks h =
      rw
        (
          lawful.get-set now later (cache_key host C key) (cache_key host C key) "1"
              idempotency_ttl_seconds marks,
          (eq_iff (cache_key host C key) (cache_key host C key)).1 refl,
        )
        (ground arith)

  emit_recognised :
      (now : ℕ) (events : List NotifEvent) (a : Emission) (outbox : Outbox) (event : NotifEvent)
      (marks : C.Store)
      → get_event a.event_code events ≡ some event
      → validate_context host.is_uuid event a.context ≡ none
      → already_emitted host C now (key_of host C a) marks ≡ true
      → emit host C now events a outbox marks ≡ (ok hit, outbox, marks)
  unfolding emit
  emit_recognised now events a outbox event marks known valid emitted =
      rw (known, valid, emitted) refl

  -- An emission that returned with a log created is recognised for a day: another one of the same
  -- event, actor, scope and context, whatever its tenant, recipients, channels or language, answers
  -- `idempotency_hit` and touches neither the tables, nor the queue, nor a provider, nor the mark. The
  -- cache keeps its promises.
  pub emit-emit :
      (now later : ℕ) (events : List NotifEvent) (a b : Emission) (outbox outbox' : Outbox)
      (marks : C.Store) (result : EmitResult)
      → (emit host C now events a outbox marks).0 ≡ ok result
      → 0 < result.logs_created
      → b.event_code ≡ a.event_code
      → b.actor ≡ a.actor
      → b.idempotency_scope ≡ a.idempotency_scope
      → b.context ≡ a.context
      → later < now + idempotency_ttl_seconds * second
      → let marked = (emit host C now events a outbox marks).2 in
        emit host C later events b outbox' marked ≡ (ok hit, outbox', marked)
  unfolding emit
  emit-emit now later events a b outbox outbox' marks result h k code actor scope context soon =
      let logged =
        emit_event-Logged now events a outbox marks result (get_event a.event_code events) refl h
          k in
      let same_key : key_of host C b ≡ key_of host C a = rw (code, actor, scope, context) refl in
      emit_recognised later events b outbox' logged.event
        (emit_event host C now a (get_event a.event_code events) outbox marks).2
        (rw code logged.known) (rw context logged.valid)
        (rw (same_key, logged.marked) (get-mark_emitted now later (key_of host C a) marks soon))
