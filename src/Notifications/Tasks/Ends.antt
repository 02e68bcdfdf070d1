-- ===== src/Notifications/Tasks/Ends.antt =====
-- The deliveries of a log and the number of their calls.
use mathlib.Core.Path.{subst}
use toupac.Prelude.{
  ℕ, zero, suc, ◌+◌, ◌≤◌, ◌<◌, ◌≡◌, refl, sym, ap, ◌∙◌, ◌⊎◌, inl, inr, String, Bool, true, false,
  not, not-true, Option, some, none, [], ◌∷◌, ◌++◌, length, length-append, first-some,
  first-update_where, ◌==◌, ltb, Bool-cases, arith,
}
use toupac.Prelude.Results.{Result, ok, err}
use toupac.Notifications.Models.{Log}
use toupac.Notifications.Outbox.{
  Host, Outbox, SendResult, find_log, get_retry_policy, get_retry_policy-le,
}
use toupac.Notifications.Tasks.{
  done, retry, is_queued, save_log, mark_failed, mark_sent, conclude, send_notification_log, work,
  call_of,
}

-- A log that no run of the task touches any more: sent, delivered or failed.
abbrev pub is_settled : Option Log → Bool
is_settled none = false
is_settled (some log) = not (is_queued log.status)

find_log-save_log :
    (i : ℕ) (log : Log) (f : Log → Log) (ob : Outbox)
    → ((l : Log) → (f l).id ≡ l.id)
    → find_log i ob.logs ≡ some log
    → find_log i (save_log log f ob).logs ≡ some (f log)
find_log-save_log i log f ob h found =
    first-update_where (λ l. l.id) (λ l. l.id == i) (λ l. l.id == log.id) f ob.logs h
      (λ l. rw (h l))
      (λ l e. ground (arith, first-some (λ l. l.id) (λ l. l.id == i) ob.logs log found))
    ∙ rw found

module _ (host : Host) (now retries : ℕ) (log : Log) (ob : Outbox) where
  record Ended (i : ℕ) (after : Outbox) : Type 0 where
    settled : is_settled (find_log i after.logs) ≡ true
    no_call : after.calls ≡ ob.calls

  save-Ended :
      (i : ℕ) (f : Log → Log)
      → ((l : Log) → (f l).id ≡ l.id)
      → not (is_queued (f log).status) ≡ true
      → find_log i ob.logs ≡ some log
      → Ended i (save_log log f ob)
  save-Ended i f h s found = record {
    settled = rw (find_log-save_log i log f ob h found) s;
    no_call = refl;
  }

  conclude-cases :
      (i : ℕ) (r : Result String SendResult)
      → find_log i ob.logs ≡ some log
      → let (ending, after) = conclude host now retries log r ob in
        ((ending ≡ done) × Ended i after)
        ⊎ ((c : ℕ) × (exc : Option String) × (ending ≡ retry c exc)
            × (after ≡ ob)
            × (retries < (get_retry_policy log.channel).max_retries))
  unfolding conclude mark_failed mark_sent
  conclude-cases i (ok r) found = elim (Bool-cases r.success) [
    | inl success ↦ rw success (inl (refl, save-Ended i _ (λ l. refl) refl found))
    | inr refusal ↦ elim (Bool-cases (ltb retries (get_retry_policy log.channel).max_retries)) [
      | inl again ↦ rw (refusal, again) (inr (_, none, refl, refl, ground arith))
      | inr last ↦ rw (refusal, last) (inl (refl, save-Ended i _ (λ l. refl) refl found))
    ]
  ]
  conclude-cases i (err exc) found =
      elim (Bool-cases (ltb retries (get_retry_policy log.channel).max_retries)) [
        | inl again ↦ rw again (inr (_, some exc, refl, refl, ground arith))
        | inr last ↦ rw last (inl (refl, save-Ended i _ (λ l. refl) refl found))
      ]

some_injective : {a b : Outbox} → some a ≡ some b → a ≡ b
some_injective h = cc

module _ (host : Host) where
  run_queued :
      (now retries i : ℕ) (log : Log) (ob : Outbox)
      → find_log i ob.logs ≡ some log
      → is_queued log.status ≡ true
      → send_notification_log host now retries i ob
        ≡ conclude host now retries log
            (host.send (length ob.calls) (call_of host log ob))
            (record ob { calls = ob.calls ++ call_of host log ob ∷ [] })
  unfolding send_notification_log
  run_queued now retries i log ob found q = rw (found, q) refl

  work_further :
      (fuel now retries i : ℕ) (log : Log) (ob : Outbox)
      → find_log i ob.logs ≡ some log
      → is_queued log.status ≡ true
      → retries ≤ (get_retry_policy log.channel).max_retries
      → (get_retry_policy log.channel).max_retries < fuel + retries
      → (after : Outbox) × (work host fuel now retries i ob ≡ some after)
        × (is_settled (find_log i after.logs) ≡ true)
        × (length after.calls + retries
            ≤ length ob.calls + suc (get_retry_policy log.channel).max_retries)
  unfolding work
  work_further zero now retries i log ob found q k enough = absurd (omega arith)
  work_further (suc fuel) now retries i log ob found q k enough =
      let call = call_of host log ob in
      let called = record ob { calls = ob.calls ++ call ∷ [] } in
      let r = host.send (length ob.calls) call in
      let run = run_queued now retries i log ob found q in
      let counted = length-append ob.calls (call ∷ []) in
      elim (conclude-cases host now retries log called i r found) [
        | inl (stop, e) ↦ (
          (conclude host now retries log r called).1,
          rw (work, run, stop, run) refl,
          e.settled,
          omega (arith, ap length e.no_call, counted),
        )
        | inr (c, exc, again, same, lt) ↦
            let rest =
              work_further fuel (now + c) (suc retries) i log called found q lt (omega arith) in
            (
              rest.0,
              rw (work, run, again, run, same) rest.1,
              rest.2,
              omega (arith, rest.3, counted),
            )
      ]

  -- A worker that starts on a queued log gets to its end in at most four runs of the task: the log is
  -- settled then, and the provider was called at most once more than the policy of the channel has
  -- retries.
  pub work_ends :
      (now i : ℕ) (log : Log) (ob : Outbox)
      → find_log i ob.logs ≡ some log
      → is_queued log.status ≡ true
      → (after : Outbox) × (work host 4 now 0 i ob ≡ some after)
        × (is_settled (find_log i after.logs) ≡ true)
        × (length after.calls ≤ length ob.calls + suc (get_retry_policy log.channel).max_retries)
  work_ends now i log ob found q =
      let ends =
        work_further 4 now 0 i log ob found q (omega arith)
          (omega (arith, get_retry_policy-le log.channel)) in
      (ends.0, ends.1, ends.2, omega (arith, ends.3))

  replay_step :
      (now retries i : ℕ) (ob : Outbox) (o : Option Log)
      → find_log i ob.logs ≡ o
      → is_settled o ≡ true
      → send_notification_log host now retries i ob ≡ (done, ob)
  unfolding send_notification_log
  replay_step now retries i ob none found s = cc
  replay_step now retries i ob (some log) found s =
      rw (found, not-true (is_queued log.status) s) refl

  -- Once the worker has ended, the task can be delivered again, at any time and with any number of
  -- retries: it returns, calls no provider and leaves the tables as they are.
  pub work-replay :
      (now i : ℕ) (log : Log) (ob after : Outbox)
      → find_log i ob.logs ≡ some log
      → is_queued log.status ≡ true
      → work host 4 now 0 i ob ≡ some after
      → (later retries : ℕ) → send_notification_log host later retries i after ≡ (done, after)
  work-replay now i log ob after found q ran later retries =
      let ends = work_ends now i log ob found q in
      let same : some ends.0 ≡ some after = sym ends.1 ∙ ran in
      replay_step later retries i after (find_log i after.logs) refl
        (subst (λ o. is_settled (find_log i o.logs) ≡ true) (some_injective same) ends.2)
