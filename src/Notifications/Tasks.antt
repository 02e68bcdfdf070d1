-- ===== src/Notifications/Tasks.antt =====
-- notifications/tasks.py: a logged message is handed to its provider, and tried again by the policy
-- of its channel.
pub mod Ends
use toupac.Prelude.{
  ℕ, zero, suc, ◌+◌, String, Bool, true, false, not, Option, some, none, List, [], ◌∷◌, ◌++◌,
  update_where, length, ◌==◌, ltb, if◌then◌else◌,
}
use toupac.Prelude.Results.{Result, ok, err}
use toupac.Prelude.Text.{is_empty, slice_to, concat}
use toupac.Notifications.Models.{Log, LogStatus, queued, sent, failed, delivered}
use toupac.Notifications.Outbox.{
  Host, Outbox, SendCall, SendResult, RetryPolicy, find_log, title_of, get_retry_policy,
  countdown_for,
}

-- How a run of the task ends: it returns, or it raises `Retry` with a delay. The exception that it
-- carries is what a call outside a worker raises in its place.
pub data Ending : Type 0 where
  done : Ending
  retry : ℕ → Option String → Ending

abbrev pub is_queued : LogStatus → Bool
is_queued queued = true
is_queued sent = false
is_queued delivered = false
is_queued failed = false

-- `log.save(update_fields=...)`
abbrev pub save_log : Log → (Log → Log) → Outbox → Outbox
save_log log f ob = record ob { logs = update_where (λ l. l.id == log.id) f ob.logs }

-- Python's `a or b` on texts
abbrev or_text : String → String → String
or_text a b = if is_empty a then b else a

-- `_mark_failed`, with the provider that the caller put on the instance
unfoldable pub mark_failed : Log → String → String → Outbox → Outbox
unfolding slice_to
mark_failed log provider reason = save_log log λ l. record l {
  status = failed;
  failure_reason = slice_to 300 reason;
  sent_at = none;
  provider = provider;
}

unfoldable pub mark_sent : ℕ → Log → String → SendResult → Outbox → Outbox
mark_sent now log provider r = save_log log λ l. record l {
  status = sent;
  provider = provider;
  provider_message_id = r.provider_message_id;
  sent_at = some now;
  failure_reason = "";
}

module _ (host : Host) where
  -- `_provider_name`
  abbrev provider_name : SendResult → String → String
  provider_name r channel = or_text r.provider (host.provider_class channel)

  abbrev pub call_of : Log → Outbox → SendCall
  call_of log ob = record {
    channel = log.channel;
    recipient = log.recipient;
    message = log.content;
    subject = title_of log.notification ob.notifications;
  }

  -- after the call: success, refusal or exception
  unfoldable pub conclude : ℕ → ℕ → Log → Result String SendResult → Outbox → Ending × Outbox
  unfolding mark_sent mark_failed
  conclude now retries log (ok r) ob =
      let policy = get_retry_policy log.channel in
      let provider = provider_name r log.channel in
      let reason = or_text r.error_message "refus du fournisseur" in
      if r.success
      then (done, mark_sent now log provider r ob)
      else if ltb retries policy.max_retries
      then (retry (countdown_for policy retries) none, ob)
      else (
        done,
        mark_failed log provider (concat ("provider_error:" ∷ log.channel ∷ ":" ∷ reason ∷ [])) ob,
      )
  conclude now retries log (err exc) ob =
      let policy = get_retry_policy log.channel in
      if ltb retries policy.max_retries
      then (retry (countdown_for policy retries) (some exc), ob)
      else (
        done,
        mark_failed log log.provider (concat ("provider_error:" ∷ log.channel ∷ ":" ∷ exc ∷ [])) ob,
      )

  unfoldable pub attempt : ℕ → ℕ → Log → Outbox → Ending × Outbox
  unfolding conclude
  attempt now retries log ob =
      let call = call_of log ob in
      conclude now retries log (host.send (length ob.calls) call)
        (record ob { calls = ob.calls ++ call ∷ [] })

  abbrev pub send_found : ℕ → ℕ → Option Log → Outbox → Ending × Outbox
  send_found now retries none ob = (done, ob)
  send_found now retries (some log) ob =
      if is_queued log.status then attempt now retries log ob else (done, ob)

  -- `send_notification_log`, at the number of retries that the request has behind it
  unfoldable pub send_notification_log : ℕ → ℕ → ℕ → Outbox → Ending × Outbox
  unfolding attempt
  send_notification_log now retries log_id ob = send_found now retries (find_log log_id ob.logs) ob

  -- A worker: it runs the task again, one retry further, as long as it asks for it. `none` means
  -- that the fuel ran out.
  unfoldable pub work : ℕ → ℕ → ℕ → ℕ → Outbox → Option Outbox
  unfolding send_notification_log
  work zero now retries log_id ob = none
  work (suc fuel) now retries log_id ob =
      let (ending, after) = send_notification_log now retries log_id ob in
      elim ending [
        | done ↦ some after
        | retry countdown exc ↦ work fuel (now + countdown) (suc retries) log_id after
      ]
