-- ===== src/Notifications/Service/Desk.antt =====
-- An emission under way: the tables, and the `EmitResult` that every step adds to.
use toupac.Prelude.{
  ℕ, suc, ◌+◌, String, Bool, true, ltb, if◌then◌else◌, Option, none, [], ◌∷◌, ◌++◌,
}
use toupac.Prelude.Results.{Result, ok, err}
use toupac.Prelude.Text.{slice_to, char_count}
use toupac.Notifications.Models.{Log, failed, EmitResult}
use toupac.Notifications.Outbox.{Outbox, Fault, data_error}

pub record Progress : Type 0 where
  pub outbox : Outbox
  pub result : EmitResult

-- What was written before an exception stays written.
abbrev pub M : Type 0 → Type 0
M A = Progress → Result Fault A × Progress

abbrev pub return : {A : Type 0} → A → M A
return a d = (ok a, d)

abbrev pub raise : {A : Type 0} → Fault → M A
raise fault d = (err fault, d)

abbrev pub continue :
    {A B : Type 0} → Result Fault A × Progress → (A → M B) → Result Fault B × Progress
continue (ok a, d) f = f a d
continue (err fault, d) f = (err fault, d)

infixl 5 ◌>>=◌ ◌>>◌
abbrev pub ◌>>=◌ : {A B : Type 0} → M A → (A → M B) → M B
◌>>=◌ m f d = continue (m d) f

abbrev pub ◌>>◌ : {B : Type 0} → M (Unit {0}) → M B → M B
m >> k = m >>= λ _. k

-- `NotificationLog.objects.create(...)`: the row with its primary key
abbrev pub add_log : Log → Outbox → Outbox
add_log log ob = record ob { logs = ob.logs ++ log ∷ []; next_id = suc ob.next_id }

-- whether a text is too long for `NotificationLog.recipient`, a column of 100 characters
abbrev pub exceeds_column : String → Bool
exceeds_column recipient = ltb 100 (char_count recipient)

-- `_fail_log`
unfoldable pub fail_log : Option ℕ → Option ℕ → String → String → String → String → M (Unit {0})
fail_log tenant user channel recipient event_code failure_reason d =
    if exceeds_column recipient
    then raise data_error d
    else (let log : Log = record {
      id = d.outbox.next_id;
      tenant = tenant;
      user = user;
      notification = none;
      channel = channel;
      recipient = recipient;
      event_code = event_code;
      content = "";
      status = failed;
      provider = "";
      provider_message_id = "";
      failure_reason = slice_to 300 failure_reason;
      sent_at = none;
    } in
        (
          ok tt,
          record {
            outbox = add_log log d.outbox;
            result = record d.result {
              logs_failed = d.result.logs_failed + 1;
              failure_reasons = d.result.failure_reasons ++ failure_reason ∷ [];
            };
          },
        ))

-- `result.skipped_no_recipient = True`
abbrev pub set_skipped : M (Unit {0})
set_skipped d = (ok tt, record d { result = record d.result { skipped_no_recipient = true } })
