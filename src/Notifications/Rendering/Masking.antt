-- ===== src/Notifications/Rendering/Masking.antt =====
-- What a template can read of a context on each channel.
use toupac.Prelude.{
  String, Bool, ◌&&◌, Option, some, none, List, [], ◌∷◌, ◌≡◌, refl, if◌then◌else◌, str_eq, is_some,
  arith, eq_iff,
}
use toupac.Prelude.Text.{is_among}
use toupac.Notifications.Models.{Value, Context, push, in_app, email, sms, whatsapp, text}
use toupac.Notifications.Catalog.{NotifEvent, entry}
use toupac.Notifications.Rendering.{mask_context, hide, hide_all, mask_placeholder}

abbrev shown : Bool → Option Value → Option Value
shown hidden none = none
shown hidden (some v) = if hidden then some mask_placeholder else some v

entry-hide :
    (variable name : String) (context : Context)
    → entry name (hide variable context) ≡ shown (str_eq name variable) (entry name context)
entry-hide variable name [] = refl
entry-hide variable name ((key, value) ∷ context) = ground (
  arith,
  entry-hide variable name context,
  eq_iff key variable,
  eq_iff key name,
  eq_iff name variable,
)

entry-hide_all :
    (variables : List String) (name : String) (context : Context)
    → entry name (hide_all variables context) ≡ shown (is_among name variables) (entry name context)
entry-hide_all [] name context = ground arith
entry-hide_all (variable ∷ variables) name context =
    ground (
      arith,
      entry-hide_all variables name (hide variable context),
      entry-hide variable name context,
    )

-- What a template reads under a name: in a push the placeholder for each variable that the event
-- declares as sensitive, where the context has it, and what the context has for any other; on the
-- four other channels what the context has.
pub entry-mask_context :
    (context : Context) (e : NotifEvent) (name : String)
    → (entry name (mask_context context e push) ≡ (
        if is_among name e.confidentiality_masks && is_some (entry name context)
        then some (text "***")
        else entry name context))
      × (entry name (mask_context context e in_app) ≡ entry name context)
      × (entry name (mask_context context e email) ≡ entry name context)
      × (entry name (mask_context context e sms) ≡ entry name context)
      × (entry name (mask_context context e whatsapp) ≡ entry name context)
unfolding mask_context
entry-mask_context context e name =
    (ground (arith, entry-hide_all e.confidentiality_masks name context), refl, refl, refl, refl)
