-- ===== src/Notifications/Rendering.antt =====
-- notifications/rendering.py: the text of a message on a channel, with what a push hides.
pub mod Masking
use toupac.Prelude.{String, Bool, true, false, not, List, [], ◌∷◌, if◌then◌else◌, str_eq, ◌≡◌}
use toupac.Prelude.Text.{is_empty, is_among}
use toupac.Prelude.Results.{Result, ok, err}
use toupac.Notifications.Models.{
  Channel, push, in_app, email, sms, whatsapp, Value, Context, text, Template,
}
use toupac.Notifications.Catalog.{NotifEvent, names}

-- `MASK_PLACEHOLDER`
abbrev pub mask_placeholder : Value
mask_placeholder = text "***"

-- `CHANNELS_MASKING_APPLIED`
abbrev pub is_masking : Channel → Bool
is_masking push = true
is_masking in_app = false
is_masking email = false
is_masking sms = false
is_masking whatsapp = false

-- `masked[variable] = MASK_PLACEHOLDER`, where the variable is there
abbrev pub hide : String → Context → Context
hide variable [] = []
hide variable ((name, value) ∷ context) =
    (name, (if str_eq name variable then mask_placeholder else value)) ∷ hide variable context

abbrev pub hide_all : List String → Context → Context
hide_all [] context = context
hide_all (variable ∷ variables) context = hide_all variables (hide variable context)

-- `mask_context`
unfoldable pub mask_context : Context → NotifEvent → Channel → Context
mask_context context e channel =
    if not (is_masking channel) then context else hide_all e.confidentiality_masks context

-- `Template(source).render(context)` is Django's: a text, or an exception with its own.
module _ (render_source : String → Context → Result String String) where
  abbrev pub render : String → Context → Result String String
  render source context = if is_empty source then ok source else render_source source context

  abbrev pub and_then {ℓ κ} :
      {A : Type ℓ} {B : Type κ} → Result String A → (A → Result String B) → Result String B
  and_then (ok a) f = f a
  and_then (err e) f = err e

  -- `render_for_channel`: title, body, URL of the action
  unfoldable pub render_for_channel :
      Template → Context → NotifEvent → Channel → Result String (String × String × String)
  unfolding mask_context
  render_for_channel template context e channel =
      let shown = mask_context context e channel in
      and_then (render template.title_template shown) λ title.
        and_then (render template.template_body shown) λ body.
          and_then (render template.action_url_template shown)
            λ action_url. ok (title, body, action_url)
