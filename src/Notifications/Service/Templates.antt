-- ===== src/Notifications/Service/Templates.antt =====
-- Which template a message is rendered from.
use toupac.Prelude.{
  ℕ, ◌≡◌, refl, sym, ◌∙◌, ap, inl, inr, ◌⊎◌, String, Bool, true, false, ◌&&◌, ◌||◌, &&_both, Option,
  some, none, List, [], ◌∷◌, any, all, select, str_eq, eq_iff, ==_iff, if◌then◌else◌, Bool-cases,
  arith,
}
use toupac.Notifications.Models.{Channel, channel_text, Template}
use toupac.Notifications.Outbox.{is_tenant}
use toupac.Notifications.Service.Delivery.{fits, precedes, earlier, foremost, find_template}

-- an active template of the company for this message
abbrev pub is_own : Option ℕ → String → Channel → String → Template → Bool
is_own tenant event_code channel language t =
    is_tenant t.tenant tenant
    && str_eq t.event_code event_code
    && str_eq (channel_text t.channel) (channel_text channel)
    && str_eq t.language language
    && t.is_active

template_in : Template → Option Template → Template
template_in t none = t
template_in t (some u) = u

earlier-all :
    (p : Template → Bool) (u w : Template) → p u ≡ true → p w ≡ true → p (earlier u (some w)) ≡ true
earlier-all p u w h k = elim (Bool-cases (precedes w.tenant u.tenant)) [
  | inl before ↦ rw before k
  | inr behind ↦ rw behind h
]

foremost-all :
    (p : Template → Bool) (rows : List Template) (t : Template)
    → all p rows ≡ true
    → foremost rows ≡ some t
    → p t ≡ true
unfolding template_in
foremost-all p [] t h e = cc
foremost-all p (u ∷ []) t h e = ap (λ o. p (template_in u o)) (sym e) ∙ (&&_both (p u) true h).0
foremost-all p (u ∷ v ∷ vs) t h e =
    let both = &&_both (p u) (all p (v ∷ vs)) h in
    let w = earlier v (foremost vs) in
    ap (λ o. p (template_in u o)) (sym e)
    ∙ earlier-all p u w both.0 (foremost-all p (v ∷ vs) w both.1 refl)

all-select : (p : Template → Bool) (rows : List Template) → all p (select p rows) ≡ true
all-select p [] = refl
all-select p (t ∷ ts) = ground (arith, all-select p ts)

all-select_other :
    (p q : Template → Bool) (rows : List Template)
    → all p rows ≡ true
    → all p (select q rows) ≡ true
all-select_other p q [] h = refl
all-select_other p q (t ∷ ts) h = ground (arith, all-select_other p q ts)

-- the company's rows come first
own_or_system :
    (i : ℕ) (a b : Option ℕ) (own : Bool)
    → (is_tenant a (some i) || is_tenant a none) ≡ true
    → (if own then is_tenant b (some i) else is_tenant b none) ≡ true
    → (if is_tenant a (some i) || own
        then is_tenant (if precedes b a then b else a) (some i)
        else is_tenant (if precedes b a then b else a) none)
      ≡ true
own_or_system i none none own h k = ground arith
own_or_system i none (some b) own h k = ground arith
own_or_system i (some a) none own h k = ground arith
own_or_system i (some a) (some b) own h k = ground arith

earlier-tenant :
    (u w : Template)
    → (earlier u (some w)).tenant ≡ (if precedes w.tenant u.tenant then w.tenant else u.tenant)
earlier-tenant u w = elim (Bool-cases (precedes w.tenant u.tenant)) [
  | inl before ↦ rw before refl
  | inr behind ↦ rw behind refl
]

alone :
    (i : ℕ) (a : Option ℕ)
    → (is_tenant a (some i) || is_tenant a none) ≡ true
    → (if is_tenant a (some i) || false then is_tenant a (some i) else is_tenant a none) ≡ true
alone i none h = refl
alone i (some a) h = ground arith

if_own : ℕ → Bool → Option ℕ → Bool
if_own i own a = if own then is_tenant a (some i) else is_tenant a none

all-select_or :
    (p : Template → Bool) (rows : List Template) → all p (select (λ t. p t || p t) rows) ≡ true
all-select_or p [] = refl
all-select_or p (t ∷ ts) = ground (arith, all-select_or p ts)

foremost-tenant :
    (i : ℕ) (rows : List Template) (t : Template)
    → all (λ u. is_tenant u.tenant (some i) || is_tenant u.tenant none) rows ≡ true
    → foremost rows ≡ some t
    → (if any (λ u. is_tenant u.tenant (some i)) rows
        then is_tenant t.tenant (some i)
        else is_tenant t.tenant none)
      ≡ true
unfolding if_own template_in
foremost-tenant i [] t h e = cc
foremost-tenant i (u ∷ []) t h e =
    ap (λ o. if_own i (is_tenant u.tenant (some i) || false) (template_in u o).tenant) (sym e)
    ∙ alone i u.tenant (&&_both (is_tenant u.tenant (some i) || is_tenant u.tenant none) true h).0
foremost-tenant i (u ∷ v ∷ vs) t h e =
    let both = &&_both (is_tenant u.tenant (some i) || is_tenant u.tenant none) _ h in
    let w = earlier v (foremost vs) in
    let own = any (λ x. is_tenant x.tenant (some i)) (v ∷ vs) in
    ap (λ o. if_own i (is_tenant u.tenant (some i) || own) (template_in u o).tenant) (sym e)
    ∙ ap (if_own i (is_tenant u.tenant (some i) || own)) (earlier-tenant u w)
    ∙ own_or_system i u.tenant w.tenant own both.0 (foremost-tenant i (v ∷ vs) w both.1 refl)

is_own-select :
    (i : ℕ) (event_code : String) (channel : Channel) (language : String)
    (templates : List Template)
    → any (is_own (some i) event_code channel language) templates
      ≡ any
          (λ u. is_tenant u.tenant (some i))
          (select
            (λ t. is_tenant t.tenant (some i) || is_tenant t.tenant none)
            (select (fits event_code channel language) templates))
is_own-select i event_code channel language [] = refl
is_own-select i event_code channel language (t ∷ ts) =
    ground (arith, is_own-select i event_code channel language ts)

is_tenant-eq : (a b : Option ℕ) → is_tenant a b ≡ true → a ≡ b
is_tenant-eq none none h = refl
is_tenant-eq none (some b) h = cc
is_tenant-eq (some a) none h = cc
is_tenant-eq (some a) (some b) h = ap some ((==_iff a b).0 h)

whose :
    (tenant : Option ℕ) (event_code : String) (channel : Channel) (language : String)
    (templates : List Template) (t : Template)
    → find_template tenant event_code channel language templates ≡ some t
    → (t.tenant ≡ tenant)
      ⊎ ((t.tenant ≡ none) × (any (is_own tenant event_code channel language) templates ≡ false))
unfolding find_template
whose none event_code channel language templates t h = inl (
    is_tenant-eq t.tenant none (
      foremost-all (λ u. is_tenant u.tenant none) _ t
        (all-select_or (λ u. is_tenant u.tenant none)
          (select (fits event_code channel language) templates))
        h))
whose (some i) event_code channel language templates t h =
    let found =
      foremost-tenant i _ t
        (all-select (λ u. is_tenant u.tenant (some i) || is_tenant u.tenant none)
          (select (fits event_code channel language) templates))
        h in
    elim (Bool-cases (any (is_own (some i) event_code channel language) templates)) [
      | inl own ↦ inl (
          is_tenant-eq t.tenant (some i)
            (rw (sym (is_own-select i event_code channel language templates) ∙ own) at found))
      | inr foreign ↦ inr (
        is_tenant-eq t.tenant none
            (rw (sym (is_own-select i event_code channel language templates) ∙ foreign) at found),
        foreign,
      )
    ]

-- The template of a message is of its event, channel and language, and active. It is the company's,
-- or else the system's where no active template of the company is for this message: never another
-- company's.
pub find_template-tenant :
    (tenant : Option ℕ) (event_code : String) (channel : Channel) (language : String)
    (templates : List Template) (t : Template)
    → find_template tenant event_code channel language templates ≡ some t
    → (t.event_code ≡ event_code)
      × (channel_text t.channel ≡ channel_text channel)
      × (t.language ≡ language)
      × (t.is_active ≡ true)
      × ((t.tenant ≡ tenant)
          ⊎ ((t.tenant ≡ none)
              × (any (is_own tenant event_code channel language) templates ≡ false)))
unfolding find_template
find_template-tenant tenant event_code channel language templates t h =
    let fitting =
      foremost-all (fits event_code channel language) _ t
        (all-select_other (fits event_code channel language) _ _
          (all-select (fits event_code channel language) templates))
        h in
    let (rest, live) = &&_both _ _ fitting in
    let (rest2, tongue) = &&_both _ _ rest in
    let (code, on) = &&_both _ _ rest2 in
    (
      (eq_iff t.event_code event_code).0 code,
      (eq_iff (channel_text t.channel) (channel_text channel)).0 on,
      (eq_iff t.language language).0 tongue,
      live,
      whose tenant event_code channel language templates t h,
    )
