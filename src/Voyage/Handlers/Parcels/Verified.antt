-- ===== src/Voyage/Handlers/Parcels/Verified.antt =====
-- What the verification of a parcel leaves in its table.
use toupac.Prelude.{
  ℕ, ◌≡◌, refl, sym, ◌∙◌, ap, Bool, true, false, ◌&&◌, &&_both, some, ◌==◌, ==_iff, first-some,
  first-update_where, if◌then◌else◌,
}
use mathlib.Core.Option
use toupac.Voyage.Models.{Parcel, ParcelStatus, ControlSession}
use toupac.Voyage.Host.{ok}
use toupac.Voyage.Db.{find_parcel}
use toupac.Voyage.Tx.{State, Env, pure, modify}
use toupac.Voyage.Tx.Inversion.{
  bind-eq-ok, pure-eq-ok, lift-eq-ok, gets-eq-ok, required-eq-ok, fields_of-eq-ok,
}
use toupac.Voyage.Events.{Event, Report, Ref, raw, key, ref_key}
use toupac.Voyage.Handlers.Parcels.{
  is_before_transit, verified_status, load_parcel, save_parcel, handle_parcel_verify,
}

abbrev on_the_way : Parcel → Parcel
on_the_way p = record p { status = ParcelStatus.in_transit }

-- what a verification makes of each status
abbrev pub after_loading : ParcelStatus → ParcelStatus
after_loading ParcelStatus.created = ParcelStatus.in_transit
after_loading ParcelStatus.picked_up = ParcelStatus.in_transit
after_loading ParcelStatus.in_transit = ParcelStatus.in_transit
after_loading ParcelStatus.at_hub = ParcelStatus.at_hub
after_loading ParcelStatus.out_for_delivery = ParcelStatus.out_for_delivery
after_loading ParcelStatus.delivered = ParcelStatus.delivered
after_loading ParcelStatus.returned = ParcelStatus.returned

verified_status-after_loading :
    (status : ParcelStatus) → verified_status status ≡ after_loading status
verified_status-after_loading ParcelStatus.created = refl
verified_status-after_loading ParcelStatus.picked_up = refl
verified_status-after_loading ParcelStatus.in_transit = refl
verified_status-after_loading ParcelStatus.at_hub = refl
verified_status-after_loading ParcelStatus.out_for_delivery = refl
verified_status-after_loading ParcelStatus.delivered = refl
verified_status-after_loading ParcelStatus.returned = refl

ref_key-state :
    (env : Env) (r : Ref) (s : State) {i : ℕ} {t : State} → ref_key env r s ≡ (ok i, t) → t ≡ s
unfolding ref_key
ref_key-state env (raw v) s h = (lift-eq-ok _ s h).1
ref_key-state env (key i) s h = (pure-eq-ok i s h).1

module _ (env : Env) (tenant : ℕ) (session : ControlSession) where
  load_parcel-eq-ok :
      (event : Event) (s : State) {p : Parcel} {t : State}
      → load_parcel env tenant session event s ≡ (ok p, t)
      → (find_parcel tenant p.id s.db ≡ some p) × (t ≡ s)
  unfolding load_parcel
  load_parcel-eq-ok event s {p} h =
      let (payload, s1, e1, h1) = bind-eq-ok _ _ s h in
      let (ref, s2, e2, h2) = bind-eq-ok _ _ s1 h1 in
      let (i, s3, e3, h3) = bind-eq-ok _ _ s2 h2 in
      let (found, s4, e4, h4) = bind-eq-ok _ _ s3 h3 in
      let start =
        ref_key-state env ref s2 e3
        ∙ (required-eq-ok _ _ _ s1 e2).1
        ∙ (fields_of-eq-ok env event.payload s e1).1 in
      let (looked, same4) = gets-eq-ok _ s3 e4 in
      let (is_found, same) = required-eq-ok found _ _ s4 h4 in
      let there : find_parcel tenant i s.db ≡ some p =
        ap (λ u. find_parcel tenant i u.db) (sym start) ∙ sym looked ∙ is_found in
      let selected =
        &&_both (p.tenant == tenant) (p.id == i)
          (first-some (λ q. q.id) (λ q. q.tenant == tenant && q.id == i) s.db.parcels p there) in
      (
        ap (λ j. find_parcel tenant j s.db) ((==_iff p.id i).0 selected.1) ∙ there,
        same ∙ same4 ∙ start,
      )

  verify_step :
      (b : Bool) (p : Parcel) (s : State) {x : Unit {0}} {t : State}
      → find_parcel tenant p.id s.db ≡ some p
      → (if b then save_parcel env tenant session p.id ParcelStatus.in_transit else pure tt) s
        ≡ (ok x, t)
      → find_parcel tenant p.id t.db
        ≡ some (record p { status = if b then ParcelStatus.in_transit else p.status })
  unfolding save_parcel modify
  verify_step true p s found h =
      ap (λ r. find_parcel tenant p.id r.1.db) (sym h)
      ∙ first-update_where (λ q. q.id) (λ q. q.tenant == tenant && q.id == p.id) (λ q. q.id == p.id)
          on_the_way s.db.parcels (λ q. refl) (λ q. refl)
          (λ q k. (&&_both (q.tenant == tenant) (q.id == p.id) k).1)
      ∙ ap (Option.map on_the_way) found
  verify_step false p s found h =
      ap (λ u. find_parcel tenant p.id u.db) (pure-eq-ok tt s h).1 ∙ found

  -- A verification that returns has found a parcel of the tenant; the same query finds it in transit
  -- if it was created or picked up, and as it was otherwise.
  pub handle_parcel_verify-moves :
      (event : Event) (s : State) (report : Report) (t : State)
      → handle_parcel_verify env tenant session event s ≡ (ok report, t)
      → (p : Parcel) × (find_parcel tenant p.id s.db ≡ some p)
        × (find_parcel tenant p.id t.db ≡ some (record p { status = after_loading p.status }))
  unfolding handle_parcel_verify
  handle_parcel_verify-moves event s report t h =
      let (p, s1, e1, h1) = bind-eq-ok _ _ s h in
      let (x, s2, e2, h2) = bind-eq-ok _ _ s1 h1 in
      let (found, same) = load_parcel-eq-ok event s e1 in
      (
        p,
        found,
        ap (λ u. find_parcel tenant p.id u.db) (pure-eq-ok _ s2 h2).1
            ∙ verify_step (is_before_transit p.status) p s1
                (ap (λ u. find_parcel tenant p.id u.db) same ∙ found) e2
            ∙ ap (λ st. some (record p { status = st })) (verified_status-after_loading p.status),
      )
