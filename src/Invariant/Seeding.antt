-- ===== src/Invariant/Seeding.antt =====
-- What the script scripts/seed.py keeps.
use flyrank_capstone_lead_ca.Prelude.{ℕ, suc, List, [], ◌∷◌, Dict, none}
use flyrank_capstone_lead_ca.Errors.{uncaught, index_error}
use flyrank_capstone_lead_ca.Models.{Widget, Tables}
use flyrank_capstone_lead_ca.Session.{add_tenant, Engine, scalar_one_or_none}
use flyrank_capstone_lead_ca.Schemas.{Value}
use flyrank_capstone_lead_ca.Widgets.{list_widgets, count_widgets}
use flyrank_capstone_lead_ca.Auth.{Crypto, hash_password, with_email}
use flyrank_capstone_lead_ca.Seed.{
  Account, acme, globex, demo_password, seeded_tenant, found_or_insert, upsert_tenant,
  newsletter_payload, contact_payload, waitlist_payload, demo_leads, seed_context, last_widget, Run,
  acme_widgets, globex_widgets, add_leads, main,
}
use flyrank_capstone_lead_ca.Invariant.{
  Invariant, Anything, Preserves, pure-Ensures, raise-Ensures, if-Ensures,
}
use flyrank_capstone_lead_ca.Invariant.Editing.{add-commit-Ensures, create_widget-Preserves}
use flyrank_capstone_lead_ca.Invariant.Calls.{
  select-Preserves, lift-Preserves, option-Preserves, then-Preserves,
}
use flyrank_capstone_lead_ca.Invariant.Requests.{create_submission-Preserves}

upsert_tenant-Preserves :
    (c : Crypto) (e : Engine) (i : Invariant e) (id salt now : ℕ) (a : Account)
    → Preserves i (upsert_tenant c e id salt now a)
unfolding upsert_tenant
upsert_tenant-Preserves c e i id salt now a =
    then-Preserves i _ _ (select-Preserves i (with_email a.email)) (λ rows.
      then-Preserves i _ _ (lift-Preserves i (scalar_one_or_none rows)) (
        option-Preserves i (found_or_insert c e id salt now a)
          (then-Preserves i _ _ (lift-Preserves i (hash_password c salt demo_password)) (λ h.
            add-commit-Ensures i Anything (add_tenant (seeded_tenant id now a h)) _
              (i.allows_tenant (seeded_tenant id now a h))
              (pure-Ensures i Anything (seeded_tenant id now a h) tt)))
          (λ r. pure-Ensures i Anything r tt)))

last_widget-Preserves :
    {e : Engine} (i : Invariant e) (ws : List Widget) → Preserves i (last_widget ws)
last_widget-Preserves i [] = raise-Ensures i Anything (uncaught index_error)
last_widget-Preserves i (w ∷ []) = pure-Ensures i Anything w tt
last_widget-Preserves i (w ∷ w' ∷ ws) = last_widget-Preserves i (w' ∷ ws)

module _ (v : Run) (i : Invariant v.engine) (any_id : (id tenant_id : ℕ) → i.lawful id tenant_id)
    (any_widget : (w : Widget) → i.knows w)
    (keeps : (t : Tables) → i.holds t → i.holds (v.others t)) where
  acme_widgets-Preserves : (tenant_id number : ℕ) → Preserves i (acme_widgets v tenant_id number)
  acme_widgets-Preserves tenant_id number =
      if-Ensures i Anything _ _ _
        (then-Preserves i _ _
          (create_widget-Preserves i v.newsletter_id v.now v.newsletter_candidates tenant_id
            newsletter_payload (any_id v.newsletter_id tenant_id))
          (λ newsletter.
            then-Preserves i _ _
              (create_widget-Preserves i v.contact_id v.now v.contact_candidates tenant_id
                contact_payload (any_id v.contact_id tenant_id))
              (λ contact. pure-Ensures i Anything newsletter tt)))
        (then-Preserves i _ _ (select-Preserves i (list_widgets v.newest_first tenant_id))
          (last_widget-Preserves i))

  globex_widgets-Preserves :
      (tenant_id number : ℕ) → Preserves i (globex_widgets v tenant_id number)
  globex_widgets-Preserves tenant_id number =
      if-Ensures i Anything _ _ _
        (then-Preserves i _ _
          (create_widget-Preserves i v.waitlist_id v.now v.waitlist_candidates tenant_id
            waitlist_payload (any_id v.waitlist_id tenant_id))
          (λ waitlist. pure-Ensures i Anything tt tt))
        (pure-Ensures i Anything tt tt)

  add_leads-Preserves :
      (newsletter : Widget) (number : ℕ) (leads : List (Dict Value))
      → Preserves i (add_leads v newsletter number leads)
  add_leads-Preserves newsletter number [] = pure-Ensures i Anything tt tt
  add_leads-Preserves newsletter number (entry ∷ more) =
      then-Preserves i _ _
        (create_submission-Preserves i v.settings (v.stamps number) newsletter v.network v.others
          (record {
            widget_id = newsletter.public_id;
            lead = entry;
            honeypot = none;
            elapsed_ms = none;
          })
          seed_context (any_widget newsletter) keeps)
        (λ r. add_leads-Preserves newsletter (suc number) more)

  pub main-Preserves : Preserves i (main v)
  unfolding main
  main-Preserves =
      then-Preserves i _ _
        (upsert_tenant-Preserves v.crypto v.engine i v.acme_id v.acme_salt v.now acme)
        (λ a.
          then-Preserves i _ _
            (upsert_tenant-Preserves v.crypto v.engine i v.globex_id v.globex_salt v.now globex)
            (λ b. then-Preserves i _ _ (select-Preserves i (count_widgets a.id)) (λ m.
              then-Preserves i _ _ (acme_widgets-Preserves a.id m) (λ newsletter.
                then-Preserves i _ _ (select-Preserves i (count_widgets b.id)) (λ n.
                  then-Preserves i _ _ (globex_widgets-Preserves b.id n)
                    (λ u. add_leads-Preserves newsletter 0 demo_leads))))))
