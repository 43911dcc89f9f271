-- ===== src/Seed/Again.antt =====
-- `upsert_tenant` of scripts/seed.py, run again.
use flyrank_capstone_lead_ca.Prelude.{
  ℕ, ◌≡◌, refl, ap, ◌∙◌, inl, inr, String, Option, none, some, List, [], ◌∷◌, ◌++◌, where_, arith,
  ◌==◌, eq_iff, where-append, Option-cases,
}
use mathlib.Core.Path.{subst}
use flyrank_capstone_lead_ca.Errors.{Result, ok, err}
use flyrank_capstone_lead_ca.Models.{Tenant, Tables}
use flyrank_capstone_lead_ca.Session.{
  add_tenant, Engine, Session, opened, apply, write_all, commit, scalar_one_or_none, continue, add,
  pure, ◌>>◌,
}
use flyrank_capstone_lead_ca.Auth.{Crypto, hash_password, with_email}
use flyrank_capstone_lead_ca.Seed.{
  Account, demo_password, seeded_tenant, found_or_insert, upsert_tenant,
}

-- The account is the one of its email, and it is all that the session has changed.
pub record IsSeeded (a : Account) (r : Tenant) (z : Session) : Type 0 where
  pub only : with_email a.email z.saved ≡ r ∷ []
  pub opens : z ≡ opened z.saved

scalar-some :
    (rows : List Tenant) (r : Tenant) → scalar_one_or_none rows ≡ ok (some r) → rows ≡ r ∷ []
scalar-some [] r h = absurd (cc)
scalar-some (x ∷ []) r h = ap (λ (y : Tenant). y ∷ []) (cc h)
scalar-some (x ∷ y ∷ rows) r h = absurd (cc)

scalar-none : (rows : List Tenant) → scalar_one_or_none rows ≡ ok none → rows ≡ []
scalar-none [] h = refl
scalar-none (x ∷ []) h = absurd (cc)
scalar-none (x ∷ y ∷ rows) h = absurd (cc)

email_added :
    (t : Tables) (new : Tenant)
    → with_email new.email t ≡ []
    → where_ (λ r. r.email == new.email) (t.tenants ++ new ∷ []) ≡ new ∷ []
unfolding where_
email_added t new h =
    rw (where-append (λ (r : Tenant). r.email == new.email) t.tenants (new ∷ []), h)
      (ground (arith, eq_iff new.email new.email))

module _ (c : Crypto) (e : Engine) (id salt now : ℕ) (a : Account) (t : Tables) where
  -- The steps once the password is hashed.
  insert_hashed : Result String → Result Tenant × Session
  insert_hashed o =
      continue o
        (λ h.
          add (add_tenant (seeded_tenant id now a h))
          >> (commit e >> pure (seeded_tenant id now a h)))
        (opened t)

  stored :
      (k : String) (r : Tenant) (z : Session)
      → with_email a.email t ≡ []
      → opened (apply t (add_tenant (seeded_tenant id now a k))) ≡ z
      → seeded_tenant id now a k ≡ r
      → IsSeeded a r z
  unfolding apply
  stored k r z nobody ends row =
      let new = seeded_tenant id now a k in
      subst (IsSeeded a r) ends
        (record { only = email_added t new nobody ∙ ap (λ (x : Tenant). x ∷ []) row; opens = refl })

  insert-IsSeeded :
      (o : Result String) (r : Tenant) (z : Session)
      → with_email a.email t ≡ []
      → insert_hashed o ≡ (ok r, z)
      → IsSeeded a r z
  unfolding insert_hashed commit write_all apply
  insert-IsSeeded (err x) r z nobody h = absurd (cc)
  insert-IsSeeded (ok k) r z nobody h =
      elim (Option-cases (e.refusal t (add_tenant (seeded_tenant id now a k)))) [
        | inl n ↦ stored k r z nobody (cc (rw n at h)) (cc (rw n at h))
        | inr (x, n) ↦ absurd (cc (rw n at h))
      ]

  after_lookup :
      (o : Result (Option Tenant)) (r : Tenant) (z : Session)
      → scalar_one_or_none (with_email a.email t) ≡ o
      → continue o (found_or_insert c e id salt now a) (opened t) ≡ (ok r, z)
      → IsSeeded a r z
  unfolding insert_hashed
  after_lookup (err x) r z found h = absurd (cc)
  after_lookup (ok none) r z found h =
      insert-IsSeeded (hash_password c salt demo_password) r z (scalar-none _ found) h
  after_lookup (ok (some x)) r z found h =
      let row : x ≡ r = cc h in
      let ends : opened t ≡ z = ap (λ (o : Result Tenant × Session). o.1) h in
      subst (IsSeeded a r) ends
        (record { only = scalar-some _ x found ∙ ap (λ (y : Tenant). y ∷ []) row; opens = refl })

  -- A seeding that returned an account has left it as the only one of its email, and every later one
  -- for the email, whatever its engine, its new id, its salt and its time, returns this account and
  -- changes nothing.
  pub upsert_tenant_again :
      (r : Tenant) (z : Session) (c' : Crypto) (e' : Engine) (id' salt' now' : ℕ)
      → upsert_tenant c e id salt now a (opened t) ≡ (ok r, z)
      → (with_email a.email z.saved ≡ r ∷ [])
        × (upsert_tenant c' e' id' salt' now' a (opened z.saved) ≡ (ok r, opened z.saved))
  unfolding upsert_tenant
  upsert_tenant_again r z c' e' id' salt' now' h =
      let seeded = after_lookup (scalar_one_or_none (with_email a.email t)) r z refl h in
      (seeded.only, rw seeded.only refl)
