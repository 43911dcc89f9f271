-- ===== src/Widgets/Creation.antt =====
-- A widget that was created is served under its public id.
use flyrank_capstone_lead_ca.Prelude.{
  ℕ, ◌≡◌, ◌⊎◌, refl, sym, inl, inr, String, some, List, [], ◌∷◌, ◌++◌, where_, arith, ◌==◌, eq_refl,
  where-append, Option-cases, if◌then◌else◌,
}
use mathlib.Core.Path.{subst}
use flyrank_capstone_lead_ca.Errors.{Result, ok, err, app_error, uncaught, multiple_results}
use flyrank_capstone_lead_ca.Models.{Widget, Tables}
use flyrank_capstone_lead_ca.Session.{
  add_widget, Engine, Session, opened, apply, write_all, commit, add, pure, continue, ◌>>◌,
  scalar_one_or_none,
}
use flyrank_capstone_lead_ca.Schemas.{WidgetCreate}
use flyrank_capstone_lead_ca.Widgets.{with_public_id, generate_public_id, new_widget, create_widget}
use flyrank_capstone_lead_ca.Widgets.Serving.{get_active_widget_by_public_id}

rows-cases :
    (rows : List Widget)
    → (rows ≡ [])
      ⊎ ((w : Widget) × (scalar_one_or_none rows ≡ ok (some w)))
      ⊎ (scalar_one_or_none rows ≡ err (uncaught multiple_results))
rows-cases [] = inl refl
rows-cases (w ∷ []) = inr (inl (w, refl))
rows-cases (w ∷ w' ∷ rows) = inr (inr refl)

-- An id that was allocated is no widget's, and allocating it wrote nothing.
generate_lem :
    (candidates : List String) (t : Tables) (id : String) (z : Session)
    → generate_public_id candidates (opened t) ≡ (ok id, z)
    → (with_public_id id t ≡ []) × (z ≡ opened t)
unfolding generate_public_id
generate_lem [] t id z h = absurd (cc)
generate_lem (candidate ∷ more) t id z h = elim (rows-cases (with_public_id candidate t)) [
  | inl e ↦
      let same : (candidate ≡ id) × (opened t ≡ z) = (cc (rw e at h), cc (rw e at h)) in
      (subst (λ i. with_public_id i t ≡ []) same.0 e, sym same.1)
  | inr (inl (w, e)) ↦ generate_lem more t id z (rw e at h)
  | inr (inr e) ↦ absurd (cc (rw e at h))
]

-- What a new widget holds: the payload's members under the tenant, from the first version on.
pub record Holds (key time owner : ℕ) (p : WidgetCreate) (w : Widget) : Type 0 where
  pub id : w.id ≡ key
  pub tenant_id : w.tenant_id ≡ owner
  pub name : w.name ≡ p.name
  pub type : w.type ≡ p.type
  pub title : w.title ≡ p.title
  pub description : w.description ≡ p.description
  pub button_text : w.button_text ≡ p.button_text
  pub success_message : w.success_message ≡ p.success_message
  pub fields : w.fields ≡ some p.fields
  pub display : w.display ≡ some p.display
  pub allowed_origins : w.allowed_origins ≡ some p.allowed_origins
  pub notify_webhook_url : w.notify_webhook_url ≡ p.notify_webhook_url
  pub notify_email : w.notify_email ≡ p.notify_email
  pub active : w.active ≡ p.active
  pub config_version : w.config_version ≡ 1
  pub created_at : w.created_at ≡ time
  pub updated_at : w.updated_at ≡ time

module _ (e : Engine) (id now tenant_id : ℕ) (p : WidgetCreate) (t : Tables) where
  abbrev row_of : String → Widget
  row_of public_id = new_widget id now tenant_id public_id p

  abbrev pub with_widget : String → Tables
  with_widget public_id = record t { widgets = t.widgets ++ row_of public_id ∷ [] }

  holds : (public_id : String) → Holds id now tenant_id p (row_of public_id)
  holds public_id = record {
    id = refl;
    tenant_id = refl;
    name = refl;
    type = refl;
    title = refl;
    description = refl;
    button_text = refl;
    success_message = refl;
    fields = refl;
    display = refl;
    allowed_origins = refl;
    notify_webhook_url = refl;
    notify_email = refl;
    active = refl;
    config_version = refl;
    created_at = refl;
    updated_at = refl;
  }

  -- The steps after the id was allocated.
  insert_widget : Result String → Session → Result Widget × Session
  insert_widget r z =
      continue r
        (λ public_id. add (add_widget (row_of public_id)) >> (commit e >> pure (row_of public_id)))
        z

  insert_lem :
      (public_id : String) (w : Widget) (z : Session)
      → insert_widget (ok public_id) (opened t) ≡ (ok w, z)
      → (w ≡ row_of public_id) × (z ≡ opened (with_widget public_id))
  unfolding insert_widget commit write_all apply
  insert_lem public_id w z h = elim (Option-cases (e.refusal t (add_widget (row_of public_id)))) [
    | inl n ↦ (cc (rw n at h), cc (rw n at h))
    | inr (x, n) ↦ absurd (cc (rw n at h))
  ]

  served :
      (public_id : String)
      → with_public_id public_id t ≡ []
      → with_public_id public_id (with_widget public_id) ≡ row_of public_id ∷ []
  unfolding where_
  served public_id h =
      rw
        (
          where-append (λ (v : Widget). v.public_id == public_id) t.widgets (row_of public_id ∷ []),
          h,
        )
        (ground (arith, eq_refl public_id))

  allocated :
      (candidates : List String) (r : Result String) (y : Session) (w : Widget) (z : Session)
      → generate_public_id candidates (opened t) ≡ (r, y)
      → insert_widget r y ≡ (ok w, z)
      → (public_id : String) × (with_public_id public_id t ≡ [])
        × (w ≡ row_of public_id)
        × (z ≡ opened (with_widget public_id))
  allocated candidates (err x) y w z g h = unfold insert_widget in absurd (cc)
  allocated candidates (ok public_id) y w z g h =
      let (nobody, same) = generate_lem candidates t public_id y g in
      let (row, stored) = insert_lem public_id w z (rw same at h) in
      (public_id, nobody, row, stored)

  -- A creation that returns has added one widget and changed nothing else. It is the tenant's, at
  -- version 1, with the members of the payload, and its public id was no widget's before. On the
  -- tables that the creation leaves, the public lookup of that id returns this widget, if the
  -- payload has it active, and otherwise answers 404.
  pub create_widget_served :
      (candidates : List String) (w : Widget) (z : Session)
      → create_widget e id now candidates tenant_id p (opened t) ≡ (ok w, z)
      → (with_public_id w.public_id t ≡ [])
        × Holds id now tenant_id p w
        × (z ≡ opened (record t { widgets = t.widgets ++ w ∷ [] }))
        × (get_active_widget_by_public_id w.public_id z
            ≡ (if p.active then ok w else err (app_error "widget is not active" 404), z))
  unfolding create_widget get_active_widget_by_public_id insert_widget
  create_widget_served candidates w z h =
      let (public_id, nobody, row, stored) =
        allocated candidates (generate_public_id candidates (opened t)).0
          (generate_public_id candidates (opened t)).1 w z refl h in
      rw (row, stored) (nobody, holds public_id, refl, rw (served public_id nobody) (ground arith))
