-- ===== src/Public/Identify.antt =====
-- Which widget a submission may be made to.
use flyrank_capstone_lead_ca.Prelude.{
  ◌≡◌, ◌⊎◌, ◌↔◌, refl, sym, ap, ◌∙◌, inl, inr, String, true, Option, none, some, List, [], ◌∷◌, any,
  arith, ◌==◌, eq_iff, Bool-cases, if◌then◌else◌,
}
use mathlib.Core.Path.{subst}
use flyrank_capstone_lead_ca.Errors.{Result, ok, app_error}
use flyrank_capstone_lead_ca.Models.{Widget, Tables}
use flyrank_capstone_lead_ca.Session.{Session, opened, scalar_one_or_none, continue, pure, raise}
use flyrank_capstone_lead_ca.Schemas.{SubmissionCreate}
use flyrank_capstone_lead_ca.Widgets.{with_public_id}
use flyrank_capstone_lead_ca.Widgets.Serving.{
  get_active_widget_by_public_id, active_or_raise, without_slash, origins_or_empty, origin_in,
  origin_allowed,
}
use flyrank_capstone_lead_ca.Public.{Request}
use flyrank_capstone_lead_ca.Public.Submit.{identify}

-- One of the origins is this one, slashes at the end aside.
abbrev pub Lists : List String → String → Type 0
Lists [] origin = ⊥
Lists (a ∷ as_) origin = (without_slash a ≡ without_slash origin) ⊎ Lists as_ origin

-- The widget's list of origins is empty, or has the origin of the request.
abbrev pub Allows : Widget → Option String → Type 0
Allows w o =
    (origins_or_empty w.allowed_origins ≡ [])
    ⊎ ((origin : String) × (o ≡ some origin) × Lists (origins_or_empty w.allowed_origins) origin)

Lists-any :
    (as_ : List String) (origin : String)
    → any (λ b. without_slash b == without_slash origin) as_ ≡ true
    → Lists as_ origin
Lists-any [] origin h = absurd (cc)
Lists-any (a ∷ as_) origin h = elim (Bool-cases (without_slash a == without_slash origin)) [
  | inl e ↦ inl ((eq_iff (without_slash a) (without_slash origin)).0 e)
  | inr e ↦ inr (Lists-any as_ origin (rw e at h))
]

any-Lists :
    (as_ : List String) (origin : String)
    → Lists as_ origin
    → any (λ b. without_slash b == without_slash origin) as_ ≡ true
any-Lists [] origin h = elim h [ ]
any-Lists (a ∷ as_) origin (inl e) = rw ((eq_iff (without_slash a) (without_slash origin)).1 e) refl
any-Lists (a ∷ as_) origin (inr h) = rw (any-Lists as_ origin h) (ground arith)

origin_in-Allows :
    (os : List String) (o : Option String)
    → origin_in os o ≡ true
    → (os ≡ []) ⊎ ((origin : String) × (o ≡ some origin) × Lists os origin)
origin_in-Allows [] o h = inl refl
origin_in-Allows (a ∷ as_) none h = absurd (cc)
origin_in-Allows (a ∷ as_) (some origin) h = inr (origin, refl, Lists-any (a ∷ as_) origin h)

Allows-origin_in :
    (os : List String) (o : Option String)
    → (os ≡ []) ⊎ ((origin : String) × (o ≡ some origin) × Lists os origin)
    → origin_in os o ≡ true
Allows-origin_in os o (inl e) = rw e refl
Allows-origin_in [] o (inr h) = refl
Allows-origin_in (a ∷ as_) o (inr (origin, e, h)) = rw e (any-Lists (a ∷ as_) origin h)

module _ (req : Request) (payload : SubmissionCreate) (t : Tables) where
  abbrev identified : List Widget → Result Widget × Session
  identified rows =
      continue (continue (scalar_one_or_none rows) active_or_raise (opened t)).0
        (λ w.
          if origin_in (origins_or_empty w.allowed_origins) req.origin
          then pure w
          else raise (app_error "this origin is not allowed to submit to this widget" 403))
        (continue (scalar_one_or_none rows) active_or_raise (opened t)).1

  identify_rows : identify req payload (opened t) ≡ identified (with_public_id payload.widget_id t)
  unfolding identify get_active_widget_by_public_id origin_allowed
  identify_rows = refl

  ok-identified :
      (rows : List Widget) (w : Widget)
      → (identified rows).0 ≡ ok w
      → (rows ≡ w ∷ []) × (w.active ≡ true) × Allows w req.origin
  ok-identified [] w h = absurd (cc)
  ok-identified (v ∷ []) w h = elim (Bool-cases v.active) [
    | inr e ↦ absurd (cc (rw e at h))
    | inl e ↦ elim (Bool-cases (origin_in (origins_or_empty v.allowed_origins) req.origin)) [
      | inr f ↦ absurd (cc (rw (e, f) at h))
      | inl f ↦
          let same : v ≡ w = cc in
          (
            ap (λ x. x ∷ []) same,
            sym (ap (λ (x : Widget). x.active) same) ∙ e,
            subst (λ x. Allows x req.origin) same
                (origin_in-Allows (origins_or_empty v.allowed_origins) req.origin f),
          )
    ]
  ]
  ok-identified (v ∷ v' ∷ rows) w h = absurd (cc)

  -- The endpoint goes on with a widget exactly when this is the one row with the public id of the
  -- payload, it is active, and its list of origins is empty or has the origin that the request
  -- names, slashes at the end aside. Nothing is written.
  pub identify_iff :
      (w : Widget)
      → (identify req payload (opened t) ≡ (ok w, opened t))
        ↔ ((with_public_id payload.widget_id t ≡ w ∷ []) × (w.active ≡ true) × Allows w req.origin)
  identify_iff w = (
    λ h.
        ok-identified (with_public_id payload.widget_id t) w
          (ap (λ (r : Result Widget × Session). r.0) (sym identify_rows ∙ h)),
    λ h.
        rw
          (
            identify_rows,
            h.0,
            h.1,
            Allows-origin_in (origins_or_empty w.allowed_origins) req.origin h.2,
          )
          refl,
  )
