-- ===== src/Widgets/Isolation.antt =====
-- A tenant reads and writes its own widgets only.
use flyrank_capstone_lead_ca.Prelude.{
  ℕ, ◌≡◌, ◌⊎◌, refl, ap, sym, ◌∙◌, inl, inr, true, false, not, ◌&&◌, List, [], ◌∷◌, map, where_,
  arith, All, All-where, nat_eq, if◌then◌else◌, Bool-cases, Option-cases,
}
use mathlib.Core.Path.{subst}
use flyrank_capstone_lead_ca.Errors.{Result, ok, err, uncaught, multiple_results, Error}
use flyrank_capstone_lead_ca.Models.{Widget, Tables}
use flyrank_capstone_lead_ca.Session.{
  set_widget, drop_widget, Engine, Session, opened, apply, write_all, commit, scalar_one_or_none,
  continue, replace_widget,
}
use flyrank_capstone_lead_ca.Schemas.{WidgetUpdate}
use flyrank_capstone_lead_ca.Widgets.{
  not_found, owned, or_not_found, get_widget_for_tenant, updated, write_update, write_delete,
  update_widget, delete_widget,
}

-- The rows of the other tenants.
abbrev pub of_others : ℕ → Tables → List Widget
of_others tenant_id t = where_ (λ w. not (nat_eq w.tenant_id tenant_id)) t.widgets

-- Ids are a primary key: at most one row has any of them.
abbrev pub UniqueIds : List Widget → Type 0
UniqueIds [] = Unit
UniqueIds (w ∷ ws) = All (λ v. nat_eq v.id w.id ≡ false) ws × UniqueIds ws

get_found :
    (tenant_id widget_id : ℕ) (rows : List Widget) (w : Widget) (s : Session)
    → (continue (scalar_one_or_none rows) or_not_found s).0 ≡ ok w
    → rows ≡ w ∷ []
get_found tenant_id widget_id [] w s h = absurd (cc)
get_found tenant_id widget_id (r ∷ []) w s h = cc
get_found tenant_id widget_id (r ∷ r' ∷ rows) w s h = absurd (cc)

-- The rows of one tenant.
abbrev pub own : ℕ → Tables → List Widget
own tenant_id t = where_ (λ w. nat_eq w.tenant_id tenant_id) t.widgets

owned-own :
    (tenant_id widget_id : ℕ) (rows : List Widget)
    → where_ (λ w. nat_eq w.id widget_id && nat_eq w.tenant_id tenant_id) rows
      ≡ where_ (λ w. nat_eq w.id widget_id) (where_ (λ w. nat_eq w.tenant_id tenant_id) rows)
unfolding where_
owned-own tenant_id widget_id [] = refl
owned-own tenant_id widget_id (r ∷ rows) = ground (arith, owned-own tenant_id widget_id rows)

-- What a tenant is told of an id depends on its own widgets alone: on two databases in which the
-- tenant has the same widgets, whatever the others have, it gets the same answer.
pub get_widget_for_tenant_isolated :
    (tenant_id widget_id : ℕ) (t t' : Tables)
    → own tenant_id t ≡ own tenant_id t'
    → (get_widget_for_tenant tenant_id widget_id (opened t)).0
      ≡ (get_widget_for_tenant tenant_id widget_id (opened t')).0
unfolding get_widget_for_tenant
get_widget_for_tenant_isolated tenant_id widget_id t t' h = answer (
    owned-own tenant_id widget_id t.widgets
    ∙ ap (where_ (λ w. nat_eq w.id widget_id)) h
    ∙ sym (owned-own tenant_id widget_id t'.widgets))
  where
    result : (rows : List Widget) (s : Session) → Result Widget
    result rows s = (continue (scalar_one_or_none rows) or_not_found s).0

    same : (rows : List Widget) → result rows (opened t) ≡ result rows (opened t')
    same [] = refl
    same (r ∷ []) = refl
    same (r ∷ r' ∷ rows) = refl

    answer :
        owned tenant_id widget_id t ≡ owned tenant_id widget_id t'
        → result (owned tenant_id widget_id t) (opened t)
          ≡ result (owned tenant_id widget_id t') (opened t')
    answer e = rw e (same (owned tenant_id widget_id t'))

-- Of the rows with an id, which is at most one, none belongs to another tenant.
abbrev IsMine : ℕ → ℕ → Widget → Type 0
IsMine tenant_id widget_id v =
    (if nat_eq v.id widget_id then nat_eq v.tenant_id tenant_id else true) ≡ true

none_of_id :
    (tenant_id widget_id : ℕ) (rows : List Widget) (id : ℕ)
    → id ≡ widget_id
    → All (λ v. nat_eq v.id id ≡ false) rows
    → (where_ (λ w. nat_eq w.id widget_id && nat_eq w.tenant_id tenant_id) rows ≡ [])
      × All (IsMine tenant_id widget_id) rows
unfolding where_
none_of_id tenant_id widget_id [] id e h = (refl, tt)
none_of_id tenant_id widget_id (r ∷ rows) id e (n, h) =
    let (nothing, mine) = none_of_id tenant_id widget_id rows id e h in
    (ground arith, (ground arith, mine))

IsMine-owned :
    (tenant_id widget_id : ℕ) (rows : List Widget) (w : Widget)
    → UniqueIds rows
    → where_ (λ v. nat_eq v.id widget_id && nat_eq v.tenant_id tenant_id) rows ≡ w ∷ []
    → All (IsMine tenant_id widget_id) rows
unfolding where_
IsMine-owned tenant_id widget_id [] w u h = tt
IsMine-owned tenant_id widget_id (r ∷ rows) w (n, u) h = elim (Bool-cases (nat_eq r.id widget_id)) [
  | inl e ↦
      let same : r.id ≡ widget_id = ground arith in
      let (nothing, mine) = none_of_id tenant_id widget_id rows r.id same n in (ground arith, mine)
  | inr e ↦ (ground arith, IsMine-owned tenant_id widget_id rows w u (ground arith))
]

others-replace :
    (tenant_id : ℕ) (new : Widget) (rows : List Widget)
    → nat_eq new.tenant_id tenant_id ≡ true
    → All (IsMine tenant_id new.id) rows
    → where_ (λ w. not (nat_eq w.tenant_id tenant_id)) (map (replace_widget new) rows)
      ≡ where_ (λ w. not (nat_eq w.tenant_id tenant_id)) rows
unfolding where_
others-replace tenant_id new [] h m = refl
others-replace tenant_id new (r ∷ rows) h (m, ms) = elim (Bool-cases (nat_eq r.id new.id)) [
  | inl e ↦ rw e (ground (arith, others-replace tenant_id new rows h ms))
  | inr e ↦ rw e (ground (arith, others-replace tenant_id new rows h ms))
]

others-delete :
    (tenant_id id : ℕ) (rows : List Widget)
    → All (IsMine tenant_id id) rows
    → where_ (λ w. not (nat_eq w.tenant_id tenant_id)) (where_ (λ r. not (nat_eq r.id id)) rows)
      ≡ where_ (λ w. not (nat_eq w.tenant_id tenant_id)) rows
unfolding where_
others-delete tenant_id id [] m = refl
others-delete tenant_id id (r ∷ rows) (m, ms) = ground (arith, others-delete tenant_id id rows ms)

-- How the lookup ends: with the one row of the tenant, or with an error; the session stays.
pub get-cases :
    (tenant_id widget_id : ℕ) (t : Tables)
    → ((w : Widget) × (owned tenant_id widget_id t ≡ w ∷ [])
        × (get_widget_for_tenant tenant_id widget_id (opened t) ≡ (ok w, opened t)))
      ⊎ ((x : Error) × (get_widget_for_tenant tenant_id widget_id (opened t) ≡ (err x, opened t)))
unfolding get_widget_for_tenant
get-cases tenant_id widget_id t = go (owned tenant_id widget_id t) refl
  where
    go :
        (rows : List Widget)
        → owned tenant_id widget_id t ≡ rows
        → ((w : Widget) × (owned tenant_id widget_id t ≡ w ∷ [])
            × (get_widget_for_tenant tenant_id widget_id (opened t) ≡ (ok w, opened t)))
          ⊎ ((x : Error) × (get_widget_for_tenant tenant_id widget_id (opened t)
                ≡ (err x, opened t)))
    go [] h = inr (not_found, rw h)
    go (w ∷ []) h = inl (w, h, rw h)
    go (w ∷ w' ∷ rows) h = inr (uncaught multiple_results, rw h)

owned-tenant :
    (tenant_id widget_id : ℕ) (rows : List Widget) (w : Widget)
    → where_ (λ v. nat_eq v.id widget_id && nat_eq v.tenant_id tenant_id) rows ≡ w ∷ []
    → (nat_eq w.id widget_id && nat_eq w.tenant_id tenant_id) ≡ true
owned-tenant tenant_id widget_id rows w h =
    (subst (All (λ v. (nat_eq v.id widget_id && nat_eq v.tenant_id tenant_id) ≡ true)) h
      (All-where (λ v. nat_eq v.id widget_id && nat_eq v.tenant_id tenant_id) rows)).0

module _ (e : Engine) (tenant_id : ℕ) (t : Tables) (ids : UniqueIds t.widgets) where
  write_update-others :
      (now : ℕ) (p : WidgetUpdate) (w : Widget)
      → nat_eq w.tenant_id tenant_id ≡ true
      → All (IsMine tenant_id w.id) t.widgets
      → of_others tenant_id (write_update e now p w (opened t)).1.saved ≡ of_others tenant_id t
  unfolding write_update updated commit write_all apply
  write_update-others now p w h m =
      elim (Option-cases (e.refusal t (set_widget (updated now p w)))) [
        | inl n ↦ ground (arith, others-replace tenant_id (updated now p w) t.widgets h m)
        | inr (x, n) ↦ ground arith
      ]

  -- Where ids are unique, an update by a tenant, whatever it asks for and however it ends, leaves
  -- every widget of every other tenant as it was.
  pub update_widget-of_others :
      (now widget_id : ℕ) (p : WidgetUpdate)
      → of_others tenant_id (update_widget e now tenant_id widget_id p (opened t)).1.saved
        ≡ of_others tenant_id t
  unfolding update_widget
  update_widget-of_others now widget_id p = elim (get-cases tenant_id widget_id t) [
    | inl (w, h, g) ↦ rw g (found w h)
    | inr (x, g) ↦ rw g
  ]
    where
      found :
          (w : Widget)
          → owned tenant_id widget_id t ≡ w ∷ []
          → of_others tenant_id (write_update e now p w (opened t)).1.saved ≡ of_others tenant_id t
      found w h =
          let mine = owned-tenant tenant_id widget_id t.widgets w h in
          let same : widget_id ≡ w.id = ground arith in
          write_update-others now p w (ground arith) (
            subst (λ i. All (IsMine tenant_id i) t.widgets) same
              (IsMine-owned tenant_id widget_id t.widgets w ids h))

  write_delete-others :
      (w : Widget)
      → All (IsMine tenant_id w.id) t.widgets
      → of_others tenant_id (write_delete e w (opened t)).1.saved ≡ of_others tenant_id t
  unfolding write_delete commit write_all apply
  write_delete-others w m = elim (Option-cases (e.refusal t (drop_widget w.id))) [
    | inl n ↦ ground (arith, others-delete tenant_id w.id t.widgets m)
    | inr (x, n) ↦ ground arith
  ]

  -- Where ids are unique, a deletion by a tenant, of whatever id and however it ends, leaves every
  -- widget of every other tenant as it was.
  delete_widget-of_others :
      (widget_id : ℕ)
      → of_others tenant_id (delete_widget e tenant_id widget_id (opened t)).1.saved
        ≡ of_others tenant_id t
  unfolding delete_widget
  delete_widget-of_others widget_id = elim (get-cases tenant_id widget_id t) [
    | inl (w, h, g) ↦ rw g (found w h)
    | inr (x, g) ↦ rw g
  ]
    where
      found :
          (w : Widget)
          → owned tenant_id widget_id t ≡ w ∷ []
          → of_others tenant_id (write_delete e w (opened t)).1.saved ≡ of_others tenant_id t
      found w h =
          let mine = owned-tenant tenant_id widget_id t.widgets w h in
          let same : widget_id ≡ w.id = ground arith in
          write_delete-others w (
            subst (λ i. All (IsMine tenant_id i) t.widgets) same
              (IsMine-owned tenant_id widget_id t.widgets w ids h))
