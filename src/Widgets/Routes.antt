-- ===== src/Widgets/Routes.antt =====
-- app/routers/widgets.py: the routes around the widget service, for the tenant of the request.
use flyrank_capstone_lead_ca.Prelude.{
  ℕ, All-Perm, nat_eq, where_, arith, ◌≡◌, ◌↔◌, refl, ap, String, Bool, true, ◌&&◌, List, [], ◌∷◌,
  All, is_some, Bool-cases, inl, inr, if◌then◌else◌,
}
use mathlib.Core.List.{Permᴰ}
use mathlib.Core.List.Permᴰ
use flyrank_capstone_lead_ca.Config.{Settings}
use flyrank_capstone_lead_ca.Errors.{Result, ok, err, uncaught, value_error}
use flyrank_capstone_lead_ca.Models.{Widget, Tables}
use flyrank_capstone_lead_ca.Session.{Engine, Session, opened, Action, pure, lift, select, ◌>>=◌}
use flyrank_capstone_lead_ca.Schemas.{WidgetCreate, WidgetUpdate}
use flyrank_capstone_lead_ca.Widgets
use flyrank_capstone_lead_ca.Widgets.{
  embed_snippet, config_url, submit_url, create_widget, list_widgets, get_widget_for_tenant,
  update_widget, delete_widget,
}

-- `WidgetOut`: the row's members, and two texts.
pub record WidgetOut : Type 0 where
  pub widget : Widget
  pub embed_snippet : String
  pub config_url : String

-- The members whose type in `WidgetOut` is a list or a dict; the columns may hold null.
abbrev pub is_complete : Widget → Bool
is_complete w = is_some w.fields && is_some w.display && is_some w.allowed_origins

abbrev pub shown : Settings → Widget → WidgetOut
shown s w = record {
  widget = w;
  embed_snippet = Widgets.embed_snippet s w.public_id;
  config_url = Widgets.config_url s w.public_id;
}

-- `_to_out`. Pydantic's `ValidationError`, which it raises on null, is a `ValueError`.
unfoldable pub to_out : Settings → Widget → Result WidgetOut
unfolding embed_snippet
to_out s w = if is_complete w then ok (shown s w) else err (uncaught value_error)

abbrev pub cons_ok : Result WidgetOut → Result (List WidgetOut) → Result (List WidgetOut)
cons_ok (err x) rest = err x
cons_ok (ok o) (err x) = err x
cons_ok (ok o) (ok os) = ok (o ∷ os)

-- `[_to_out(w) for w in …]`, up to the first that raises
unfoldable pub all_out : Settings → List Widget → Result (List WidgetOut)
unfolding to_out
all_out s [] = ok []
all_out s (w ∷ ws) = cons_ok (to_out s w) (all_out s ws)

pub record Embed : Type 0 where
  pub public_id : String
  pub embed_snippet : String
  pub config_url : String
  pub submit_url : String

module _ (s : Settings) (e : Engine) (tenant_id : ℕ) where
  unfoldable pub post_widget : ℕ → ℕ → List String → WidgetCreate → Action WidgetOut
  unfolding create_widget to_out
  post_widget id now candidates p = do
    w ← create_widget e id now candidates tenant_id p
    lift (to_out s w)

  unfoldable pub get_widgets : (List Widget → List Widget) → Action (List WidgetOut)
  unfolding list_widgets all_out
  get_widgets newest_first = do
    rows ← select (list_widgets newest_first tenant_id)
    lift (all_out s rows)

  unfoldable pub get_widget : ℕ → Action WidgetOut
  unfolding get_widget_for_tenant to_out
  get_widget widget_id = do w ← get_widget_for_tenant tenant_id widget_id; lift (to_out s w)

  unfoldable pub patch_widget : ℕ → ℕ → WidgetUpdate → Action WidgetOut
  unfolding update_widget to_out
  patch_widget now widget_id p = do w ← update_widget e now tenant_id widget_id p; lift (to_out s w)

  unfoldable pub remove_widget : ℕ → Action (Unit {0})
  unfolding delete_widget
  remove_widget widget_id = delete_widget e tenant_id widget_id

  unfoldable pub get_embed_snippet : ℕ → Action Embed
  unfolding get_widget_for_tenant embed_snippet
  get_embed_snippet widget_id = do
    w ← get_widget_for_tenant tenant_id widget_id
    pure (record {
      public_id = w.public_id;
      embed_snippet = Widgets.embed_snippet s w.public_id;
      config_url = Widgets.config_url s w.public_id;
      submit_url = Widgets.submit_url s;
    })

ok-cons_ok :
    (a : Result WidgetOut) (b : Result (List WidgetOut)) {os : List WidgetOut}
    → cons_ok a b ≡ ok os
    → ((o : WidgetOut) × (a ≡ ok o)) × ((os' : List WidgetOut) × (b ≡ ok os'))
ok-cons_ok (err x) b h = absurd (cc)
ok-cons_ok (ok o) (err x) h = absurd (cc)
ok-cons_ok (ok o) (ok os') h = ((o, refl), (os', refl))

ok-to_out : (s : Settings) (w : Widget) {o : WidgetOut} → to_out s w ≡ ok o → is_complete w ≡ true
unfolding to_out
ok-to_out s w h = elim (Bool-cases (is_complete w)) [ inl e ↦ e | inr e ↦ absurd (cc (rw e at h)) ]

ok-all_out :
    (s : Settings) (ws : List Widget) {os : List WidgetOut}
    → all_out s ws ≡ ok os
    → All (λ w. is_complete w ≡ true) ws
unfolding all_out
ok-all_out s [] h = tt
ok-all_out s (w ∷ ws) h =
    let ((o, first), (os, rest)) = ok-cons_ok (to_out s w) (all_out s ws) h in
    (ok-to_out s w first, ok-all_out s ws rest)

all_out-ok :
    (s : Settings) (ws : List Widget)
    → All (λ w. is_complete w ≡ true) ws
    → (os : List WidgetOut) × (all_out s ws ≡ ok os)
unfolding all_out to_out
all_out-ok s [] h = ([], refl)
all_out-ok s (w ∷ ws) (h, hs) =
    let (os, rest) = all_out-ok s ws hs in (shown s w ∷ os, rw (h, rest) refl)

-- What holds of a tenant's rows, said of all rows of the table.
abbrev pub OfTenant : ℕ → (Widget → Type 0) → Widget → Type 0
OfTenant tenant_id Q w = w.tenant_id ≡ tenant_id → Q w

All-OfTenant :
    (tenant_id : ℕ) (Q : Widget → Type 0) (ws : List Widget)
    → All Q (where_ (λ w. nat_eq w.tenant_id tenant_id) ws)
    → All (OfTenant tenant_id Q) ws
unfolding where_
All-OfTenant tenant_id Q [] h = tt
All-OfTenant tenant_id Q (w ∷ ws) h = elim (Bool-cases (nat_eq w.tenant_id tenant_id)) [
  | inl e ↦ let all = rw e at h in (λ _. all.0, All-OfTenant tenant_id Q ws all.1)
  | inr e ↦ (λ same. absurd (ground arith), All-OfTenant tenant_id Q ws (rw e at h))
]

OfTenant-All :
    (tenant_id : ℕ) (Q : Widget → Type 0) (ws : List Widget)
    → All (OfTenant tenant_id Q) ws
    → All Q (where_ (λ w. nat_eq w.tenant_id tenant_id) ws)
unfolding where_
OfTenant-All tenant_id Q [] h = tt
OfTenant-All tenant_id Q (w ∷ ws) h = elim (Bool-cases (nat_eq w.tenant_id tenant_id)) [
  | inl e ↦ rw e (h.0 (ground arith), OfTenant-All tenant_id Q ws h.1)
  | inr e ↦ rw e (OfTenant-All tenant_id Q ws h.1)
]

-- Where ORDER BY only sorts: a tenant's list of widgets is answered exactly when no widget of the
-- table that is the tenant's has null in its fields, its display or its allowed origins. A single
-- such widget, which an update can make, fails the whole list, and other tenants' widgets do not
-- matter.
pub get_widgets_iff :
    (s : Settings) (e : Engine) (tenant_id : ℕ) (newest_first : List Widget → List Widget)
    (t : Tables)
    → ((rows : List Widget) → Permᴰ (newest_first rows) rows)
    → ((os : List WidgetOut) × (get_widgets s e tenant_id newest_first (opened t)
          ≡ (ok os, opened t)))
      ↔ All (λ w. w.tenant_id ≡ tenant_id → is_complete w ≡ true) t.widgets
unfolding get_widgets list_widgets
get_widgets_iff s e tenant_id newest_first t sorts =
    let Q : Widget → Type 0 = λ w. is_complete w ≡ true in
    let mine = where_ (λ w. nat_eq w.tenant_id tenant_id) t.widgets in
    (
      λ r. All-OfTenant tenant_id Q t.widgets (
          All-Perm Q (sorts mine) (
            ok-all_out s (newest_first mine)
              (ap (λ (o : Result (List WidgetOut) × Session). o.0) r.1))),
      λ h.
          let (os, done) =
            all_out-ok s (newest_first mine)
              (All-Perm Q (Permᴰ.symm (sorts mine)) (OfTenant-All tenant_id Q t.widgets h)) in
          (os, rw done refl),
    )
