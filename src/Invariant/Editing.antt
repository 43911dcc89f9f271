-- ===== src/Invariant/Editing.antt =====
-- What the operations of app/services/widget_service.py keep.
use flyrank_capstone_lead_ca.Prelude.{
  All-where_, ℕ, String, Bool, Option, none, some, List, [], ◌∷◌, All, nat_eq, ◌&&◌, where_, ◌==◌,
}
use flyrank_capstone_lead_ca.Errors.{uncaught}
use flyrank_capstone_lead_ca.Models.{Widget, Tables}
use flyrank_capstone_lead_ca.Session.{
  Write, add_widget, set_widget, drop_widget, scalar_one_or_none, Engine, Action, pure, add, commit,
  select, lift, ◌>>◌, ◌>>=◌,
}
use flyrank_capstone_lead_ca.Schemas.{WidgetCreate, WidgetUpdate}
use flyrank_capstone_lead_ca.Widgets.{
  new_widget, generate_public_id, create_widget, not_found, or_not_found, get_widget_for_tenant,
  updated, write_update, update_widget, write_delete, delete_widget,
}
use flyrank_capstone_lead_ca.Invariant.{
  Invariant, Anything, OnOk, OnSome, Ensures, Preserves, pure-Ensures, lift-Ensures, raise-Ensures,
  select-Ensures, add-Preserves, if-Ensures, option-Ensures, bind-Ensures, commit-Preserves,
}

-- One row, where all rows have a property.
scalar-OnOk :
    {A : Type 0} (Q : A → Type 0) (rows : List A)
    → All Q rows
    → OnOk (OnSome Q) (scalar_one_or_none rows)
scalar-OnOk Q [] h = tt
scalar-OnOk Q (r ∷ []) h = h.0
scalar-OnOk Q (r ∷ r' ∷ rows) h = tt

module _ {e : Engine} (i : Invariant e) where
  -- A write and its commit.
  pub add-commit-Ensures :
      {A : Type 0} (Q : A → Type 0) (w : Write) (m : Action A)
      → i.allows w
      → Ensures i Q m
      → Ensures i Q (add w >> (commit e >> m))
  add-commit-Ensures Q w m a h =
      bind-Ensures i Anything Q (add w) (λ _. commit e >> m) (add-Preserves i w a)
        (λ _ _. bind-Ensures i Anything Q (commit e) (λ _. m) (commit-Preserves i) (λ _ _. h))

  -- The one row of a query of widgets, if there is one, is as the invariant says.
  pub query-Ensures :
      {B : Type 0} (R : B → Type 0) (p : Widget → Bool) (f : Option Widget → Action B)
      → Ensures i R (f none)
      → ((w : Widget) → i.knows w → Ensures i R (f (some w)))
      → Ensures i R
          (select (λ t. where_ p t.widgets) >>= λ rows. lift (scalar_one_or_none rows) >>= f)
  query-Ensures R p f h g =
      bind-Ensures i (All i.knows) R _ _
        (select-Ensures i (All i.knows) (λ (t : Tables). where_ p t.widgets)
          (λ t k. All-where_ i.knows p t.widgets (i.known t k)))
        (λ rows q.
          bind-Ensures i (OnSome i.knows) R _ f
            (lift-Ensures i (OnSome i.knows) (scalar_one_or_none rows) (scalar-OnOk i.knows rows q))
            (option-Ensures i i.knows R f h g))

  pub generate_public_id-Preserves : (cs : List String) → Preserves i (generate_public_id cs)
  unfolding generate_public_id
  generate_public_id-Preserves [] = raise-Ensures i Anything _
  generate_public_id-Preserves (c ∷ cs) =
      query-Ensures Anything (λ w. w.public_id == c)
        (λ (exists : Option Widget). elim exists [ none ↦ pure c | some w ↦ generate_public_id cs ])
        (pure-Ensures i Anything c tt) (λ w q. generate_public_id-Preserves cs)

  pub create_widget-Preserves :
      (id now : ℕ) (cs : List String) (tenant_id : ℕ) (p : WidgetCreate)
      → i.lawful id tenant_id
      → Preserves i (create_widget e id now cs tenant_id p)
  unfolding create_widget
  create_widget-Preserves id now cs tenant_id p law =
      bind-Ensures i Anything Anything _ _ (generate_public_id-Preserves cs) (λ public_id _.
        add-commit-Ensures Anything (add_widget (new_widget id now tenant_id public_id p)) _
          (i.allows_widget id now tenant_id public_id p law)
          (pure-Ensures i Anything (new_widget id now tenant_id public_id p) tt))

  pub get_widget_for_tenant-Ensures :
      (tenant_id widget_id : ℕ) → Ensures i i.knows (get_widget_for_tenant tenant_id widget_id)
  unfolding get_widget_for_tenant
  get_widget_for_tenant-Ensures tenant_id widget_id =
      query-Ensures i.knows (λ w. nat_eq w.id widget_id && nat_eq w.tenant_id tenant_id)
        or_not_found (raise-Ensures i i.knows not_found) (λ w q. pure-Ensures i i.knows w q)

  write_update-Preserves :
      (now : ℕ) (p : WidgetUpdate) (w : Widget) → i.knows w → Preserves i (write_update e now p w)
  unfolding write_update
  write_update-Preserves now p w k =
      if-Ensures i Anything _ _ _
        (if-Ensures i Anything _ _ _
          (bind-Ensures i Anything Anything _ _
            (select-Ensures i Anything e.null_refusal (λ t h. tt))
            (λ answer _. raise-Ensures i Anything (uncaught answer)))
          (add-commit-Ensures Anything (set_widget (updated now p w)) _ (i.allows_update now p w k)
            (pure-Ensures i Anything (updated now p w) tt)))
        (bind-Ensures i Anything Anything _ _ (commit-Preserves i)
          (λ _ _. pure-Ensures i Anything w tt))

  pub update_widget-Preserves :
      (now tenant_id widget_id : ℕ) (p : WidgetUpdate)
      → Preserves i (update_widget e now tenant_id widget_id p)
  unfolding update_widget
  update_widget-Preserves now tenant_id widget_id p =
      bind-Ensures i i.knows Anything _ _ (get_widget_for_tenant-Ensures tenant_id widget_id)
        (λ w k. write_update-Preserves now p w k)

  pub delete_widget-Preserves :
      (tenant_id widget_id : ℕ) → Preserves i (delete_widget e tenant_id widget_id)
  unfolding delete_widget write_delete
  delete_widget-Preserves tenant_id widget_id =
      bind-Ensures i i.knows Anything _ _ (get_widget_for_tenant-Ensures tenant_id widget_id)
        (λ w _.
          bind-Ensures i Anything Anything _ _
            (add-Preserves i (drop_widget w.id) (i.allows_drop w.id)) (λ _ _. commit-Preserves i))
