-- ===== src/Widgets/Versions.antt =====
-- What an update makes of a widget, and of its public configuration.
use flyrank_capstone_lead_ca.Prelude.{
  ℕ, ◌+◌, ◌≡◌, refl, ap, Option, inl, inr, true, false, none, some, [], ◌∷◌, map, arith,
  if◌then◌else◌, Bool-cases, Option-cases,
}
use flyrank_capstone_lead_ca.Config.{Settings}
use flyrank_capstone_lead_ca.Errors.{Result, ok, err, uncaught, Exception, type_error}
use flyrank_capstone_lead_ca.Models.{Widget, Tables}
use flyrank_capstone_lead_ca.Session.{
  set_widget, Engine, Session, opened, apply, write_all, commit, replace_widget,
}
use flyrank_capstone_lead_ca.Schemas.{Change, unset, to_null, to, WidgetUpdate}
use flyrank_capstone_lead_ca.Widgets.{
  owned, is_change, is_null, set_value, set_optional, has_changes, breaks_not_null, updated,
  write_update, update_widget,
}
use flyrank_capstone_lead_ca.Widgets.Serving.{public_config}
use flyrank_capstone_lead_ca.Widgets.Isolation.{get-cases}

-- What a member of the payload makes of a member that may not be null, and of one that may.
abbrev pub Becomes : {A : Type 0} → Change A → A → A → Type 0
Becomes unset old new = new ≡ old
Becomes to_null old new = ⊥
Becomes (to a) old new = new ≡ a

abbrev pub BecomesOptional : {A : Type 0} → Change A → Option A → Option A → Type 0
BecomesOptional unset old new = new ≡ old
BecomesOptional to_null old new = new ≡ none
BecomesOptional (to a) old new = new ≡ some a

unset-Becomes : {A : Type 0} (c : Change A) (old : A) → is_change c ≡ false → Becomes c old old
unset-Becomes unset old h = refl
unset-Becomes to_null old h = absurd (cc)
unset-Becomes (to a) old h = absurd (cc)

unset-BecomesOptional :
    {A : Type 0} (c : Change A) (old : Option A) → is_change c ≡ false → BecomesOptional c old old
unset-BecomesOptional unset old h = refl
unset-BecomesOptional to_null old h = absurd (cc)
unset-BecomesOptional (to a) old h = absurd (cc)

set_value-Becomes :
    {A : Type 0} (c : Change A) (old : A) → is_null c ≡ false → Becomes c old (set_value c old)
set_value-Becomes unset old h = refl
set_value-Becomes to_null old h = absurd (cc)
set_value-Becomes (to a) old h = refl

set_optional-BecomesOptional :
    {A : Type 0} (c : Change A) (old : Option A) → BecomesOptional c old (set_optional c old)
set_optional-BecomesOptional unset old = refl
set_optional-BecomesOptional to_null old = refl
set_optional-BecomesOptional (to a) old = refl

module _ (e : Engine) (now : ℕ) (p : WidgetUpdate) (t : Tables) where
  -- The widget that an update leaves, and the table of widgets.
  abbrev pub Leaves : Widget → Widget → Session → Type 0
  Leaves old w z =
      (w ≡ (if has_changes p then updated now p old else old))
      × (z.saved.widgets ≡ (
          if has_changes p then map (replace_widget (updated now p old)) t.widgets else t.widgets))

  -- What the payload makes of the old widget's members.
  pub record Described (old w : Widget) : Type 0 where
    pub id : w.id ≡ old.id
    pub tenant_id : w.tenant_id ≡ old.tenant_id
    pub public_id : w.public_id ≡ old.public_id
    pub name : Becomes p.name old.name w.name
    pub type : Becomes p.type old.type w.type
    pub title : Becomes p.title old.title w.title
    pub description : BecomesOptional p.description old.description w.description
    pub button_text : Becomes p.button_text old.button_text w.button_text
    pub success_message : Becomes p.success_message old.success_message w.success_message
    pub fields : BecomesOptional p.fields old.fields w.fields
    pub display : BecomesOptional p.display old.display w.display
    pub allowed_origins : BecomesOptional p.allowed_origins old.allowed_origins w.allowed_origins
    pub notify_webhook_url :
        BecomesOptional p.notify_webhook_url old.notify_webhook_url w.notify_webhook_url
    pub notify_email : BecomesOptional p.notify_email old.notify_email w.notify_email
    pub active : Becomes p.active old.active w.active
    pub created_at : w.created_at ≡ old.created_at

  write_unchanged :
      (old : Widget)
      → has_changes p ≡ false
      → write_update e now p old (opened t) ≡ (ok old, opened t)
  unfolding write_update commit write_all
  write_unchanged old c = rw c

  write_null :
      (old : Widget)
      → has_changes p ≡ true
      → breaks_not_null p ≡ true
      → write_update e now p old (opened t) ≡ (err (uncaught (e.null_refusal t)), opened t)
  unfolding write_update
  write_null old c b = rw (c, b)

  abbrev stored : Widget → Tables
  stored new = record t { widgets = map (replace_widget new) t.widgets }

  write_changed :
      (old : Widget)
      → has_changes p ≡ true
      → breaks_not_null p ≡ false
      → e.refusal t (set_widget (updated now p old)) ≡ none
      → write_update e now p old (opened t)
        ≡ (ok (updated now p old), opened (stored (updated now p old)))
  unfolding write_update commit write_all apply
  write_changed old c b n = rw (c, b, n)

  write_refused :
      (old : Widget) (x : Exception)
      → has_changes p ≡ true
      → breaks_not_null p ≡ false
      → e.refusal t (set_widget (updated now p old)) ≡ some x
      → (write_update e now p old (opened t)).0 ≡ err (uncaught x)
  unfolding write_update commit write_all
  write_refused old x c b n = rw (c, b, n)

  write_update-Leaves :
      (old w : Widget) (z : Session)
      → write_update e now p old (opened t) ≡ (ok w, z)
      → Leaves old w z
  write_update-Leaves old w z h = elim (Bool-cases (has_changes p)) [
    | inr c ↦ let same = write_unchanged old c in rw c (ground arith, ground arith)
    | inl c ↦ elim (Bool-cases (breaks_not_null p)) [
      | inl b ↦ absurd (cc (write_null old c b))
      | inr b ↦ elim (Option-cases (e.refusal t (set_widget (updated now p old)))) [
        | inl n ↦ let same = write_changed old c b n in rw c (ground arith, ground arith)
        | inr (x, n) ↦
            absurd (cc (write_refused old x c b n, ap (λ (r : Result Widget × Session). r.0) h))
      ]
    ]
  ]

  unchanged-Described : (old : Widget) → has_changes p ≡ false → Described old old
  unfolding has_changes
  unchanged-Described old c = record {
    id = refl;
    tenant_id = refl;
    public_id = refl;
    name = unset-Becomes p.name old.name (ground arith);
    type = unset-Becomes p.type old.type (ground arith);
    title = unset-Becomes p.title old.title (ground arith);
    description = unset-BecomesOptional p.description old.description (ground arith);
    button_text = unset-Becomes p.button_text old.button_text (ground arith);
    success_message = unset-Becomes p.success_message old.success_message (ground arith);
    fields = unset-BecomesOptional p.fields old.fields (ground arith);
    display = unset-BecomesOptional p.display old.display (ground arith);
    allowed_origins = unset-BecomesOptional p.allowed_origins old.allowed_origins (ground arith);
    notify_webhook_url =
        unset-BecomesOptional p.notify_webhook_url old.notify_webhook_url (ground arith);
    notify_email = unset-BecomesOptional p.notify_email old.notify_email (ground arith);
    active = unset-Becomes p.active old.active (ground arith);
    created_at = refl;
  }

  updated-Described : (old : Widget) → breaks_not_null p ≡ false → Described old (updated now p old)
  unfolding breaks_not_null updated
  updated-Described old b = record {
    id = refl;
    tenant_id = refl;
    public_id = refl;
    name = set_value-Becomes p.name old.name (ground arith);
    type = set_value-Becomes p.type old.type (ground arith);
    title = set_value-Becomes p.title old.title (ground arith);
    description = set_optional-BecomesOptional p.description old.description;
    button_text = set_value-Becomes p.button_text old.button_text (ground arith);
    success_message = set_value-Becomes p.success_message old.success_message (ground arith);
    fields = set_optional-BecomesOptional p.fields old.fields;
    display = set_optional-BecomesOptional p.display old.display;
    allowed_origins = set_optional-BecomesOptional p.allowed_origins old.allowed_origins;
    notify_webhook_url = set_optional-BecomesOptional p.notify_webhook_url old.notify_webhook_url;
    notify_email = set_optional-BecomesOptional p.notify_email old.notify_email;
    active = set_value-Becomes p.active old.active (ground arith);
    created_at = refl;
  }

  -- The version and the time are written exactly when a member was given.
  abbrev pub Counted : Widget → Widget → Type 0
  Counted old w =
      (w.config_version ≡ (if has_changes p then old.config_version + 1 else old.config_version))
      × (w.updated_at ≡ (if has_changes p then now else old.updated_at))

  Leaves-Described :
      (old w : Widget) (z : Session)
      → write_update e now p old (opened t) ≡ (ok w, z)
      → Leaves old w z
      → Described old w × Counted old w
  unfolding updated
  Leaves-Described old w z h l = elim (Bool-cases (has_changes p)) [
    | inr c ↦
        let same : w ≡ old = rw c at l.0 in rw (same, c) (unchanged-Described old c, (refl, refl))
    | inl c ↦ elim (Bool-cases (breaks_not_null p)) [
      | inl b ↦ absurd (cc (write_null old c b))
      | inr b ↦
          let same : w ≡ updated now p old = rw c at l.0 in
          rw (same, c) (updated-Described old b, (refl, refl))
    ]
  ]

  -- An update that returns has found the tenant's widget, and gave null for no member whose column
  -- may not be null. Each member of the widget that it returns is the one that was given, null
  -- included, and the old one where none was given; the widget's ids, its tenant and the time of its
  -- creation stay. If a member was given, the version is one higher, the time of the update is now,
  -- and this widget is stored in the place of the old one; with no member given, nothing changes.
  pub update_widget-Leaves :
      (tenant_id widget_id : ℕ) (w : Widget) (z : Session)
      → update_widget e now tenant_id widget_id p (opened t) ≡ (ok w, z)
      → (old : Widget) × (owned tenant_id widget_id t ≡ old ∷ [])
        × Leaves old w z
        × Described old w
        × Counted old w
  unfolding update_widget
  update_widget-Leaves tenant_id widget_id w z h = elim (get-cases tenant_id widget_id t) [
    | inl (old, only, g) ↦
        let wrote = rw g at h in
        let left = write_update-Leaves old w z wrote in
        let (members, counted) = Leaves-Described old w z wrote left in
        (old, only, left, members, counted)
    | inr (x, g) ↦ absurd (cc (rw g at h))
  ]

  -- An update that gives null for the fields and returns leaves a widget whose public configuration
  -- cannot be built.
  pub update_widget_null_fields :
      (s : Settings) (tenant_id widget_id : ℕ) (w : Widget) (z : Session)
      → has_changes p ≡ true
      → p.fields ≡ to_null
      → update_widget e now tenant_id widget_id p (opened t) ≡ (ok w, z)
      → public_config s w ≡ err (uncaught type_error)
  unfolding public_config updated
  update_widget_null_fields s tenant_id widget_id w z c f h =
      let (old, only, (same, _), _, _) = update_widget-Leaves tenant_id widget_id w z h in
      rw (same, c, f)
