-- ===== src/Widgets.antt =====
-- app/services/widget_service.py: the widgets of a tenant.
pub mod Serving
pub mod Isolation
pub mod Versions
pub mod Creation
pub mod Routes
use flyrank_capstone_lead_ca.Prelude.{
  ℕ, zero, suc, ◌+◌, String, append, code, Bool, true, false, not, ◌&&◌, Option, none, some, List,
  [], ◌∷◌, map, where_, length, nat_eq, is_none, is_some, any, rstrip_by, ◌==◌, if◌then◌else◌,
}
use flyrank_capstone_lead_ca.Config.{Settings}
use flyrank_capstone_lead_ca.Errors.{Result, ok, err, Error, app_error, uncaught, type_error}
use flyrank_capstone_lead_ca.Python.{show}
use flyrank_capstone_lead_ca.Models.{Widget, WidgetField, WidgetType, Tables}
use flyrank_capstone_lead_ca.Session.{
  Write, add_widget, set_widget, drop_widget, Engine, Action, pure, raise, lift, select, add,
  commit, scalar_one_or_none, ◌>>=◌, ◌>>◌,
}
use flyrank_capstone_lead_ca.Schemas.{Change, unset, to_null, to, WidgetCreate, WidgetUpdate}

abbrev pub with_public_id : String → Tables → List Widget
with_public_id candidate t = where_ (λ w. w.public_id == candidate) t.widgets

abbrev pub not_found : Error
not_found = app_error "widget not found" 404

-- `generate_public_id`: the five candidates are what `secrets.token_hex` gives.
unfoldable pub generate_public_id : List String → Action String
generate_public_id [] = raise (app_error "could not allocate a widget id" 500)
generate_public_id (candidate ∷ more) = do
  rows ← select (with_public_id candidate)
  exists ← lift (scalar_one_or_none rows)
  elim exists [ none ↦ pure candidate | some w ↦ generate_public_id more ]

unfoldable pub embed_snippet : Settings → String → String
embed_snippet s public_id = append "<script src=\"" (
    append s.base_url (
      append "/embed/widget." (
        append s.widget_bundle_version (append ".js?id=" (append public_id "\" async></script>")))))

abbrev pub config_url : Settings → String → String
config_url s public_id =
    append s.base_url (append "/api/public/widgets/" (append public_id "/config"))

abbrev pub submit_url : Settings → String
submit_url s = append s.base_url "/api/public/submissions"

abbrev pub new_widget : ℕ → ℕ → ℕ → String → WidgetCreate → Widget
new_widget id now tenant_id public_id p = record {
  id = id;
  tenant_id = tenant_id;
  public_id = public_id;
  name = p.name;
  type = p.type;
  title = p.title;
  description = p.description;
  button_text = p.button_text;
  success_message = p.success_message;
  fields = some p.fields;
  display = some p.display;
  allowed_origins = some p.allowed_origins;
  notify_webhook_url = p.notify_webhook_url;
  notify_email = p.notify_email;
  active = p.active;
  config_version = 1;
  created_at = now;
  updated_at = now;
}

-- `id` is the new row's UUID and `now` the time.
unfoldable pub create_widget : Engine → ℕ → ℕ → List String → ℕ → WidgetCreate → Action Widget
unfolding generate_public_id
create_widget e id now candidates tenant_id p = do
  public_id ← generate_public_id candidates
  let w = new_widget id now tenant_id public_id p
  add (add_widget w)
  commit e
  pure w

-- What the database does with `ORDER BY created_at DESC`.
unfoldable pub list_widgets : (List Widget → List Widget) → ℕ → Tables → List Widget
list_widgets newest_first tenant_id t =
    newest_first (where_ (λ w. nat_eq w.tenant_id tenant_id) t.widgets)

abbrev pub owned : ℕ → ℕ → Tables → List Widget
owned tenant_id widget_id t =
    where_ (λ w. nat_eq w.id widget_id && nat_eq w.tenant_id tenant_id) t.widgets

abbrev pub or_not_found : Option Widget → Action Widget
or_not_found none = raise not_found
or_not_found (some w) = pure w

unfoldable pub get_widget_for_tenant : ℕ → ℕ → Action Widget
get_widget_for_tenant tenant_id widget_id = do
  rows ← select (owned tenant_id widget_id)
  widget ← lift (scalar_one_or_none rows)
  or_not_found widget

abbrev pub is_change : {A : Type 0} → Change A → Bool
is_change unset = false
is_change to_null = true
is_change (to a) = true

-- `bool(payload.model_dump(exclude_unset=True))`
unfoldable pub has_changes : WidgetUpdate → Bool
has_changes p =
    if is_change p.name
    then true
    else if is_change p.type
    then true
    else if is_change p.title
    then true
    else if is_change p.description
    then true
    else if is_change p.button_text
    then true
    else if is_change p.success_message
    then true
    else if is_change p.fields
    then true
    else if is_change p.display
    then true
    else if is_change p.allowed_origins
    then true
    else if is_change p.notify_webhook_url
    then true
    else if is_change p.notify_email
    then true
    else is_change p.active

-- `setattr` of a column that may be null, of a JSONB column, and of one that is not nullable. Null in
-- a column of the last kind is kept apart, since the row with it cannot be written.
abbrev pub set_optional : {A : Type 0} → Change A → Option A → Option A
set_optional unset old = old
set_optional to_null old = none
set_optional (to a) old = some a

abbrev pub set_value : {A : Type 0} → Change A → A → A
set_value unset old = old
set_value to_null old = old
set_value (to a) old = a

abbrev pub is_null : {A : Type 0} → Change A → Bool
is_null unset = false
is_null to_null = true
is_null (to a) = false

-- Does the update put null in a column that is not nullable?
unfoldable pub breaks_not_null : WidgetUpdate → Bool
breaks_not_null p =
    if is_null p.name
    then true
    else if is_null p.type
    then true
    else if is_null p.title
    then true
    else if is_null p.button_text
    then true
    else if is_null p.success_message
    then true
    else is_null p.active

-- The widget after the loop of `setattr`, its version, and its `onupdate` time.
unfoldable pub updated : ℕ → WidgetUpdate → Widget → Widget
updated now p w = record {
  id = w.id;
  tenant_id = w.tenant_id;
  public_id = w.public_id;
  name = set_value p.name w.name;
  type = set_value p.type w.type;
  title = set_value p.title w.title;
  description = set_optional p.description w.description;
  button_text = set_value p.button_text w.button_text;
  success_message = set_value p.success_message w.success_message;
  fields = set_optional p.fields w.fields;
  display = set_optional p.display w.display;
  allowed_origins = set_optional p.allowed_origins w.allowed_origins;
  notify_webhook_url = set_optional p.notify_webhook_url w.notify_webhook_url;
  notify_email = set_optional p.notify_email w.notify_email;
  active = set_value p.active w.active;
  config_version = w.config_version + 1;
  created_at = w.created_at;
  updated_at = now;
}

-- A commit of a row with null in a column that is not nullable raises what the engine answers.
unfoldable pub write_update : Engine → ℕ → WidgetUpdate → Widget → Action Widget
write_update e now p w =
    if has_changes p
    then (if breaks_not_null p
        then (do answer ← select e.null_refusal; raise (uncaught answer))
        else do add (set_widget (updated now p w)); commit e; pure (updated now p w))
    else do commit e; pure w

unfoldable pub update_widget : Engine → ℕ → ℕ → ℕ → WidgetUpdate → Action Widget
unfolding get_widget_for_tenant write_update
update_widget e now tenant_id widget_id p = do
  w ← get_widget_for_tenant tenant_id widget_id
  write_update e now p w

unfoldable pub write_delete : Engine → Widget → Action (Unit {0})
write_delete e w = do add (drop_widget w.id); commit e

unfoldable pub delete_widget : Engine → ℕ → ℕ → Action (Unit {0})
unfolding get_widget_for_tenant write_delete
delete_widget e tenant_id widget_id = do
  w ← get_widget_for_tenant tenant_id widget_id
  write_delete e w

unfoldable pub count_widgets : ℕ → Tables → ℕ
count_widgets tenant_id t = length (where_ (λ w. nat_eq w.tenant_id tenant_id) t.widgets)
