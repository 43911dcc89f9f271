-- ===== src/Widgets/Serving.antt =====
-- What the public sees of a widget: the lookup by public id, the configuration, and the origins.
use flyrank_capstone_lead_ca.Prelude.{
  ℕ, String, Bool, true, false, Option, none, some, List, [], ◌∷◌, nat_eq, any, rstrip_by, ◌==◌,
  if◌then◌else◌,
}
use flyrank_capstone_lead_ca.Config.{Settings}
use flyrank_capstone_lead_ca.Errors.{Result, ok, err, app_error, uncaught, type_error}
use flyrank_capstone_lead_ca.Models.{Widget, WidgetField, WidgetType}
use flyrank_capstone_lead_ca.Session.{Action, pure, raise, lift, select, scalar_one_or_none, ◌>>=◌}
use flyrank_capstone_lead_ca.Widgets.{with_public_id, not_found, submit_url}

abbrev pub active_or_raise : Option Widget → Action Widget
active_or_raise none = raise not_found
active_or_raise (some w) = if w.active then pure w else raise (app_error "widget is not active" 404)

unfoldable pub get_active_widget_by_public_id : String → Action Widget
get_active_widget_by_public_id public_id = do
  rows ← select (with_public_id public_id)
  widget ← lift (scalar_one_or_none rows)
  active_or_raise widget

pub record PublicWidgetConfig : Type 0 where
  pub id : String
  pub version : ℕ
  pub type : WidgetType
  pub title : String
  pub description : Option String
  pub button_text : String
  pub success_message : String
  pub fields : List WidgetField
  pub display : String
  pub honeypot_field : String
  pub submit_url : String

abbrev pub or_braces : Option String → String
or_braces none = "{}"
or_braces (some d) = d

abbrev pub config_with : Settings → Widget → Option (List WidgetField) → Result PublicWidgetConfig
config_with s w none = err (uncaught type_error)
config_with s w (some fields) = ok (record {
  id = w.public_id;
  version = w.config_version;
  type = w.type;
  title = w.title;
  description = w.description;
  button_text = w.button_text;
  success_message = w.success_message;
  fields = fields;
  display = or_braces w.display;
  honeypot_field = s.honeypot_field;
  submit_url = submit_url s;
})

-- `public_config`: a loop over `widget.fields`, which raises where that is null.
unfoldable pub public_config : Settings → Widget → Result PublicWidgetConfig
public_config s w = config_with s w w.fields

-- `origin.rstrip("/")`
unfoldable pub without_slash : String → String
unfolding rstrip_by
without_slash = rstrip_by (λ c. nat_eq c b'/')

abbrev pub origins_or_empty : Option (List String) → List String
origins_or_empty none = []
origins_or_empty (some os) = os

abbrev pub origin_in : List String → Option String → Bool
origin_in [] origin = true
origin_in (a ∷ as_) none = false
origin_in (a ∷ as_) (some origin) = any (λ b. without_slash b == without_slash origin) (a ∷ as_)

unfoldable pub origin_allowed : Widget → Option String → Bool
unfolding without_slash
origin_allowed w origin = origin_in (origins_or_empty w.allowed_origins) origin
