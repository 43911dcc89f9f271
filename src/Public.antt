-- ===== src/Public.antt =====
-- app/routers/public.py and `client_ip` of app/deps.py: the routes that the open internet reaches.
pub mod Submit
pub mod Order
pub mod Etag
pub mod Identify
use flyrank_capstone_lead_ca.Prelude.{
  ℕ, String, append, Bool, true, false, not, Option, none, some, List, [], ◌∷◌, ◌++◌, is_empty,
  split, strip, ◌==◌, if◌then◌else◌,
}
use flyrank_capstone_lead_ca.Config.{Settings}
use flyrank_capstone_lead_ca.Errors.{Result, ok, err, app_error}
use flyrank_capstone_lead_ca.Python.{show}
use flyrank_capstone_lead_ca.Models.{Widget}
use flyrank_capstone_lead_ca.Session.{Action, pure, raise, lift, ◌>>=◌, ◌>>◌}
use flyrank_capstone_lead_ca.Widgets.Serving.{
  get_active_widget_by_public_id, origin_allowed, PublicWidgetConfig, public_config,
}

-- What the routes read of a request.
pub record Request : Type 0 where
  pub forwarded_for : Option String
  pub client_host : Option String
  pub origin : Option String
  pub user_agent : Option String
  pub referer : Option String
  pub if_none_match : Option String
  pub idempotency_key : Option String

abbrev pub or_unknown : Option String → String
or_unknown none = "unknown"
or_unknown (some host) = host

abbrev pub first_of_list : List String → String
first_of_list [] = ""
first_of_list (p ∷ ps) = p

abbrev pub ip_of : Option String → Option String → String
ip_of none host = or_unknown host
ip_of (some forwarded) host =
    if is_empty forwarded then or_unknown host else strip (first_of_list (split b',' forwarded))

-- `client_ip`: the first entry of `X-Forwarded-For`, if there is one.
unfoldable pub client_ip : Request → String
unfolding split strip
client_ip req = ip_of req.forwarded_for req.client_host

-- A response: the status, the headers that the code sets, and the content.
pub record Response (A : Type 0) : Type 0 where
  pub status : ℕ
  pub headers : List (String × String)
  pub content : Option A

abbrev pub matches_etag : String → Option String → Bool
matches_etag etag none = false
matches_etag etag (some t) = if is_empty t then false else strip t == etag

abbrev pub bundle_cache_control : String
bundle_cache_control = "public, max-age=31536000, immutable"

abbrev pub not_modified_or : {A : Type 0} → Bool → List (String × String) → A → Response A
not_modified_or same headers content =
    if same
    then record { status = 304; headers = headers; content = none }
    else record { status = 200; headers = headers; content = some content }

abbrev pub bundle_headers : String → String → List (String × String)
bundle_headers etag version =
    ("Cache-Control", bundle_cache_control)
    ∷ ("ETag", etag)
    ∷ ("Access-Control-Allow-Origin", "*")
    ∷ ("X-Widget-Version", version)
    ∷ []

-- `serve_widget_bundle`: the file's text and its quoted digest, `_bundle_etag`, are parameters.
unfoldable pub serve_widget_bundle :
    Settings → String → String → String → Option String → Result (Response String)
unfolding strip
serve_widget_bundle s source etag version if_none_match =
    if version == s.widget_bundle_version
    then ok (not_modified_or (matches_etag etag if_none_match) (bundle_headers etag version) source)
    else err (
        app_error
          (append "unknown bundle version '"
            (append version (append "'; current is '" (append s.widget_bundle_version "'"))))
          404)

abbrev pub config_etag : Widget → String
config_etag w = append "\"" (append w.public_id (append "-v" (append (show w.config_version) "\"")))

abbrev pub config_headers : Settings → Widget → List (String × String)
config_headers s w =
    ("Cache-Control", append "public, max-age=" (show s.config_cache_max_age))
    ∷ ("ETag", config_etag w)
    ∷ ("Vary", "Origin")
    ∷ []

abbrev pub with_headers :
    List (String × String) → Result PublicWidgetConfig → Result (Response PublicWidgetConfig)
with_headers headers (err x) = err x
with_headers headers (ok c) = ok (record { status = 200; headers = headers; content = some c })

-- The rest of `widget_config` for a widget whose origin check has passed.
unfoldable pub config_response :
    Settings → Widget → Option String → Result (Response PublicWidgetConfig)
unfolding show public_config strip
config_response s w if_none_match =
    if matches_etag (config_etag w) if_none_match
    then ok (record { status = 304; headers = config_headers s w; content = none })
    else with_headers (config_headers s w) (public_config s w)

-- `widget_config`
unfoldable pub widget_config : Settings → String → Request → Action (Response PublicWidgetConfig)
unfolding get_active_widget_by_public_id origin_allowed config_response
widget_config s public_id req = do
  w ← get_active_widget_by_public_id public_id
  if origin_allowed w req.origin
      then lift (config_response s w req.if_none_match)
      else raise (app_error "this origin is not allowed to embed this widget" 403)
