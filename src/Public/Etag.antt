-- ===== src/Public/Etag.antt =====
-- The ETag of a widget's configuration tells its versions apart.
use text.Mathlib.TextLemmas.{append_cancel_left, append_cancel_right}
use flyrank_capstone_lead_ca.Prelude.{
  ℕ, ◌+◌, ◌≡◌, ◌≢◌, refl, sym, ap, ◌∙◌, String, true, false, Option, none, some, [], ◌∷◌, arith,
  strip, eq_iff, inl, inr, Bool-cases,
}
use flyrank_capstone_lead_ca.Config.{Settings}
use flyrank_capstone_lead_ca.Errors.{ok}
use flyrank_capstone_lead_ca.Python.{show}
use flyrank_capstone_lead_ca.Python.Digits.{show_injective}
use flyrank_capstone_lead_ca.Models.{Widget, Tables}
use flyrank_capstone_lead_ca.Session.{Engine, Session, opened}
use flyrank_capstone_lead_ca.Schemas.{WidgetUpdate}
use flyrank_capstone_lead_ca.Widgets.{owned, has_changes, updated, update_widget}
use flyrank_capstone_lead_ca.Widgets.Serving.{public_config}
use flyrank_capstone_lead_ca.Widgets.Versions.{update_widget-Leaves}
use flyrank_capstone_lead_ca.Public.{
  matches_etag, config_etag, config_headers, with_headers, config_response,
}

same_version :
    (v w : Widget)
    → v.public_id ≡ w.public_id
    → config_etag v ≡ config_etag w
    → v.config_version ≡ w.config_version
same_version v w id h = show_injective v.config_version w.config_version (
    append_cancel_right (show v.config_version) (show w.config_version) "\"" (
      append_cancel_left "-v" _ _
        (append_cancel_left w.public_id _ _ (append_cancel_left "\"" _ _ (rw id at h)))))

matched : (etag t : String) → matches_etag etag (some t) ≡ true → strip t ≡ etag
matched etag t h = (eq_iff (strip t) etag).0 (ground arith)

-- No header matches the ETags of two versions of a widget.
one_version :
    (v w : Widget) (header : Option String)
    → v.public_id ≡ w.public_id
    → v.config_version ≢ w.config_version
    → matches_etag (config_etag v) header ≡ true
    → matches_etag (config_etag w) header ≡ false
one_version v w none id differ h = refl
one_version v w (some t) id differ h = elim (Bool-cases (matches_etag (config_etag w) (some t))) [
  | inl e ↦ absurd (
      differ
        (same_version v w id (sym (matched (config_etag v) t h) ∙ matched (config_etag w) t e)))
  | inr e ↦ e
]

updated_etag :
    (now : ℕ) (p : WidgetUpdate) (old w : Widget)
    → w ≡ updated now p old
    → (old.public_id ≡ w.public_id) × (w.config_version ≡ old.config_version + 1)
unfolding updated
updated_etag now p old w h = (sym (ap (λ v. v.public_id) h), ap (λ v. v.config_version) h)

-- A cache that holds the configuration of a widget from before an update, and asks with the ETag that
-- came with it, is not told that it is current: after an update in which a member was given it gets
-- the new configuration, or the error of building it.
pub config_response_updated :
    (e : Engine) (now : ℕ) (p : WidgetUpdate) (t : Tables) (tenant_id widget_id : ℕ)
    (old w : Widget) (z : Session) (s : Settings) (header : Option String)
    → has_changes p ≡ true
    → owned tenant_id widget_id t ≡ old ∷ []
    → update_widget e now tenant_id widget_id p (opened t) ≡ (ok w, z)
    → matches_etag (config_etag old) header ≡ true
    → config_response s w header ≡ with_headers (config_headers s w) (public_config s w)
unfolding config_response
config_response_updated e now p t tenant_id widget_id old w z s header given only done cached =
    let (found, same, (new, _), _, _) =
      update_widget-Leaves e now p t tenant_id widget_id w z done in
    let it : found ≡ old = cc in
    let is_new : w ≡ updated now p old = rw (given, it) at new in
    let (id, version) = updated_etag now p old w is_new in
    rw (one_version old w header id (λ equal. omega arith) cached) refl
