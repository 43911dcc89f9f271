-- ===== src/Integrity/Accepted.antt =====
-- Payloads that app/schemas.py accepts, and the columns that are to hold them.
use flyrank_capstone_lead_ca.Prelude.{
  ℕ, ◌≡◌, ◌≤◌, refl, String, Bool, true, ◌&&◌, not, Option, none, some, len, has_char, leb, arith,
  length, all,
}
use flyrank_capstone_lead_ca.Config.{Settings}
use flyrank_capstone_lead_ca.Models.{WidgetType, signup_form, cta, popover}
use flyrank_capstone_lead_ca.Schemas
use flyrank_capstone_lead_ca.Schemas.{WidgetCreate, accepts_widget}
use flyrank_capstone_lead_ca.Widgets.{new_widget}
use flyrank_capstone_lead_ca.Migrations
use flyrank_capstone_lead_ca.Migrations.{required_column, string, long_text}
use flyrank_capstone_lead_ca.Migrations.Rows.{chars, chars_or_null, type_text, fits_column}
use flyrank_capstone_lead_ca.Integrity.{fits_widget}

lengths_of :
    (a b c d e f g i j k l m n o p : Bool)
    → (a && b && c && d && e && f && g && i && j && k && l && m && n && o && p) ≡ true
    → (b ≡ true) × ((d ≡ true) × ((g ≡ true) × (i ≡ true)))
lengths_of a b c d e f g i j k l m n o p h =
    (ground arith, (ground arith, (ground arith, ground arith)))

-- A text that PostgreSQL can hold.
abbrev pub is_plain : String → Bool
is_plain t = not (has_char 0 t)

-- What the schema leaves open: characters zero, and the length of the address, which the library
-- behind `EmailStr` bounds by 254.
pub record IsStorable (p : WidgetCreate) : Type 0 where
  pub name : is_plain p.name ≡ true
  pub title : is_plain p.title ≡ true
  pub description : Schemas.optional is_plain p.description ≡ true
  pub button_text : is_plain p.button_text ≡ true
  pub success_message : is_plain p.success_message ≡ true
  pub notify_webhook_url : Schemas.optional is_plain p.notify_webhook_url ≡ true
  pub notify_email : Schemas.optional (λ t. leb (len t) 254 && is_plain t) p.notify_email ≡ true

fits_text :
    (name : String) (o : Option String)
    → Schemas.optional is_plain o ≡ true
    → fits_column (Migrations.optional_column name long_text) (chars_or_null o) ≡ true
fits_text name none h = refl
fits_text name (some t) h = h

fits_email :
    (o : Option String)
    → Schemas.optional (λ t. leb (len t) 254 && is_plain t) o ≡ true
    → fits_column (Migrations.optional_column "notify_email" (string 255)) (chars_or_null o) ≡ true
fits_email none h = refl
fits_email (some t) h = ground arith

fits_type :
    (type : WidgetType)
    → fits_column (required_column "type" (string 32)) (chars (type_text type)) ≡ true
unfolding len has_char
fits_type signup_form = refl
fits_type cta = refl
fits_type popover = refl

-- The lengths that the schema bounds are at most those of the columns: a widget made from an accepted
-- payload fits its row, if its public id has at most 32 characters, its notify_email, which the library
-- behind EmailStr bounds, at most 254, and no text has a character zero.
pub accepts_widget-fits_widget :
    (s : Settings) (id now tenant_id : ℕ) (public_id : String) (p : WidgetCreate)
    → accepts_widget s p ≡ true
    → IsStorable p
    → len public_id ≤ 32
    → is_plain public_id ≡ true
    → fits_widget (new_widget id now tenant_id public_id p) ≡ true
unfolding accepts_widget fits_widget
accepts_widget-fits_widget s id now tenant_id public_id p h k short plain =
    let (name, (title, (button, success))) =
      lengths_of (leb 1 (len p.name)) (leb (len p.name) 200) (leb 1 (len p.title))
        (leb (len p.title) 200) (Schemas.optional (λ d. leb (len d) 1000) p.description)
        (leb 1 (len p.button_text)) (leb (len p.button_text) 100) (leb (len p.success_message) 300)
        (leb 1 (length p.fields)) (leb (length p.fields) 12) (all (Schemas.valid_field s) p.fields)
        (Schemas.unique_names p.fields) (leb (length p.allowed_origins) 20)
        (Schemas.origins_look_like_origins p.allowed_origins)
        (Schemas.optional (λ u. leb (len u) 500) p.notify_webhook_url) h in
    let id_fits : leb (len public_id) 32 ≡ true = ground arith in
    rw
      (
        id_fits,
        plain,
        name,
        k.name,
        fits_type p.type,
        title,
        k.title,
        fits_text "description" p.description k.description,
        button,
        k.button_text,
        success,
        k.success_message,
        fits_text "notify_webhook_url" p.notify_webhook_url k.notify_webhook_url,
        fits_email p.notify_email k.notify_email,
      )
      refl
