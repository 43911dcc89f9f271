-- ===== src/Schemas.antt =====
-- app/schemas.py: the payloads, and the validators that the models declare. Pydantic's reading of
-- JSON is not modelled: the payloads here are what it hands to the validators.
pub mod Names
use flyrank_capstone_lead_ca.Prelude.{
  ℕ, zero, suc, String, code, Bool, true, false, not, ◌&&◌, ◌||◌, Option, none, some, List, [], ◌∷◌,
  map, Dict, len, leb, nat_eq, length, any, all, is_space, ◌==◌, is_empty, if◌then◌else◌,
}
use flyrank_capstone_lead_ca.Config.{Settings}
use flyrank_capstone_lead_ca.Models.{WidgetField, WidgetType}

-- A member of `data: dict[str, Any]`. Numbers, and arrays and objects, are kept as the text that
-- `str(value)` gives, which is all that is read of them.
pub data Value : Type 0 where
  null : Value
  bool : Bool → Value
  number : String → Value
  text : String → Value
  nested : String → Value

pub record SubmissionCreate : Type 0 where
  pub widget_id : String
  pub lead : Dict Value
  pub honeypot : Option String
  pub elapsed_ms : Option ℕ

abbrev pub optional : {A : Type 0} → (A → Bool) → Option A → Bool
optional p none = true
optional p (some a) = p a

-- One round of the loop of `_bounded_data`.
abbrev pub bounded_entry : Settings → String × Value → Bool
bounded_entry s (key, null) = leb (len key) 40
bounded_entry s (key, bool b) = leb (len key) 40
bounded_entry s (key, number n) = leb (len key) 40
bounded_entry s (key, text t) = leb (len key) 40 && leb (len t) s.max_field_length
bounded_entry s (key, nested n) = false

-- `SubmissionCreate._bounded_data`: does it return?
unfoldable pub bounded_data : Settings → Dict Value → Bool
unfolding len
bounded_data s lead = leb (length lead) 25 && all (bounded_entry s) lead

-- The constraints of `SubmissionCreate`'s fields.
unfoldable pub accepts : Settings → SubmissionCreate → Bool
unfolding bounded_data
accepts s p =
    leb 6 (len p.widget_id)
    && leb (len p.widget_id) 32
    && optional (λ h. leb (len h) 200) p.honeypot
    && optional (λ ms. leb ms 86_400_000) p.elapsed_ms
    && bounded_data s p.lead

abbrev pub is_lower : ℕ → Bool
is_lower c = leb b'a' c && leb c b'z'

abbrev pub is_name_char : ℕ → Bool
is_name_char c = is_lower c || (leb b'0' c && leb c b'9') || nat_eq c b'_'

-- `[a-z0-9_]{0,n}$` at the place reached: `$` also stands before a final line feed.
unfoldable pub name_rest : ℕ → String → Bool
name_rest n String.[] = true
name_rest zero (String.◌∷◌ c s) = nat_eq (code c) 10 && is_empty s
name_rest (suc n) (String.◌∷◌ c s) =
    let rest = name_rest n s in
    if is_name_char (code c) then rest else nat_eq (code c) 10 && is_empty s

-- `FIELD_NAME_RE.match(v)` for `^[a-z][a-z0-9_]{0,39}$`
unfoldable pub field_name_re : String → Bool
unfolding name_rest
field_name_re String.[] = false
field_name_re (String.◌∷◌ c s) = is_lower (code c) && name_rest 39 s

-- `WidgetField._valid_name`: does it return?
unfoldable pub valid_name : Settings → String → Bool
unfolding field_name_re
valid_name s v = if field_name_re v then not (v == s.honeypot_field) else false

-- The constraints of `WidgetField`'s members.
unfoldable pub valid_field : Settings → WidgetField → Bool
unfolding valid_name len
valid_field s f =
    leb (len f.name) 40
    && leb 1 (len f.label)
    && leb (len f.label) 120
    && optional (λ p. leb (len p) 120) f.placeholder
    && valid_name s f.name

-- `len(names) == len(set(names))`
abbrev pub distinct : List String → Bool
distinct [] = true
distinct (n ∷ ns) = let rest = distinct ns in if any (λ m. m == n) ns then false else rest

-- `WidgetCreate._unique_names`: does it return?
unfoldable pub unique_names : List WidgetField → Bool
unique_names fields = distinct (map (λ f. f.name) fields)

-- `[^/\s]+$`: at least one character; again `$` also stands before a final line feed, which is a
-- space and so no character of the class.
unfoldable pub host_rest : Bool → String → Bool
host_rest some_read String.[] = some_read
host_rest some_read (String.◌∷◌ c s) =
    let rest = host_rest true s in
    if nat_eq (code c) b'/' || is_space (code c)
    then nat_eq (code c) 10 && is_empty s && some_read
    else rest

-- The text after a prefix.
abbrev pub after_prefix : String → String → Option String
after_prefix String.[] s = some s
after_prefix (String.◌∷◌ p ps) String.[] = none
after_prefix (String.◌∷◌ p ps) (String.◌∷◌ c s) =
    let rest = after_prefix ps s in if nat_eq (code p) (code c) then rest else none

abbrev pub host_ok : Option String → Bool
host_ok none = false
host_ok (some host) = host_rest false host

-- `re.match(r"^https?://[^/\s]+$", origin)`
unfoldable pub origin_re : String → Bool
unfolding host_rest is_space
origin_re origin =
    host_ok (after_prefix "http://" origin) || host_ok (after_prefix "https://" origin)

-- `WidgetCreate._origins_look_like_origins`: does it return?
unfoldable pub origins_look_like_origins : List String → Bool
unfolding origin_re
origins_look_like_origins v = all origin_re v

pub record WidgetCreate : Type 0 where
  pub name : String
  pub type : WidgetType
  pub title : String
  pub description : Option String
  pub button_text : String
  pub success_message : String
  pub fields : List WidgetField
  pub display : String
  pub allowed_origins : List String
  pub notify_webhook_url : Option String
  pub notify_email : Option String
  pub active : Bool

-- The constraints and validators of `WidgetCreate`'s members.
unfoldable pub accepts_widget : Settings → WidgetCreate → Bool
unfolding valid_field unique_names origins_look_like_origins
accepts_widget s p =
    leb 1 (len p.name)
    && leb (len p.name) 200
    && leb 1 (len p.title)
    && leb (len p.title) 200
    && optional (λ d. leb (len d) 1000) p.description
    && leb 1 (len p.button_text)
    && leb (len p.button_text) 100
    && leb (len p.success_message) 300
    && leb 1 (length p.fields)
    && leb (length p.fields) 12
    && all (valid_field s) p.fields
    && unique_names p.fields
    && leb (length p.allowed_origins) 20
    && origins_look_like_origins p.allowed_origins
    && optional (λ u. leb (len u) 500) p.notify_webhook_url

-- A member of a partial update: not given, given as null, or given.
pub data Change (A : Type 0) : Type 0 where
  unset : Change A
  to_null : Change A
  to : A → Change A

pub record WidgetUpdate : Type 0 where
  pub name : Change String
  pub type : Change WidgetType
  pub title : Change String
  pub description : Change String
  pub button_text : Change String
  pub success_message : Change String
  pub fields : Change (List WidgetField)
  pub display : Change String
  pub allowed_origins : Change (List String)
  pub notify_webhook_url : Change String
  pub notify_email : Change String
  pub active : Change Bool

abbrev pub given : {A : Type 0} → (A → Bool) → Change A → Bool
given p unset = true
given p to_null = true
given p (to a) = p a

-- The constraints of `WidgetUpdate`'s members; it declares no validators of its own.
unfoldable pub accepts_update : Settings → WidgetUpdate → Bool
unfolding valid_field len
accepts_update s p =
    given (λ t. leb 1 (len t) && leb (len t) 200) p.name
    && given (λ t. leb 1 (len t) && leb (len t) 200) p.title
    && given (λ t. leb (len t) 1000) p.description
    && given (λ t. leb 1 (len t) && leb (len t) 100) p.button_text
    && given (λ t. leb (len t) 300) p.success_message
    && given (λ fs. leb 1 (length fs) && leb (length fs) 12 && all (valid_field s) fs) p.fields
    && given (λ os. leb (length os) 20) p.allowed_origins
    && given (λ t. leb (len t) 500) p.notify_webhook_url
