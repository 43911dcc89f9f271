-- ===== src/Auth.antt =====
-- app/security.py, app/routers/auth.py and `current_tenant` of app/deps.py: accounts and bearer
-- tokens. The libraries bcrypt and PyJWT, and the table of `str.lower`, are parameters.
pub mod Accounts
pub mod Registration
use flyrank_capstone_lead_ca.Prelude.{
  ℕ, suc, ◌+◌, ◌*◌, ◌/◌, String, code, Bool, true, false, not, Option, none, some, List, [], ◌∷◌,
  where_, ltb, leb, len, ◌&&◌, nat_eq, is_empty, strip, starts_with, ◌==◌, if◌then◌else◌,
}
use flyrank_capstone_lead_ca.Config.{Settings}
use flyrank_capstone_lead_ca.Errors.{
  Error, uncaught, value_error, index_error, app_error, Result, ok, err,
}
use flyrank_capstone_lead_ca.Models.{Tenant, Tables}
use flyrank_capstone_lead_ca.Session.{
  add_tenant, Engine, Session, Action, pure, raise, lift, select, add, commit, scalar_one_or_none,
  ◌>>=◌, ◌>>◌,
}

-- The claims of a token. `sub` is the id that its text denotes, if it denotes one; times are in
-- seconds.
pub record Claims : Type 0 where
  pub sub : Option ℕ
  pub email : String
  pub iat : ℕ
  pub exp : ℕ

-- `jwt.decode`: the claims, `ExpiredSignatureError`, or another `PyJWTError`.
pub data Decoded : Type 0 where
  claims : Claims → Decoded
  expired : Decoded
  invalid : Decoded

-- The libraries, with the secret and the algorithm of the settings. `none` is a `ValueError`.
pub record Crypto : Type 0 where
  pub hashpw : String → ℕ → Option String
  pub checkpw : String → String → Option Bool
  pub encode : Claims → String
  pub decode : ℕ → String → Decoded
  pub lower : String → String

-- The number of bytes that UTF-8 gives a character.
abbrev pub bytes_of : ℕ → ℕ
bytes_of c = if ltb c 0x80 then 1 else if ltb c 0x800 then 2 else if ltb c 0x10000 then 3 else 4

-- `len(text.encode("utf-8"))`
unfoldable pub byte_len : String → ℕ
byte_len String.[] = 0
byte_len (String.◌∷◌ c s) = bytes_of (code c) + byte_len s

abbrev pub bcrypt_max_bytes : ℕ
bcrypt_max_bytes = 72

abbrev pub or_value_error : Option String → Result String
or_value_error none = err (uncaught value_error)
or_value_error (some h) = ok h

unfoldable pub hash_password : Crypto → ℕ → String → Result String
unfolding byte_len
hash_password c salt password =
    if ltb bcrypt_max_bytes (byte_len password)
    then err (uncaught value_error)
    else or_value_error (c.hashpw password salt)

abbrev pub holds : Option Bool → Bool
holds none = false
holds (some b) = b

unfoldable pub verify_password : Crypto → String → String → Bool
unfolding byte_len
verify_password c password password_hash =
    if ltb bcrypt_max_bytes (byte_len password)
    then false
    else holds (c.checkpw password password_hash)

pub record TokenResponse : Type 0 where
  pub access_token : String
  pub expires_in : ℕ

-- The claims that `create_access_token` writes at a time in microseconds.
abbrev pub claims_of : Settings → ℕ → Tenant → Claims
claims_of s now tenant = record {
  sub = some tenant.id;
  email = tenant.email;
  iat = now / 1_000_000;
  exp = (now + s.jwt_expire_minutes * 60 * 1_000_000) / 1_000_000;
}

abbrev pub create_access_token : Crypto → Settings → ℕ → Tenant → TokenResponse
create_access_token c s now tenant = record {
  access_token = c.encode (claims_of s now tenant);
  expires_in = s.jwt_expire_minutes * 60;
}

pub record RegisterRequest : Type 0 where
  pub email : String
  pub name : String
  pub password : String

pub record LoginRequest : Type 0 where
  pub email : String
  pub password : String

abbrev pub with_email : String → Tables → List Tenant
with_email email t = where_ (λ r. r.email == email) t.tenants

abbrev pub refuse_existing : Option Tenant → Action (Unit {0})
refuse_existing none = pure tt
refuse_existing (some r) = raise (app_error "an account with that email already exists" 409)

abbrev pub new_tenant : Crypto → ℕ → ℕ → RegisterRequest → String → Tenant
new_tenant c id now p password_hash = record {
  id = id;
  email = c.lower p.email;
  name = p.name;
  password_hash = password_hash;
  created_at = now;
}

abbrev pub bad_login : Error
bad_login = app_error "invalid email or password" 401

module _ (c : Crypto) (s : Settings) where
  -- `id` and `salt` are the fresh UUID and the fresh salt. One time stands for the clock in a call.
  unfoldable pub register : Engine → ℕ → ℕ → ℕ → RegisterRequest → Action TokenResponse
  unfolding hash_password
  register e id salt now p = do
    rows ← select (with_email (c.lower p.email))
    existing ← lift (scalar_one_or_none rows)
    refuse_existing existing
    password_hash ← lift (hash_password c salt p.password)
    add (add_tenant (new_tenant c id now p password_hash))
    commit e
    pure (create_access_token c s now (new_tenant c id now p password_hash))

  abbrev pub let_in : ℕ → String → Option Tenant → Action TokenResponse
  let_in now password none = raise bad_login
  let_in now password (some r) =
      if verify_password c password r.password_hash
      then pure (create_access_token c s now r)
      else raise bad_login

  unfoldable pub login : ℕ → LoginRequest → Action TokenResponse
  unfolding verify_password
  login now p = do
    rows ← select (with_email (c.lower p.email))
    tenant ← lift (scalar_one_or_none rows)
    let_in now p.password tenant

-- `TenantOut`, the answer of the route `me`: the account without its password's hash.
pub record TenantOut : Type 0 where
  pub id : ℕ
  pub email : String
  pub name : String
  pub created_at : ℕ

unfoldable pub me : Tenant → TenantOut
me tenant = record {
  id = tenant.id;
  email = tenant.email;
  name = tenant.name;
  created_at = tenant.created_at;
}

-- The constraints of the two requests; `EmailStr` is the library's test.
unfoldable pub accepts_register : (String → Bool) → RegisterRequest → Bool
accepts_register is_email p =
    is_email p.email
    && leb 1 (len p.name)
    && leb (len p.name) 200
    && leb 8 (len p.password)
    && leb (len p.password) 128

unfoldable pub accepts_login : (String → Bool) → LoginRequest → Bool
accepts_login is_email p = is_email p.email && leb 1 (len p.password) && leb (len p.password) 128

-- `authorization.split(" ", 1)[1]`, `none` where there is no space.
unfoldable pub after_space : String → Option String
after_space String.[] = none
after_space (String.◌∷◌ ch t) =
    let rest = after_space t in if nat_eq (code ch) b' ' then some t else rest

abbrev pub missing_header : Error
missing_header = app_error "missing or malformed Authorization header" 401

abbrev pub found_account : Option Tenant → Action Tenant
found_account none = raise (app_error "account no longer exists" 401)
found_account (some r) = pure r

-- `db.get(Tenant, tenant_id)`
abbrev pub with_id : ℕ → Tables → List Tenant
with_id id t = where_ (λ r. nat_eq r.id id) t.tenants

abbrev pub account_of : Option ℕ → Action Tenant
account_of none = raise (app_error "invalid token subject" 401)
account_of (some id) = do
  rows ← select (with_id id)
  tenant ← lift (scalar_one_or_none rows)
  found_account tenant

abbrev pub of_decoded : Decoded → Action Tenant
of_decoded (claims k) = account_of k.sub
of_decoded expired = raise (app_error "token has expired" 401)
of_decoded invalid = raise (app_error "invalid token" 401)

abbrev pub of_rest : Crypto → ℕ → Option String → Action Tenant
of_rest c now none = raise (uncaught index_error)
of_rest c now (some rest) = of_decoded (c.decode now (strip rest))

-- `now` is in seconds here.
unfoldable pub current_tenant : Crypto → ℕ → Option String → Action Tenant
unfolding after_space strip
current_tenant c now none = raise missing_header
current_tenant c now (some header) =
    if is_empty header
    then raise missing_header
    else if starts_with (c.lower header) "bearer "
    then of_rest c now (after_space header)
    else raise missing_header
