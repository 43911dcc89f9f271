-- ===== src/Auth/Accounts.antt =====
-- What an account that was registered can do with its password and its token.
use flyrank_capstone_lead_ca.Prelude.{
  ◌≤◌, ℕ, ◌+◌, ◌*◌, ◌/◌, ◌<◌, ◌≡◌, ◌≢◌, refl, ap, ◌∙◌, inl, inr, String, append, code, ◌⊎◌, eq_iff,
  true, false, Option, none, some, List, [], ◌∷◌, ◌++◌, where_, ltb, nat_eq, is_empty, strip,
  starts_with, arith, ◌==◌, where-append, Bool-cases, Option-cases,
}
use text.Mathlib.TextLemmas.{cons-append, nil-append}
use flyrank_capstone_lead_ca.Config.{Settings}
use flyrank_capstone_lead_ca.Errors.{uncaught, multiple_results, Result, ok, err}
use flyrank_capstone_lead_ca.Models.{Tenant, Tables}
use flyrank_capstone_lead_ca.Session.{
  add_tenant, Engine, Session, opened, apply, write_all, commit, scalar_one_or_none, continue, add,
  pure, ◌>>◌,
}
use flyrank_capstone_lead_ca.Auth.{
  Claims, claims, Crypto, byte_len, hash_password, verify_password, TokenResponse, claims_of,
  create_access_token, RegisterRequest, with_email, new_tenant, register, login, after_space,
  with_id, current_tenant,
}

-- What bcrypt, PyJWT and `str.lower` promise, for a token with some claims: a password checks against
-- its own hash; the token decodes to its claims from its issue until it expires, and has no white
-- space around it;
-- and the word before it in a header becomes lower case.
pub record Honest (c : Crypto) (k : Claims) : Type 0 where
  pub checks :
      (password : String) (salt : ℕ) (h : String)
      → c.hashpw password salt ≡ some h
      → c.checkpw password h ≡ some true
  pub decodes : (now : ℕ) → k.iat ≤ now → now < k.exp → c.decode now (c.encode k) ≡ claims k
  pub stripped : strip (c.encode k) ≡ c.encode k
  pub bearer : starts_with (c.lower (append "Bearer " (c.encode k))) "bearer " ≡ true

verify-hash :
    (c : Crypto) (k : Claims) (password : String) (salt : ℕ) (h : String)
    → Honest c k
    → hash_password c salt password ≡ ok h
    → verify_password c password h ≡ true
unfolding hash_password verify_password
verify-hash c k password salt h honest e = elim (Bool-cases (ltb 72 (byte_len password))) [
  | inl long ↦ absurd (ground arith)
  | inr short ↦ elim (Option-cases (c.hashpw password salt)) [
    | inl n ↦ absurd (ground arith)
    | inr (g, n) ↦
        let same : g ≡ h = ground arith in
        rw (short, honest.checks password salt h (n ∙ ap some same)) refl
  ]
]

-- Where a text ends at its first space, what follows the space is what is appended.
after_space-append : (u t : String) → after_space u ≡ some "" → after_space (append u t) ≡ some t
unfolding after_space
after_space-append String.[] t h = absurd (cc)
after_space-append (String.◌∷◌ ch u) t h = elim (Bool-cases (nat_eq (code ch) b' ')) [
  | inl e ↦ let last : u ≡ "" = ground arith in rw (cons-append ch u t, e, last, nil-append t) refl
  | inr e ↦ rw (cons-append ch u t, e) (after_space-append u t (ground arith))
]

is_empty-append : (u t : String) → is_empty u ≡ false → is_empty (append u t) ≡ false
is_empty-append String.[] t h = absurd (cc)
is_empty-append (String.◌∷◌ ch u) t h = rw (cons-append ch u t) refl

-- `db.get` finds the account that was added under a new id.
account_added :
    (t : Tables) (id : ℕ) (new : Tenant)
    → new.id ≡ id
    → with_id id t ≡ []
    → where_ (λ r. nat_eq r.id id) (t.tenants ++ new ∷ []) ≡ new ∷ []
unfolding where_
account_added t id new e h =
    rw (where-append (λ (r : Tenant). nat_eq r.id id) t.tenants (new ∷ []), h) (ground arith)

email_added :
    (t : Tables) (email : String) (new : Tenant)
    → new.email ≡ email
    → with_email email t ≡ []
    → where_ (λ r. r.email == email) (t.tenants ++ new ∷ []) ≡ new ∷ []
unfolding where_
email_added t email new e h =
    rw (where-append (λ (r : Tenant). r.email == email) t.tenants (new ∷ []), h)
      (ground (arith, eq_iff new.email email))

pub scalar-cases :
    (rows : List Tenant)
    → (rows ≡ []) ⊎ ((o : Result (Option Tenant)) × (scalar_one_or_none rows ≡ o) × (o ≢ ok none))
scalar-cases [] = inl refl
scalar-cases (r ∷ []) = inr (ok (some r), refl, λ h. absurd (cc h))
scalar-cases (r ∷ r' ∷ rows) = inr (err (uncaught multiple_results), refl, λ h. absurd (cc h))

module _ (c : Crypto) (s : Settings) (e : Engine) (id salt now : ℕ) (p : RegisterRequest)
    (t : Tables) where
  -- The claims of the token that the registration returns.
  abbrev pub account_claims : Claims
  account_claims = record {
    sub = some id;
    email = c.lower p.email;
    iat = now / 1_000_000;
    exp = (now + s.jwt_expire_minutes * 60 * 1_000_000) / 1_000_000;
  }

  -- What a registration that returned has done.
  abbrev pub Registered : TokenResponse → Session → Type 0
  Registered r z =
      (h : String) × (hash_password c salt p.password ≡ ok h)
      × (with_email (c.lower p.email) t ≡ [])
      × (z ≡ opened (record t { tenants = t.tenants ++ new_tenant c id now p h ∷ [] }))
      × (r ≡ create_access_token c s now (new_tenant c id now p h))

  -- The steps after the lookup has found no account.
  unfoldable pub insert_account : Result String → Result TokenResponse × Session
  insert_account r =
      continue r
        (λ h.
          add (add_tenant (new_tenant c id now p h))
          >> (commit e >> pure (create_access_token c s now (new_tenant c id now p h))))
        (opened t)

  insert-Registered :
      (o : Result String) (r : TokenResponse) (z : Session)
      → hash_password c salt p.password ≡ o
      → with_email (c.lower p.email) t ≡ []
      → insert_account o ≡ (ok r, z)
      → Registered r z
  unfolding insert_account commit write_all apply
  insert-Registered (err x) r z hash nobody h = absurd (cc)
  insert-Registered (ok k) r z hash nobody h =
      elim (Option-cases (e.refusal t (add_tenant (new_tenant c id now p k)))) [
        | inl n ↦ (k, hash, nobody, cc (rw n at h), cc (rw n at h))
        | inr (x, n) ↦ absurd (cc (rw n at h))
      ]

  register-Registered :
      (r : TokenResponse) (z : Session)
      → register c s e id salt now p (opened t) ≡ (ok r, z)
      → Registered r z
  unfolding register insert_account
  register-Registered r z h = elim (scalar-cases (with_email (c.lower p.email) t)) [
    | inl nobody ↦
        insert-Registered (hash_password c salt p.password) r z refl nobody (rw nobody at h)
    | inr (ok none, same, not_none) ↦ absurd (not_none refl)
    | inr (ok (some a), same, not_none) ↦ absurd (cc (rw same at h))
    | inr (err x, same, not_none) ↦ absurd (cc (rw same at h))
  ]

  login_after :
      (honest : Honest c account_claims) (h : String) (later : ℕ)
      → hash_password c salt p.password ≡ ok h
      → with_email (c.lower p.email) t ≡ []
      → let z = opened (record t { tenants = t.tenants ++ new_tenant c id now p h ∷ [] }) in
        login c s later (record { email = p.email; password = p.password }) z
        ≡ (ok (create_access_token c s later (new_tenant c id now p h)), z)
  unfolding login
  login_after honest h later hash nobody =
      rw
        (
          email_added t (c.lower p.email) (new_tenant c id now p h) refl nobody,
          verify-hash c account_claims p.password salt h honest hash,
        )
        refl

  token_after :
      (honest : Honest c account_claims) (h : String) (seconds : ℕ)
      → with_id id t ≡ []
      → account_claims.iat ≤ seconds
      → seconds < account_claims.exp
      → let z = opened (record t { tenants = t.tenants ++ new_tenant c id now p h ∷ [] }) in
        current_tenant c seconds
          (some (append "Bearer " (c.encode (claims_of s now (new_tenant c id now p h)))))
          z
        ≡ (ok (new_tenant c id now p h), z)
  unfolding current_tenant
  token_after honest h seconds fresh_id issued early =
      let k = account_claims in
      rw
        (
          is_empty-append "Bearer " (c.encode k) refl,
          honest.bearer,
          after_space-append "Bearer " (c.encode k) (unfold after_space in refl),
          honest.stripped,
          honest.decodes seconds issued early,
          account_added t id (new_tenant c id now p h) refl fresh_id,
        )
        refl

  -- Where the libraries keep their promises and the new id is fresh: after a registration that
  -- returned, whatever the engine, a login with the same email and password returns a token of the
  -- account at any later time, and the token that the registration returned opens exactly this
  -- account from the second of its issue until it expires. Neither changes a table.
  pub register_then_login :
      (r : TokenResponse) (z : Session) (later seconds : ℕ)
      → Honest c account_claims
      → with_id id t ≡ []
      → register c s e id salt now p (opened t) ≡ (ok r, z)
      → account_claims.iat ≤ seconds
      → seconds < account_claims.exp
      → (h : String) × (login c s later (record { email = p.email; password = p.password }) z
          ≡ (ok (create_access_token c s later (new_tenant c id now p h)), z))
        × (current_tenant c seconds (some (append "Bearer " r.access_token)) z
            ≡ (ok (new_tenant c id now p h), z))
  register_then_login r z later seconds honest fresh_id done issued early =
      let (h, hash, nobody, state, answer) = register-Registered r z done in
      (
        h,
        rw state (login_after honest h later hash nobody),
        rw (state, answer) (token_after honest h seconds fresh_id issued early),
      )
