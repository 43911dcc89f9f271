-- ===== src/Auth/Registration.antt =====
-- app/routers/auth.py: which registrations return.
use flyrank_capstone_lead_ca.Prelude.{
  ◌≤◌, ◌↔◌, All, ℕ, ◌≡◌, ◌≢◌, refl, ap, ◌∙◌, inl, inr, String, eq_iff, false, none, some, List, [],
  ◌∷◌, ◌++◌, where_, ltb, arith, ◌==◌, Bool-cases, Option-cases,
}
use flyrank_capstone_lead_ca.Config.{Settings}
use flyrank_capstone_lead_ca.Errors.{Result, ok, err}
use flyrank_capstone_lead_ca.Models.{Tenant, Tables}
use flyrank_capstone_lead_ca.Session.{add_tenant, Engine, Session, opened, apply, write_all, commit}
use flyrank_capstone_lead_ca.Auth.{
  Crypto, byte_len, hash_password, TokenResponse, create_access_token, RegisterRequest, with_email,
  new_tenant, register,
}
use flyrank_capstone_lead_ca.Auth.Accounts.{scalar-cases, insert_account}

ok-hash_password :
    (c : Crypto) (salt : ℕ) (password h : String)
    → hash_password c salt password ≡ ok h
    → (byte_len password ≤ 72) × (c.hashpw password salt ≡ some h)
unfolding hash_password
ok-hash_password c salt password h e = elim (Bool-cases (ltb 72 (byte_len password))) [
  | inl long ↦ absurd (ground arith)
  | inr short ↦ elim (Option-cases (c.hashpw password salt)) [
    | inl n ↦ absurd (ground arith)
    | inr (g, n) ↦ let same : g ≡ h = ground arith in (ground arith, n ∙ ap some same)
  ]
]

nobody-All :
    (email : String) (rs : List Tenant)
    → where_ (λ r. r.email == email) rs ≡ []
    → All (λ r. r.email ≢ email) rs
unfolding where_
nobody-All email [] h = tt
nobody-All email (r ∷ rs) h = elim (Bool-cases (r.email == email)) [
  | inl e ↦ absurd (cc (rw e at h))
  | inr e ↦ (λ same. absurd (ground (arith, eq_iff r.email email)), nobody-All email rs (rw e at h))
]

All-nobody :
    (email : String) (rs : List Tenant)
    → All (λ r. r.email ≢ email) rs
    → where_ (λ r. r.email == email) rs ≡ []
unfolding where_
All-nobody email [] h = refl
All-nobody email (r ∷ rs) h = elim (Bool-cases (r.email == email)) [
  | inl e ↦ absurd (h.0 (ground (arith, eq_iff r.email email)))
  | inr e ↦ rw e (All-nobody email rs h.1)
]

module _ (c : Crypto) (s : Settings) (e : Engine) (id salt now : ℕ) (p : RegisterRequest)
    (t : Tables) where
  -- What a registration needs: nobody has the email, a password that bcrypt takes, and a row that the
  -- engine takes.
  abbrev pub MayRegister : Type 0
  MayRegister =
      All (λ r. r.email ≢ c.lower p.email) t.tenants
      × (byte_len p.password ≤ 72)
      × ((h : String) × (c.hashpw p.password salt ≡ some h)
          × (e.refusal t (add_tenant (new_tenant c id now p h)) ≡ none))

  insert_may :
      (o : Result String) (r : TokenResponse) (z : Session)
      → hash_password c salt p.password ≡ o
      → insert_account c s e id salt now p t o ≡ (ok r, z)
      → (byte_len p.password ≤ 72)
        × ((h : String) × (c.hashpw p.password salt ≡ some h)
            × (e.refusal t (add_tenant (new_tenant c id now p h)) ≡ none))
  unfolding insert_account commit write_all
  insert_may (err x) r z hash h = absurd (cc)
  insert_may (ok k) r z hash h =
      elim (Option-cases (e.refusal t (add_tenant (new_tenant c id now p k)))) [
        | inl n ↦
            let (short, hashed) = ok-hash_password c salt p.password k hash in
            (short, (k, hashed, n))
        | inr (x, n) ↦ absurd (cc (rw n at h))
      ]

  register_may :
      (r : TokenResponse) (z : Session)
      → register c s e id salt now p (opened t) ≡ (ok r, z)
      → MayRegister
  unfolding register
  register_may r z h = elim (scalar-cases (with_email (c.lower p.email) t)) [
    | inl nobody ↦
        let (short, hashed) =
          insert_may (hash_password c salt p.password) r z refl
            (unfold insert_account in rw nobody at h) in
        (nobody-All (c.lower p.email) t.tenants nobody, short, hashed)
    | inr (ok none, same, not_none) ↦ absurd (not_none refl)
    | inr (ok (some a), same, not_none) ↦ absurd (cc (rw same at h))
    | inr (err x, same, not_none) ↦ absurd (cc (rw same at h))
  ]

  may_register :
      (h : String)
      → with_email (c.lower p.email) t ≡ []
      → ltb 72 (byte_len p.password) ≡ false
      → c.hashpw p.password salt ≡ some h
      → e.refusal t (add_tenant (new_tenant c id now p h)) ≡ none
      → register c s e id salt now p (opened t) ≡ (
        ok (create_access_token c s now (new_tenant c id now p h)),
        opened (record t { tenants = t.tenants ++ new_tenant c id now p h ∷ [] }),
      )
  unfolding register hash_password commit write_all apply
  may_register h nobody short hashed n = rw (nobody, short, hashed, n)

  -- A registration returns exactly when no account has the email, the password has at most 72 bytes
  -- and bcrypt hashes it, and the engine takes the row of the new account. The schema accepts
  -- passwords of up to 128 characters, so not every accepted payload can be registered.
  pub register_iff :
      ((r : TokenResponse) × (z : Session) × (register c s e id salt now p (opened t) ≡ (ok r, z)))
      ↔ MayRegister
  register_iff = (
    λ done. register_may done.0 done.1 done.2,
    λ may.
        let (free, short, (h, hashed, n)) = may in
        (
          create_access_token c s now (new_tenant c id now p h),
          opened (record t { tenants = t.tenants ++ new_tenant c id now p h ∷ [] }),
          may_register h (All-nobody (c.lower p.email) t.tenants free) (ground arith) hashed n,
        ),
  )
