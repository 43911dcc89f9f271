-- ===== src/Tests/Signing.antt =====
-- The theorems on accounts at concrete inputs.
use flyrank_capstone_lead_ca.Prelude.{
  ◌↔◌, ◌≡◌, refl, String, append, some, [], ◌∷◌, arith, where_, strip, lstrip_by, rstrip_by,
  is_space, ◌==◌, eq_iff, ltb, if◌then◌else◌,
}
use flyrank_capstone_lead_ca.Config.{defaults}
use flyrank_capstone_lead_ca.Errors.{ok}
use flyrank_capstone_lead_ca.Models.{Tables}
use flyrank_capstone_lead_ca.Session.{Session, opened, write_all, commit, apply}
use flyrank_capstone_lead_ca.Auth.{
  TokenResponse, Claims, claims, expired, Crypto, byte_len, hash_password, create_access_token,
  RegisterRequest, register, login, new_tenant, current_tenant,
}
use flyrank_capstone_lead_ca.Auth.Accounts.{Honest, account_claims, register_then_login}
use flyrank_capstone_lead_ca.Auth.Registration.{MayRegister, register_iff}
use flyrank_capstone_lead_ca.Tests.Samples.{tables, unique_engine}

-- A library for one account: the hash of a password is the password, and there is one token.
abbrev ann_claims : Claims
ann_claims = record { sub = some 5; email = "ann@mail.org"; iat = 0; exp = 86_400 }

abbrev toy : Crypto
toy = record {
  hashpw = λ password salt. some password;
  checkpw = λ password h. some (password == h);
  encode = λ k. "token";
  decode = λ now t. if ltb now 86_400 then claims ann_claims else expired;
  lower = λ t. if t == "Bearer token" then "bearer token" else t;
}

abbrev ann : RegisterRequest
ann = record { email = "ann@mail.org"; name = "Ann"; password = "correct horse" }

toy-Honest : Honest toy (account_claims toy defaults unique_engine 5 0 60 ann tables)
toy-Honest = record {
  checks = λ password salt h e. ground (arith, eq_iff password h);
  decodes = λ now issued early. ground arith;
  stripped = unfold strip lstrip_by rstrip_by is_space in refl;
  bearer = refl;
}

abbrev with_account : Tables
with_account = record tables { tenants = new_tenant toy 5 60 ann "correct horse" ∷ [] }

register_runs : register toy defaults unique_engine 5 0 60 ann (opened tables) ≡ (
  ok (create_access_token toy defaults 60 (new_tenant toy 5 60 ann "correct horse")),
  opened with_account,
)
unfolding register hash_password byte_len commit write_all apply where_
register_runs = refl

register_then_login_example :
    (h : String) × (login toy defaults 90
        (record { email = "ann@mail.org"; password = "correct horse" })
        (opened with_account)
      ≡ (ok (create_access_token toy defaults 90 (new_tenant toy 5 60 ann h)), opened with_account))
    × (current_tenant toy 7 (some (append "Bearer " "token")) (opened with_account)
        ≡ (ok (new_tenant toy 5 60 ann h), opened with_account))
unfolding where_
register_then_login_example =
    register_then_login toy defaults unique_engine 5 0 60 ann tables
      (create_access_token toy defaults 60 (new_tenant toy 5 60 ann "correct horse"))
      (opened with_account) 90 7 toy-Honest refl register_runs (omega arith) (omega arith)

register_iff_example :
    ((r : TokenResponse) × (z : Session) × (register toy defaults unique_engine 5 0 60 ann
          (opened tables)
        ≡ (ok r, z)))
    ↔ MayRegister toy defaults unique_engine 5 0 60 ann tables
register_iff_example = register_iff toy defaults unique_engine 5 0 60 ann tables
