-- ===== src/Enrichment.antt =====
-- app/enrichment/providers.py and chain.py: the providers, and the fallback from one to the next.
-- The HTTP client and Python's `ipaddress` are parameters.
pub mod Fallback
use flyrank_capstone_lead_ca.Prelude.{
  ℕ, String, append, Bool, true, false, not, Option, none, some, List, [], ◌∷◌, ◌==◌, Dict, lookup,
  is_empty, if◌then◌else◌,
}
use flyrank_capstone_lead_ca.Config.{Settings}
use flyrank_capstone_lead_ca.Models.{GeoStatus, enriched, unavailable, skipped}

pub record GeoResult : Type 0 where
  pub provider : String
  pub country : Option String
  pub country_code : Option String
  pub region : Option String
  pub city : Option String

-- How a call of `lookup` ends: with a result, with a `ProviderError`, or with another exception.
pub data Lookup : Type 0 where
  found : GeoResult → Lookup
  provider_error : Lookup
  crashed : Lookup

-- What the HTTP request gives: an exception that the provider catches (`httpx.HTTPError` or
-- `ValueError`), a JSON value that is no object, or an object with its text members. A member that
-- is not a text is left out by `get`, but for `error`, of which only the truth value is read.
pub data Body : Type 0 where
  no_response : Body
  not_object : Body
  object : Bool → Dict String → Body

-- What the providers and the chain take from outside.
pub record Network : Type 0 where
  pub get : String → Body
  -- `ipaddress.ip_address(ip).is_global`, `none` where it raises `ValueError`
  pub is_global : String → Option Bool

abbrev pub says : String → Option String → Bool
says t none = false
says t (some u) = u == t

-- `IpApiComProvider.lookup`
abbrev pub ip_api_com_answer : Body → Lookup
ip_api_com_answer no_response = provider_error
ip_api_com_answer not_object = crashed
ip_api_com_answer (object error body) =
    if says "success" (lookup "status" body)
    then found (record {
      provider = "ip-api.com";
      country = lookup "country" body;
      country_code = lookup "countryCode" body;
      region = lookup "regionName" body;
      city = lookup "city" body;
    })
    else provider_error

-- `IpapiCoProvider.lookup`
abbrev pub ipapi_co_answer : Body → Lookup
ipapi_co_answer no_response = provider_error
ipapi_co_answer not_object = crashed
ipapi_co_answer (object error body) =
    if error
    then provider_error
    else found (record {
      provider = "ipapi.co";
      country = lookup "country_name" body;
      country_code = lookup "country_code" body;
      region = lookup "region" body;
      city = lookup "city" body;
    })

-- The classes of providers. `mock` has the setting that says whether it is up, and its answer.
pub data GeoProvider : Type 0 where
  ip_api_com ipapi_co : GeoProvider
  mock : Bool → GeoResult → GeoProvider

unfoldable pub lookup_ip : Network → GeoProvider → String → Lookup
lookup_ip net ip_api_com ip = ip_api_com_answer (
    net.get (
      append (append "http://ip-api.com/json/" ip)
        "?fields=status,message,country,countryCode,regionName,city"))
lookup_ip net ipapi_co ip =
    ipapi_co_answer (net.get (append (append "https://ipapi.co/" ip) "/json/"))
lookup_ip net (mock up result) ip = if up then found result else provider_error

abbrev pub result_a : GeoResult
result_a = record {
  provider = "mock-provider-a";
  country = some "Kenya";
  country_code = some "KE";
  region = some "Nairobi County";
  city = some "Nairobi";
}

abbrev pub result_b : GeoResult
result_b = record {
  provider = "mock-provider-b";
  country = some "Germany";
  country_code = some "DE";
  region = some "Berlin";
  city = some "Berlin";
}

unfoldable pub build_chain : Settings → List GeoProvider
build_chain s =
    if s.geo_mode == "live"
    then ip_api_com ∷ ipapi_co ∷ []
    else mock s.geo_mock_a_up result_a ∷ mock s.geo_mock_b_up result_b ∷ []

abbrev is_true : Option Bool → Bool
is_true none = false
is_true (some b) = b

unfoldable pub is_public_ip : Network → Option String → Bool
is_public_ip net none = false
is_public_ip net (some ip) = if is_empty ip then false else is_true (net.is_global ip)

-- The loop of `enrich_ip`: a provider that raises, whatever it raises, is passed over.
unfoldable pub try_each : Network → List GeoProvider → String → GeoStatus × Option GeoResult
try_each net [] ip = (unavailable, none)
try_each net (p ∷ ps) ip = elim (lookup_ip net p ip) [
  | found result ↦ (enriched, some result)
  | provider_error ↦ try_each net ps ip
  | crashed ↦ try_each net ps ip
]

-- The address that is looked up: a public one itself, and the fallback of the settings for any
-- other, if there is one.
unfoldable pub address : Network → Settings → Option String → Option String
address net s none = if is_empty s.geo_dev_fallback_ip then none else some s.geo_dev_fallback_ip
address net s (some ip) =
    if is_public_ip net (some ip)
    then some ip
    else if is_empty s.geo_dev_fallback_ip
    then none
    else some s.geo_dev_fallback_ip

abbrev pub look_up_or_skip :
    Network → List GeoProvider → Option String → GeoStatus × Option GeoResult
look_up_or_skip net chain none = (skipped, none)
look_up_or_skip net chain (some ip) = try_each net chain ip

-- `enrich_ip(ip, chain)`, and with the chain of the settings as the service calls it.
unfoldable pub enrich_with :
    Network → Settings → List GeoProvider → Option String → GeoStatus × Option GeoResult
unfolding address is_public_ip
enrich_with net s chain ip = look_up_or_skip net chain (address net s ip)

unfoldable pub enrich_ip : Network → Settings → Option String → GeoStatus × Option GeoResult
unfolding enrich_with build_chain
enrich_ip net s ip = enrich_with net s (build_chain s) ip
