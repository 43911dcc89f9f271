-- ===== src/Enrichment/Fallback.antt =====
-- What the chain answers: the first provider that works, and nothing but a status when none does.
use flyrank_capstone_lead_ca.Prelude.{
  ap, sym, ◌∙◌, refl, inl, inr, Option-cases, String, ◌≡◌, ◌⊎◌, Option, none, some, List, [], ◌∷◌,
  ◌++◌, arith, All,
}
use mathlib.Core.Path.{subst}
use flyrank_capstone_lead_ca.Config.{Settings}
use flyrank_capstone_lead_ca.Models.{GeoStatus, enriched, unavailable, skipped}
use flyrank_capstone_lead_ca.Enrichment.{
  GeoResult, Lookup, found, provider_error, crashed, Network, GeoProvider, lookup_ip, try_each,
  address, enrich_with,
}

-- A provider that raised, in one way or the other.
abbrev pub Fails : Network → String → GeoProvider → Type 0
Fails net ip p = (lookup_ip net p ip ≡ provider_error) ⊎ (lookup_ip net p ip ≡ crashed)

pub try_each-append :
    (net : Network) (ip : String) (before after : List GeoProvider)
    → All (Fails net ip) before
    → try_each net (before ++ after) ip ≡ try_each net after ip
unfolding try_each
try_each-append net ip [] after h = refl
try_each-append net ip (p ∷ before) after (f, h) =
    ground (arith, try_each-append net ip before after h)

try_each_found :
    (net : Network) (ip : String) (p : GeoProvider) (after : List GeoProvider) (result : GeoResult)
    → lookup_ip net p ip ≡ found result
    → try_each net (p ∷ after) ip ≡ (enriched, some result)
unfolding try_each
try_each_found net ip p after result f = ground arith

-- What a status says of the chain's run: `enriched` comes with the answer of a provider of the
-- chain, `unavailable` means that all failed, and `skipped` that there was no address to look up.
abbrev pub Explains :
    Network → Settings → List GeoProvider → Option String → GeoStatus × Option GeoResult → Type 0
Explains net s chain ip (enriched, none) = ⊥
Explains net s chain ip (enriched, some result) =
    (at : String) × (before : List GeoProvider) × (p : GeoProvider) × (after : List GeoProvider)
    × (address net s ip ≡ some at)
    × (chain ≡ before ++ p ∷ after)
    × All (Fails net at) before
    × (lookup_ip net p at ≡ found result)
Explains net s chain ip (unavailable, r) =
    (at : String) × (address net s ip ≡ some at) × (r ≡ none) × All (Fails net at) chain
Explains net s chain ip (skipped, r) = (address net s ip ≡ none) × (r ≡ none)

-- How the loop ends.
abbrev Ends : Network → String → List GeoProvider → GeoStatus × Option GeoResult → Type 0
Ends net ip chain r =
    (All (Fails net ip) chain × (r ≡ (unavailable, none)))
    ⊎ ((before : List GeoProvider) × (p : GeoProvider) × (after : List GeoProvider)
        × (result : GeoResult) × (chain ≡ before ++ p ∷ after)
        × All (Fails net ip) before
        × (lookup_ip net p ip ≡ found result)
        × (r ≡ (enriched, some result)))

lookup-cases :
    (net : Network) (ip : String) (p : GeoProvider)
    → ((result : GeoResult) × (lookup_ip net p ip ≡ found result)) ⊎ Fails net ip p
lookup-cases net ip p = go (lookup_ip net p ip) refl
  where
    go :
        (l : Lookup)
        → lookup_ip net p ip ≡ l
        → ((result : GeoResult) × (lookup_ip net p ip ≡ found result)) ⊎ Fails net ip p
    go (found result) e = inl (result, e)
    go provider_error e = inr (inl e)
    go crashed e = inr (inr e)

Ends-Fails :
    (net : Network) (ip : String) (p : GeoProvider) (ps : List GeoProvider)
    → Fails net ip p
    → Ends net ip ps (try_each net ps ip)
    → Ends net ip (p ∷ ps) (try_each net (p ∷ ps) ip)
Ends-Fails net ip p ps f (inl (all, e)) =
    inl ((f, all), try_each-append net ip (p ∷ []) ps (f, tt) ∙ e)
Ends-Fails net ip p ps f (inr (before, q, after, result, split, fails, works, e)) = inr (
  p ∷ before,
  q,
  after,
  result,
  ap (◌∷◌ p) split,
  (f, fails),
  works,
  try_each-append net ip (p ∷ []) ps (f, tt) ∙ e,
)

try_each-Ends :
    (net : Network) (ip : String) (chain : List GeoProvider)
    → Ends net ip chain (try_each net chain ip)
try_each-Ends net ip [] = inl (tt, unfold try_each in refl)
try_each-Ends net ip (p ∷ ps) = first (lookup-cases net ip p) (try_each-Ends net ip ps)
  where
    first :
        ((result : GeoResult) × (lookup_ip net p ip ≡ found result)) ⊎ Fails net ip p
        → Ends net ip ps (try_each net ps ip)
        → Ends net ip (p ∷ ps) (try_each net (p ∷ ps) ip)
    first (inl (result, works)) later =
        inr ([], p, ps, result, refl, tt, works, try_each_found net ip p ps result works)
    first (inr f) later = Ends-Fails net ip p ps f later

Explains-Ends :
    (net : Network) (s : Settings) (chain : List GeoProvider) (ip : Option String) (at : String)
    (r : GeoStatus × Option GeoResult)
    → address net s ip ≡ some at
    → Ends net at chain r
    → Explains net s chain ip r
Explains-Ends net s chain ip at r e (inl (all, f)) =
    subst (Explains net s chain ip) (sym f) (at, e, refl, all)
Explains-Ends net s chain ip at r e (inr (before, p, after, result, split, fails, works, f)) =
    subst (Explains net s chain ip) (sym f) (at, before, p, after, e, split, fails, works)

-- For every network, setting, chain and address, enrichment answers with a status that is true of
-- the run: the first provider that answered, after all before it failed; that every provider failed
-- on the address; or that there was no address to look up.
pub enrich_with-Explains :
    (net : Network) (s : Settings) (chain : List GeoProvider) (ip : Option String)
    → Explains net s chain ip (enrich_with net s chain ip)
unfolding enrich_with
enrich_with-Explains net s chain ip = elim (Option-cases (address net s ip)) [
  | inl e ↦ rw e (e, refl)
  | inr (at, e) ↦ rw e (Explains-Ends net s chain ip at _ e (try_each-Ends net at chain))
]
