-- ===== src/Spam.antt =====
-- app/spam.py: the honeypot and the fill-time heuristic.
use flyrank_capstone_lead_ca.Prelude.{
  ℕ, ◌*◌, ◌≤◌, ◌≡◌, ◌⊎◌, ◌↔◌, refl, inl, inr, String, Bool, true, false, not, Option, none, some,
  arith, strip, ltb, ◌==◌, eq_iff, if◌then◌else◌,
}
use flyrank_capstone_lead_ca.Config.{Settings}

pub record SpamVerdict : Type 0 where
  pub is_spam : Bool
  pub reason : String

-- `honeypot is not None and honeypot.strip() != ""`
abbrev pub honeypot_filled : Option String → Bool
honeypot_filled none = false
honeypot_filled (some h) = not (strip h == "")

-- `elapsed_ms is not None and elapsed_ms < settings.min_fill_seconds * 1000`
abbrev pub too_fast : Settings → Option ℕ → Bool
too_fast s none = false
too_fast s (some ms) = ltb (ms * 1000) s.min_fill_micros

unfoldable pub classify : Settings → Option String → Option ℕ → SpamVerdict
classify s honeypot elapsed_ms =
    if honeypot_filled honeypot
    then record { is_spam = true; reason = "honeypot_filled" }
    else if too_fast s elapsed_ms
    then record { is_spam = true; reason = "submitted_too_fast" }
    else record { is_spam = false; reason = "" }

-- What a human's form shows: a honeypot that is absent or blank, and a fill time that is absent or
-- at least the minimum.
abbrev pub LooksHuman : Settings → Option String → Option ℕ → Type 0
LooksHuman s honeypot elapsed_ms =
    ((honeypot ≡ none) ⊎ ((h : String) × (honeypot ≡ some h) × (strip h ≡ "")))
    × ((elapsed_ms ≡ none) ⊎ ((ms : ℕ) × (elapsed_ms ≡ some ms) × (s.min_fill_micros ≤ ms * 1000)))

human_of_verdict :
    (s : Settings) (honeypot : Option String) (elapsed_ms : Option ℕ)
    → (classify s honeypot elapsed_ms).is_spam ≡ false
    → LooksHuman s honeypot elapsed_ms
unfolding classify
human_of_verdict s none none h = (inl refl, inl refl)
human_of_verdict s none (some ms) h = (inl refl, inr (ms, refl, ground arith))
human_of_verdict s (some t) none h = (inr (t, refl, ground (arith, eq_iff (strip t) "")), inl refl)
human_of_verdict s (some t) (some ms) h =
    (inr (t, refl, ground (arith, eq_iff (strip t) "")), inr (ms, refl, ground arith))

verdict_of_human :
    (s : Settings) (honeypot : Option String) (elapsed_ms : Option ℕ)
    → LooksHuman s honeypot elapsed_ms
    → (classify s honeypot elapsed_ms).is_spam ≡ false
unfolding classify
verdict_of_human s none none h = refl
verdict_of_human s none (some ms) h = ground arith
verdict_of_human s (some t) none h = ground (arith, eq_iff (strip t) "")
verdict_of_human s (some t) (some ms) h = ground (arith, eq_iff (strip t) "")

-- A submission is not spam exactly when it looks human: the honeypot is absent or blank, and the
-- fill time is absent or at least the configured minimum.
classify_iff :
    (s : Settings) (honeypot : Option String) (elapsed_ms : Option ℕ)
    → ((classify s honeypot elapsed_ms).is_spam ≡ false) ↔ LooksHuman s honeypot elapsed_ms
classify_iff s honeypot elapsed_ms =
    (human_of_verdict s honeypot elapsed_ms, verdict_of_human s honeypot elapsed_ms)
