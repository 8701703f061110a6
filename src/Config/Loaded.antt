-- ===== src/Config/Loaded.antt =====
-- What `Load` of internal/config/config.go accepts.
use Prim.Native.Char.{Char, code}
use Prim.Native.String as Text
use text.Mathlib.Text.{starts_with}
use text.Mathlib.TextLemmas.{nil-append, cons-append}
use hive_agent.Prelude.{
  subst, String, ◌≡◌, ◌≢◌, refl, sym, ap, ◌∙◌, ◌↔◌, inl, inr, Bool, true, false, none, ◌==◌, ◌&&◌,
  arith, if◌then◌else◌, eqb, eq_iff, Bool-cases, Option-cases,
}
use hive_agent.Prelude.Text.{trim_right_slash}
use hive_agent.Prelude.Result.{ok}
use hive_agent.Config.{Config, Viper, read, check, load}

-- The last character is a slash.
abbrev pub ends_with_slash : String → Bool
ends_with_slash Text.[] = false
ends_with_slash (Text.◌∷◌ c s) = if s == "" then eqb (code c) b'/' else ends_with_slash s

-- Only slashes.
abbrev pub all_slashes : String → Bool
all_slashes Text.[] = true
all_slashes (Text.◌∷◌ c s) = eqb (code c) b'/' && all_slashes s

last_letter :
    (c : Char) (s : String)
    → eqb (code c) b'/' ≡ false
    → ends_with_slash s ≡ false
    → ends_with_slash (Text.◌∷◌ c s) ≡ false
last_letter c s letter last = ground arith

-- The endpoint loses exactly its slashes at the end.
trim_right_slash-trims :
    (s : String)
    → (ends_with_slash (trim_right_slash s) ≡ false)
      × (cut : String) × (s ≡ Text.◌++◌ (trim_right_slash s) cut)
      × (all_slashes cut ≡ true)
unfolding trim_right_slash
trim_right_slash-trims Text.[] = (refl, "", refl, refl)
trim_right_slash-trims (Text.◌∷◌ c s) =
    let (last, cut, split, only) = trim_right_slash-trims s in
    elim (Bool-cases (eqb (code c) b'/')) [
      | inl slash ↦ elim (Bool-cases (trim_right_slash s == "")) [
        | inl gone ↦
            let none_left = (eq_iff (trim_right_slash s) "").0 gone in
            let bare = split ∙ ap (λ t. Text.◌++◌ t cut) none_left ∙ nil-append cut in
            rw (slash, gone)
              (
                refl,
                Text.◌∷◌ c cut,
                ap (λ t. Text.◌∷◌ c t) bare ∙ sym (nil-append (Text.◌∷◌ c cut)),
                rw slash only,
              )
        | inr kept ↦
            rw (slash, kept)
              (
                rw kept last,
                cut,
                ap (λ t. Text.◌∷◌ c t) split ∙ sym (cons-append c (trim_right_slash s) cut),
                only,
              )
      ]
      | inr letter ↦ rw letter (
        last_letter c (trim_right_slash s) letter last,
        cut,
        ap (λ t. Text.◌∷◌ c t) split ∙ sym (cons-append c (trim_right_slash s) cut),
        only,
      )
    ]

-- The required fields are set and the key has the prefix of an agent key.
pub record IsValid (cfg : Config) : Type 0 where
  pub cluster_named : cfg.cluster_name ≢ ""
  pub endpoint_given : cfg.api_endpoint ≢ ""
  pub key_given : cfg.api_key ≢ ""
  pub provider_given : cfg.provider ≢ ""
  pub agent_key : starts_with cfg.api_key "agt_" ≡ true

check-ok_iff : (cfg out : Config) → (check cfg ≡ ok out) ↔ ((out ≡ cfg) × IsValid cfg)
unfolding check
check-ok_iff cfg out = (
  (λ e. (
    ground (arith, e),
    record {
      cluster_named = ground (arith, e, eq_iff cfg.cluster_name "");
      endpoint_given = ground (arith, e, eq_iff cfg.api_endpoint "");
      key_given = ground (arith, e, eq_iff cfg.api_key "");
      provider_given = ground (arith, e, eq_iff cfg.provider "");
      agent_key = ground (arith, e);
    },
  )),
  (λ h. ground (
    arith,
    h.0,
    h.1.cluster_named,
    h.1.endpoint_given,
    h.1.key_given,
    h.1.provider_given,
    h.1.agent_key,
    eq_iff cfg.cluster_name "",
    eq_iff cfg.api_endpoint "",
    eq_iff cfg.api_key "",
    eq_iff cfg.provider "",
  )),
)

-- `Load` succeeds exactly when the file, if one is named, was read, and what was read has the
-- required fields and an agent key; it then returns what was read.
pub load-ok_iff :
    (v : Viper) (path : String) (cfg : Config)
    → (load v path ≡ ok cfg)
      ↔ ((path ≢ "" → v.read_error path ≡ none) × (cfg ≡ read v) × IsValid cfg)
unfolding load
load-ok_iff v path cfg = (
  (λ e. elim (Bool-cases (path == "")) [
    | inl empty ↦
        let checked = (check-ok_iff (read v) cfg).0 (rw (load, empty) at e) in
        (
          λ ne. absurd (ne ((eq_iff path "").0 empty)),
          checked.0,
          subst IsValid (sym checked.0) checked.1,
        )
    | inr given ↦ elim (Option-cases (v.read_error path)) [
      | inl fine ↦
          let checked = (check-ok_iff (read v) cfg).0 (rw (load, given, fine) at e) in
          (λ _. fine, checked.0, subst IsValid (sym checked.0) checked.1)
      | inr (x, failed) ↦ absurd (cc (rw (load, given, failed) at e))
    ]
  ]),
  (λ h.
      let checked = (check-ok_iff (read v) cfg).1 (h.1, subst IsValid h.1 h.2) in
      elim (Bool-cases (path == "")) [
        | inl empty ↦ rw (load, empty) checked
        | inr given ↦ rw (load, given, h.0 (λ e. cc (given, (eq_iff path "").1 e))) checked
      ]),
)

-- The endpoint of a loaded configuration is the configured one without its slashes at the end.
pub load-endpoint :
    (v : Viper) (path : String) (cfg : Config)
    → load v path ≡ ok cfg
    → (ends_with_slash cfg.api_endpoint ≡ false)
      × (cut : String) × (v.get_string "api_endpoint" "" ≡ Text.◌++◌ cfg.api_endpoint cut)
      × (all_slashes cut ≡ true)
unfolding read
load-endpoint v path cfg h =
    let (_, same, _) = (load-ok_iff v path cfg).0 h in
    rw same (trim_right_slash-trims (v.get_string "api_endpoint" ""))
