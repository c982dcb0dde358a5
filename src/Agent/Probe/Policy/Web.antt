-- ===== src/Agent/Probe/Policy/Web.antt =====
-- What validateURL of agent/probe/policy.go accepts.
use text.Mathlib.Text.{◌==◌ as str_eq}
use text.Mathlib.TextEquality.{eq_iff}
use xisnove.Prelude.{
  ◌≡◌, ◌≢◌, refl, sym, ap, ◌∙◌, String, Bool, true, false, not, ◌&&◌, ◌||◌, if◌then◌else◌, ◌⊎◌, inl,
  inr, arith,
}
use xisnove.Prelude.Text.{is_empty}
use xisnove.Agent.Probe.Policy.{NetworkError, ok, failed, Url, validate_url}

-- A URL over HTTP, or over HTTP and TLS, that names a host.
pub record IsWebUrl (target : Url) : Type 0 where
  pub scheme : (target.scheme ≡ "http") ⊎ (target.scheme ≡ "https")
  pub host : target.hostname ≢ ""

scheme_and_host :
    (e : NetworkError) (http https hostless : Bool)
    → (if not http && not https || hostless then failed e else ok tt) ≡ ok (tt {0})
    → ((http ≡ true) ⊎ (https ≡ true)) × (hostless ≡ false)
scheme_and_host e true https false h = (inl refl, refl)
scheme_and_host e false true false h = (inr refl, refl)
scheme_and_host e false false hostless h = absurd (ground (arith, h))
scheme_and_host e true https true h = absurd (ground (arith, h))
scheme_and_host e false true true h = absurd (ground (arith, h))

accepted :
    (target : Url)
    → validate_url target ≡ ok tt
    → ((str_eq target.scheme "http" ≡ true) ⊎ (str_eq target.scheme "https" ≡ true))
      × (is_empty target.hostname ≡ false)
unfolding validate_url
accepted target h =
    scheme_and_host _ (str_eq target.scheme "http") (str_eq target.scheme "https")
      (is_empty target.hostname) h

is_empty-no : (s : String) → is_empty s ≡ false → s ≢ ""
is_empty-no s h e = ground (arith, sym h ∙ ap is_empty e)

pub validate_url-IsWebUrl : (target : Url) → validate_url target ≡ ok tt → IsWebUrl target
validate_url-IsWebUrl target h =
    let (scheme, host) = accepted target h in
    record {
      scheme = elim scheme [
        | inl e ↦ inl ((eq_iff target.scheme "http").0 e)
        | inr e ↦ inr ((eq_iff target.scheme "https").0 e)
      ];
      host = is_empty-no target.hostname host;
    }
