-- ===== src/Auth/NextUrl.antt =====
-- `_is_safe_next_url` of auth.py. `urlsplit`, which gives the scheme and the host of a URL, is the
-- standard library's, a parameter.
use text.Mathlib.Text.{starts_with}
use text.Mathlib.TextEquality.{starts_with_iff}
use text.Mathlib.TextBridge.{IsPrefix}
use automated_actions.Prelude.{
  String, ◌≡◌, Bool, true, false, not, ◌&&◌, ◌||◌, arith, ◌==◌, eq_iff, if◌then◌else◌, Bool-cases,
  inl, inr,
}
use automated_actions.Text.{has_char}

unfoldable pub is_safe_next_url : (String → String × String) → String → Bool
is_safe_next_url urlsplit next_url =
    if not (starts_with next_url "/") || starts_with next_url "//"
    then false
    else if has_char b'\\' next_url
    then false
    else let (scheme, netloc) = urlsplit next_url in (scheme == "") && (netloc == "")

-- A path on the own server: it begins with one slash, has no backslash, and names neither a
-- scheme nor a host.
pub record IsLocalPath (urlsplit : String → String × String) (url : String) : Type 0 where
  pub rooted : IsPrefix "/" url
  pub not_double : ¬ IsPrefix "//" url
  pub no_backslash : has_char b'\\' url ≡ false
  pub no_scheme : (urlsplit url).0 ≡ ""
  pub no_host : (urlsplit url).1 ≡ ""

module _ (urlsplit : String → String × String) (url : String) where
  pub is_safe_next_url-IsLocalPath : is_safe_next_url urlsplit url ≡ true → IsLocalPath urlsplit url
  unfolding is_safe_next_url
  is_safe_next_url-IsLocalPath h = record {
    rooted = (starts_with_iff url "/").0 (ground arith);
    not_double = λ p. let double = (starts_with_iff url "//").1 p in ground arith;
    no_backslash = ground arith;
    no_scheme = (eq_iff _ _).0 (ground arith);
    no_host = (eq_iff _ _).0 (ground arith);
  }

  pub IsLocalPath-is_safe_next_url : IsLocalPath urlsplit url → is_safe_next_url urlsplit url ≡ true
  unfolding is_safe_next_url
  IsLocalPath-is_safe_next_url p =
      let one : starts_with url "/" ≡ true = (starts_with_iff url "/").1 p.rooted in
      let two : starts_with url "//" ≡ false = elim (Bool-cases (starts_with url "//")) [
        | inl e ↦ absurd (p.not_double ((starts_with_iff url "//").0 e))
        | inr e ↦ e
      ] in
      let scheme = (eq_iff _ _).1 p.no_scheme in
      let host = (eq_iff _ _).1 p.no_host in ground (arith, p.no_backslash)
