-- ===== src/Auth/Bearer/Laws.antt =====
-- Who a request with an Authorization header is.
use text.Mathlib.Text.{starts_with}
use text.Mathlib.TextEquality.{starts_with_iff}
use text.Mathlib.TextLemmas.{nil-append, cons-append, append-eq-nil_iff, cons≢nil}
use text.Mathlib.TextPositions.{starts_with-append}
use automated_actions.Prelude.{
  ℕ, String, ◌/◌, ◌≤◌, ◌<◌, ◌≡◌, refl, ap, sym, ◌∙◌, ◌⊎◌, inl, inr, false, none, some, ◌∷◌, ◌==◌,
  Bool-cases, fun_ext, eq_iff,
}
use automated_actions.Text.{◌+++◌, has_char, split}
use automated_actions.Text.Laws.{split_whole, split-cons}
use automated_actions.Errors.{Exc}
use automated_actions.Exec.{Result, ok, err, Result-cases}
use automated_actions.Exec.Keeps.{IsAtomic, atomic_rules}
use automated_actions.Db.Schema.{User}
use automated_actions.Db.World.{Database, World}
use automated_actions.Db.Actions.{second}
use automated_actions.Db.Users
use automated_actions.Db.Users.Laws.{load-Writes, load-IsAtomic}
use automated_actions.Auth.Request.{Request, truthy}
use automated_actions.Auth.Oidc.{AccessToken, OidcLibs, Oidc}
use automated_actions.Auth.Oidc
use automated_actions.Auth.Bearer.{
  Jwt, IsJwt, unauthorized, second_piece, get_user_info, with_token, with_header, authenticate,
  create_token, get_user,
}

split_bearer : (t : String) → split b' ' ("Bearer " +++ t) ≡ "Bearer" ∷ split b' ' t
unfolding split
split_bearer t = rw (
  cons-append "B" "earer " t,
  cons-append "e" "arer " t,
  cons-append "a" "rer " t,
  cons-append "r" "er " t,
  cons-append "e" "r " t,
  cons-append "r" " " t,
  cons-append " " "" t,
  nil-append t,
)

bearer_full : (t : String) → (("Bearer " +++ t) == "") ≡ false
bearer_full t = elim (Bool-cases (("Bearer " +++ t) == "")) [
  | inl e ↦ absurd (cons≢nil ((append-eq-nil_iff.0 ((eq_iff _ _).0 e)).0))
  | inr e ↦ e
]

module _ (jwt : Jwt) (issuer secret : String) (D : Database) where
  -- The errors of a request with an Authorization header are the two 401s.
  abbrev pub IsUnauthorized : Exc → Type 0
  IsUnauthorized e =
      (e ≡ unauthorized "Invalid authorization header.")
      ⊎ (e ≡ unauthorized "Invalid or expired token.")

  get_user_info-IsAtomic : (token : String) → IsAtomic (get_user_info jwt issuer secret D token)
  unfolding get_user_info
  get_user_info-IsAtomic token = search (atomic_rules, load-IsAtomic D)

  with_token_cases :
      (token : String) (w : World D)
      → ((u : User) × (with_token jwt issuer secret D token w
            ≡ (ok (some u), (get_user_info jwt issuer secret D token w).1))
          × ((get_user_info jwt issuer secret D token w).0 ≡ ok u))
        ⊎ (with_token jwt issuer secret D token w
            ≡ (err (unauthorized "Invalid or expired token."), w))
  unfolding with_token
  with_token_cases token w = elim (Result-cases (get_user_info jwt issuer secret D token w).0) [
    | inl (u, e) ↦ inl (u, rw e, e)
    | inr (x, e) ↦
        let clean = (get_user_info-IsAtomic token).at w x e in
        inr (rw e (ap (λ v. (err (unauthorized "Invalid or expired token."), v)) clean))
  ]

  -- A token is read from what begins with "Bearer "; with anything else nothing is read.
  with_header_bearer :
      (t : String)
      → (piece : String) × (with_header jwt issuer secret D (some ("Bearer " +++ t))
          ≡ with_token jwt issuer secret D piece)
  unfolding with_header second_piece
  with_header_bearer t =
      let (piece, pieces, e) = split-cons b' ' t in
      (piece, rw (starts_with-append "Bearer " t) (rw split_bearer (rw e (fun_ext λ w. refl))))

  with_header_one :
      (t : String)
      → has_char b' ' t ≡ false
      → with_header jwt issuer secret D (some ("Bearer " +++ t)) ≡ with_token jwt issuer secret D t
  unfolding with_header second_piece
  with_header_one t one =
      rw (starts_with-append "Bearer " t)
        (rw split_bearer (rw (split_whole b' ' t one) (fun_ext λ w. refl)))

  -- What a run with an Authorization header comes to: a user, or one of the 401s with nothing
  -- written.
  abbrev pub Answers : {A : Type 0} → (User → A) → World D → Result Exc A × World D → Type 0
  Answers f w run =
      ((u : User) × (w' : World D) × (run ≡ (ok (f u), w')))
      ⊎ ((e : Exc) × IsUnauthorized e × (run ≡ (err e, w)))

  with_header-Answers :
      (a : String) (w : World D) → Answers some w (with_header jwt issuer secret D (some a) w)
  unfolding with_header
  with_header-Answers a w = elim (Bool-cases (starts_with a "Bearer ")) [
    | inr other ↦ inr (unauthorized "Invalid authorization header.", inl refl, rw other)
    | inl bearer ↦
        let (t, e) = (starts_with_iff a "Bearer ").0 bearer in
        let (piece, run) = with_header_bearer t in
        let here : with_header jwt issuer secret D (some a) w
            ≡ with_token jwt issuer secret D piece w =
          ap (λ s. with_header jwt issuer secret D (some s) w) (sym e) ∙ ap (λ m. m w) run in
        elim (with_token_cases piece w) [
          | inl (u, done, found) ↦
              inl (u, (get_user_info jwt issuer secret D piece w).1, here ∙ done)
          | inr failed ↦ inr (unauthorized "Invalid or expired token.", inr refl, here ∙ failed)
        ]
  ]

  -- With an Authorization header that is not empty the session cookie and the OpenID provider play
  -- no part: the answer is the user that the bearer check finds or one of its two 401s, never the
  -- redirect to the login, and a 401 writes nothing.
  pub get_user-Answers :
      (L : OidcLibs) (oidc : Oidc) (request : Request) (header : String) (w : World D)
      → request.authorization ≡ some header
      → (header == "") ≡ false
      → ((u : User) × (w' : World D) × (authenticate jwt issuer secret D request w
            ≡ (ok (some u), w'))
          × (get_user jwt issuer secret D L oidc request w ≡ (ok u, w')))
        ⊎ ((e : Exc) × IsUnauthorized e
            × (get_user jwt issuer secret D L oidc request w ≡ (err e, w)))
  unfolding get_user
  get_user-Answers L oidc request header w has full =
      let here : authenticate jwt issuer secret D request w
          ≡ with_header jwt issuer secret D (some header) w =
        unfold truthy in rw has (rw full) in
      elim (with_header-Answers header w) [
        | inl (u, w', run) ↦ inl (u, w', here ∙ run, rw here (rw run))
        | inr (e, kind, run) ↦ inr (e, kind, rw here (rw run))
      ]

  -- Without an Authorization header the user is the one of the session check.
  pub get_user_session :
      (L : OidcLibs) (oidc : Oidc) (request : Request) (w : World D)
      → request.authorization ≡ none
      → get_user jwt issuer secret D L oidc request w ≡ Oidc.authenticate L oidc D request w
  unfolding get_user
  get_user_session L oidc request w absent = rw absent

  -- A token that was made for a user and has not expired makes a request that user's, as it is in
  -- the table after it was loaded under the names of the token.
  pub get_user-create_token :
      (is_jwt : IsJwt jwt) (L : OidcLibs) (oidc : Oidc) (request : Request) (w : World D) (made : ℕ)
      (username name email : String) (expiration : ℕ)
      → let token : String = create_token jwt issuer secret D made username name email expiration in
        request.authorization ≡ some ("Bearer " +++ token)
        → has_char b' ' token ≡ false
        → made ≤ w.clock / second
        → w.clock / second < expiration
        → get_user jwt issuer secret D L oidc request w ≡ Users.load D username name email w
  unfolding get_user create_token
  get_user-create_token is_jwt L oidc request w made username name email expiration has one h k =
      let token = create_token jwt issuer secret D made username name email expiration in
      let run : authenticate jwt issuer secret D request w
          ≡ with_token jwt issuer secret D token w =
        unfold truthy in
        rw has (rw (bearer_full token) (ap (λ m. m w) (with_header_one token one))) in
      let claims : AccessToken = record {
        name = name;
        preferred_username = username;
        email = email;
        iss = issuer;
        exp = expiration;
        iat = made;
      } in
      let loads = (load-Writes D w username name email).returns in
      let decoded = is_jwt.decode-encode (w.clock / second) issuer secret claims refl h k in
      rw run (unfold with_token get_user_info in rw decoded (rw loads))
