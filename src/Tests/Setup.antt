-- ===== src/Tests/Setup.antt =====
-- A server with tables in memory, tokens in plain text and a policy engine that lets all through.
use Prim.Native.Char.{IsScalar}
use mathlib.Core.HLevel.{prop→set}
use text.Mathlib.TextEquality.{IsScalar-prop}
use automated_actions.Prelude.{
  ℕ, ◌≡◌, refl, ap, ◌≤◌, ◌<◌, String, Bool, true, false, none, some, [], ◌∷◌, ltb, eqb, Bool-cases,
  inl, inr, eq_iff, if◌then◌else◌, ◌==◌, arith,
}
use automated_actions.Errors.{Exc}
use automated_actions.Exec.{ok}
use automated_actions.Db.Schema.{Action, action_key, pending, User, user_key}
use automated_actions.Db.World.{Database, World}
use automated_actions.Db.Memory.{memory}
use automated_actions.Auth.Request.{Request}
use automated_actions.Auth.Oidc.{AccessToken, StateData, OidcLibs, IsSigner, Oidc}
use automated_actions.Auth.Bearer.{Jwt, IsJwt}
use automated_actions.Auth.Opa.{Opa, decision}
use automated_actions.Api.{Server}
use automated_actions.Worker.Task.{Outcome, done, failed, again}
use automated_actions.Worker.Delivery.{Celery, Hook, success_hook, retry_hook, failure_hook}
use automated_actions.Tests.Codes.{
  pack, unpack, unpack-pack, unary, count, count-unary, optional, read_optional,
  read_optional-optional,
}

abbrev pub an_action : Action
an_action = record {
  action_id = "a-7";
  name = "no-op";
  owner = "alice";
  status = pending;
  result = none;
  task_args = none;
  created_at = 5000000;
  updated_at = 5000000;
}

abbrev pub alice : User
alice = record {
  email = "alice@example.com";
  name = "Alice";
  username = "alice";
  allowed_actions = [];
  created_at = 1000000;
  updated_at = 1000000;
}

IsScalar-IsSet : (n : ℕ) → IsSet (IsScalar n)
IsScalar-IsSet n = prop→set (IsScalar-prop n)

pub Action-IsSet : IsSet Action
Action-IsSet = hlevel (IsScalar-IsSet)

pub User-IsSet : IsSet User
User-IsSet = hlevel (IsScalar-IsSet)

abbrev pub database : Database
database = record {
  action_table = memory action_key Action-IsSet an_action;
  user_table = memory user_key User-IsSet alice;
  uuid4 = λ n. if eqb n 0 then "a-0" else "a-1";
}

abbrev pub world : World database
world = record {
  actions = an_action ∷ [];
  users = alice ∷ [];
  queue = [];
  clock = 9000000;
  drawn = 0;
}

abbrev pub sign_state : StateData → String
sign_state d = pack (optional d.nonce) (optional d.next_url)

abbrev pub load_state : String → StateData
load_state s = record { nonce = read_optional (unpack s).0; next_url = read_optional (unpack s).1 }

load_state-sign_state : (d : StateData) → load_state (sign_state d) ≡ d
load_state-sign_state d =
    rw (unpack-pack (optional d.nonce) (optional d.next_url))
      (rw (read_optional-optional d.nonce, read_optional-optional d.next_url) refl)

abbrev pub libs : OidcLibs
libs = record {
  urlsplit = λ url. if url == "http://evil" then ("http", "evil") else ("", "");
  quote = λ s. s;
  quote_all = λ s. s;
  sign_state = λ t d. sign_state d;
  load_state = λ now age s. some (load_state s);
  sign_session = λ t token. pack token "";
  load_session = λ now age s. some (unpack s).0;
  post_token = λ request. record { status_code = 200; access_token = ok "token" };
  is_success = λ n. eqb n 200;
  get_userinfo = λ token. ok tt;
  decode_unverified = λ token. ok (record {
    name = "Alice";
    preferred_username = "alice";
    email = "alice@example.com";
    iss = "sso";
    exp = 100;
    iat = 1;
  });
}

is_empty : String → Bool
is_empty String.[] = true
is_empty (String.◌∷◌ c s) = false

pack-is_empty : (a b : String) → is_empty (pack a b) ≡ false
unfolding is_empty
pack-is_empty String.[] b = refl
pack-is_empty (String.◌∷◌ c a) b = refl

clash : {x : Bool} → x ≡ true → x ≡ false → ⊥
clash h e = cc

pack-nonempty : (a b : String) → (pack a b == "") ≡ false
unfolding is_empty
pack-nonempty a b = elim (Bool-cases (pack a b == "")) [
  | inl e ↦ absurd (clash (ap is_empty ((eq_iff _ _).0 e)) (pack-is_empty a b))
  | inr e ↦ e
]

pub libs-IsSigner : IsSigner libs
libs-IsSigner = record {
  load_state-sign_state = λ t now age d h k. ap some (load_state-sign_state d);
  load_session-sign_session = λ t now age token h k. ap (λ p. some p.0) (unpack-pack token "");
  sign_state-nonempty = λ t d. pack-nonempty (optional d.nonce) (optional d.next_url);
  sign_session-nonempty = λ t token. pack-nonempty token "";
}

abbrev pub oidc : Oidc
oidc = record {
  client_id = "client";
  client_secret = "secret";
  scope = "openid";
  enforce_https = true;
  session_timeout_secs = 3600;
  authorization_endpoint = "https://sso/auth";
}

abbrev pub encode : AccessToken → String
encode t =
    pack t.name
      (pack t.preferred_username (pack t.email (pack t.iss (pack (unary t.exp) (unary t.iat)))))

abbrev pub decode : String → AccessToken
decode s0 =
    let s1 = (unpack s0).1 in
    let s2 = (unpack s1).1 in
    let s3 = (unpack s2).1 in
    let s4 = (unpack s3).1 in
    record {
      name = (unpack s0).0;
      preferred_username = (unpack s1).0;
      email = (unpack s2).0;
      iss = (unpack s3).0;
      exp = count (unpack s4).0;
      iat = count (unpack s4).1;
    }

decode-encode : (t : AccessToken) → decode (encode t) ≡ t
decode-encode t = rw (unpack-pack t.name _) (
    rw (unpack-pack t.preferred_username _) (
      rw (unpack-pack t.email _) (
        rw (unpack-pack t.iss _) (
          rw (unpack-pack (unary t.exp) (unary t.iat))
            (rw (count-unary t.exp, count-unary t.iat) refl)))))

abbrev pub jwt : Jwt
jwt = record {
  encode = λ token secret. encode token;
  decode = λ now issuer secret s. ok (decode s);
}

pub jwt-IsJwt : IsJwt jwt
jwt-IsJwt = record {
  decode-encode = λ now issuer secret token same issued live. ap ok (decode-encode token);
}

-- The engine that answers with a status code and, for 200, that all is allowed.
abbrev pub engine : ℕ → Opa database
engine status_code = record {
  skip_endpoints = (λ path. path == "/docs") ∷ [];
  post = λ w request. record {
    status_code = status_code;
    body = decision (record {
      authorized = some true;
      within_rate_limits = some true;
      objects = some ("no-op" ∷ []);
    });
  };
  show_code = λ n. "unexpected status";
}

abbrev pub server : Server database
server = record {
  jwt = jwt;
  issuer = "issuer";
  secret = "secret";
  libs = libs;
  oidc = oidc;
  opa = engine 200;
}

abbrev pub next_hook : ℕ → ℕ → Outcome → Hook
next_hook max retries done = success_hook
next_hook max retries (failed e) = failure_hook e
next_hook max retries (again e) = if ltb retries max then retry_hook else failure_hook e

pub next_hook-again :
    (max retries : ℕ) (e : Exc) → retries < max → next_hook max retries (again e) ≡ retry_hook
next_hook-again max retries e h = ground arith

pub next_hook-spent :
    (max retries : ℕ) (e : Exc) → max ≤ retries → next_hook max retries (again e) ≡ failure_hook e
next_hook-spent max retries e h = ground arith

abbrev pub celery : Celery
celery = record {
  hook = next_hook;
  hook-done = λ max retries. refl;
  hook-failed = λ max retries e. refl;
  hook-again = next_hook-again;
  hook-spent = next_hook-spent;
}

-- Alice's request for a no-op, with a session.
abbrev pub request : Request
request = record {
  path = "/api/v1/no-op";
  query = "";
  cookies = ("session", pack "token" "") ∷ ("oidc_state", "s") ∷ [];
  authorization = none;
  path_params = [];
  query_params = [];
  route = record { operation_id = "no-op"; query_fields = [] };
  login_url = "https://aa/login";
  callback_url = "https://aa/callback";
}
