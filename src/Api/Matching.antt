-- ===== src/Api/Matching.antt =====
-- How a path is made from the template of a route and matched with it, and which route takes a
-- request: what the documentations of FastAPI and of the client's library say of templates.
pub mod Laws
pub mod Sending
use Prim.Native.String
use text.Mathlib.Text.{starts_with}
use Prim.Native.Char.{code}
use automated_actions.Prelude.{
  ℕ, eqb, leb, String, ◌≡◌, refl, sym, ap, ◌∙◌, inl, inr, Bool, true, false, not, ◌&&◌, ◌||◌,
  Option, none, some, List, [], ◌∷◌, ◌==◌, map, if◌then◌else◌, Bool-cases, eq_iff, eq_refl, arith,
}
use automated_actions.Dict.{Dict, lookup}
use automated_actions.Text.{rstrip, split, has_char}
use automated_actions.Api.Signature.{Method, same_method}
use automated_actions.Api.Routes.{ApiRoute}

pub data Segment : Type 0 where
  literal param : String → Segment

-- "{name}" is a parameter.
segment : String → Segment
unfolding rstrip
segment String.[] = literal ""
segment (String.◌∷◌ c s) =
    if starts_with (String.◌∷◌ c s) "{" then param (rstrip 125 s) else literal (String.◌∷◌ c s)

unfoldable pub segments : String → List Segment
unfolding segment split
segments template = map segment (split 47 template)

-- The parameters of a template.
abbrev pub has_param : String → List Segment → Bool
has_param k [] = false
has_param k (literal s ∷ more) = has_param k more
has_param k (param name ∷ more) = name == k || has_param k more

-- The pieces of the path, with the values in place of the parameters.
unfoldable pub fill : (String → String) → List Segment → List String
fill values [] = []
fill values (literal s ∷ more) = s ∷ fill values more
fill values (param name ∷ more) = values name ∷ fill values more

unfoldable pub params_of : (String → String) → List Segment → Dict String
params_of values [] = []
params_of values (literal s ∷ more) = params_of values more
params_of values (param name ∷ more) = (name, values name) ∷ params_of values more

abbrev with_param : String → String → Option (Dict String) → Option (Dict String)
with_param name piece none = none
with_param name piece (some params) = some ((name, piece) ∷ params)

-- A parameter takes one piece that is not empty.
unfoldable pub match_segments : List Segment → List String → Option (Dict String)
match_segments [] [] = some []
match_segments [] (piece ∷ pieces) = none
match_segments (segment ∷ more) [] = none
match_segments (literal s ∷ more) (piece ∷ pieces) =
    let rest = match_segments more pieces in if s == piece then rest else none
match_segments (param name ∷ more) (piece ∷ pieces) =
    let rest = with_param name piece (match_segments more pieces) in
    if piece == "" then none else rest

abbrev or_next :
    ApiRoute
    → Option (Dict String)
    → Option (ApiRoute × Dict String)
    → Option (ApiRoute × Dict String)
or_next route none next = next
or_next route (some params) next = some (route, params)

-- The first route with the method and a template that matches.
unfoldable pub first_match : Method → List String → List ApiRoute → Option (ApiRoute × Dict String)
unfolding match_segments segments
first_match method pieces [] = none
first_match method pieces (r ∷ routes) =
    let rest = first_match method pieces routes in
    if same_method r.method method
    then or_next r (match_segments (segments r.path) pieces) rest
    else rest

-- The library of the client, which sends a path for a template and values, and the server, which
-- chooses a route for a method and a path.
pub record Http : Type 0 where
  pub sent_path : String → (String → String) → String
  pub route_for : List ApiRoute → Method → String → Option (ApiRoute × Dict String)

-- The characters that RFC 3986 leaves unreserved, which stand for themselves in a path: letters,
-- digits, and "-", ".", "_" and "~".
is_within : ℕ → ℕ → ℕ → Bool
is_within first last c = leb first c && leb c last

is_unreserved : ℕ → Bool
unfolding is_within
is_unreserved c =
    is_within b'a' b'z' c
    || (is_within b'A' b'Z' c
        || (is_within b'0' b'9' c || (eqb c b'-' || (eqb c b'.' || (eqb c b'_' || eqb c b'~')))))

unfoldable pub all_unreserved : String → Bool
unfolding is_unreserved
all_unreserved String.[] = true
all_unreserved (String.◌∷◌ c s) = let rest = all_unreserved s in is_unreserved (code c) && rest

-- A value that stands for itself in one piece of a path: none of its characters is reserved, and it
-- is not empty, nor one of "." and "..", which are taken out of a path.
pub record IsPiece (s : String) : Type 0 where
  pub nonempty : (s == "") ≡ false
  pub whole : has_char 47 s ≡ false
  pub unreserved : all_unreserved s ≡ true
  pub not_dot : (s == ".") ≡ false
  pub not_dots : (s == "..") ≡ false

pub record IsHttp (http : Http) : Type 0 where
  pub sent :
      (template : String) (values : String → String)
      → ((k : String) → has_param k (segments template) ≡ true → IsPiece (values k))
      → split 47 (http.sent_path template values) ≡ fill values (segments template)
  pub routed :
      (routes : List ApiRoute) (method : Method) (path : String)
      → http.route_for routes method path ≡ first_match method (split 47 path) routes
