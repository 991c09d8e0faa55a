-- ===== src/Tests/Routes.antt =====
-- The functions of the client at a concrete library and server, which split and join paths.
use automated_actions.Prelude.{
  String, ◌≡◌, refl, inl, inr, some, [], ◌==◌, if◌then◌else◌, Bool-cases,
}
use automated_actions.Dict.{Dict}
use automated_actions.Text.{split, join, has_char}
use automated_actions.Api.Matching.Sending.{split-filled}
use automated_actions.Exec.{ok}
use automated_actions.Api.{path_param}
use automated_actions.Api.Signature.{post}
use automated_actions.Api.Routes.{ApiRoute, api_routes}
use automated_actions.Api.Matching.{
  all_unreserved, segments, fill, first_match, Http, IsPiece, IsHttp,
}
use automated_actions.Api.Matching.Laws.{selected}
use automated_actions.Client.{declaration, action, openshift_workload_delete}
use automated_actions.Client.Routing.{IsTyped, function-IsTyped, function-IsRouted}
use automated_actions.Tests.Setup.{request}

abbrev http : Http
http = record {
  sent_path = λ template values. join "/" (fill values (segments template));
  route_for = λ routes method path. first_match method (split 47 path) routes;
}

function-IsTyped_example :
    (r : ApiRoute) × (selected post
        "/api/v1/openshift/workload-delete/{cluster}/{namespace}/{kind}/{name}"
        (api_routes [])
      ≡ some r)
    × IsTyped (action openshift_workload_delete) r
unfolding declaration
function-IsTyped_example = function-IsTyped (action openshift_workload_delete) []

http-IsHttp : IsHttp http
http-IsHttp = record {
  sent = λ template values p. split-filled values template p;
  routed = λ routes method path. refl;
}

abbrev values : String → String
values k = if k == "kind" then "Job" else "shop"

values-IsPiece : (k : String) → IsPiece (values k)
unfolding has_char all_unreserved
values-IsPiece k = elim (Bool-cases (k == "kind")) [
  | inl e ↦
      rw e (record {
        nonempty = refl;
        whole = refl;
        unreserved = refl;
        not_dot = refl;
        not_dots = refl;
      })
  | inr e ↦
      rw e (record {
        nonempty = refl;
        whole = refl;
        unreserved = refl;
        not_dot = refl;
        not_dots = refl;
      })
]

function-IsRouted_example :
    (r : ApiRoute) × (params : Dict String) × (http.route_for (api_routes []) post (
        http.sent_path "/api/v1/openshift/workload-delete/{cluster}/{namespace}/{kind}/{name}"
          values)
      ≡ some (r, params))
    × (r.operation_id ≡ join "-" (split 95 "openshift_workload_delete"))
    × (path_param "kind" (record request { path_params = params }) ≡ ok "Job")
unfolding declaration segments
function-IsRouted_example =
    function-IsRouted http http-IsHttp (action openshift_workload_delete) [] values request "kind"
      (λ k among. values-IsPiece k) refl
