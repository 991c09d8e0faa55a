-- ===== src/Auth/Opa/Decision.antt =====
-- When the policy engine lets a request through, and what is written then.
use automated_actions.Prelude.{
  ℕ, String, ◌≡◌, ◌≢◌, refl, sym, true, false, some, List, [], arith, eqb, get_or, Bool-cases, inl,
  inr,
}
use automated_actions.Dict.{Dict}
use automated_actions.Text.Laws.{eqb→eq}
use automated_actions.Errors.{http}
use automated_actions.Exec.{ok, err, pure, Result-cases, ok-ne-err}
use automated_actions.Exec.Keeps.{IsAtomic, IsAtomic-of_ok, atomic_rules}
use automated_actions.Db.Schema.{User}
use automated_actions.Db.World.{Database, World}
use automated_actions.Db.Users
use automated_actions.Auth.Request.{Request}
use automated_actions.Auth.Opa.{
  Opa, OpaData, OpaReply, decision, opa_params, should_skip_endpoint, read_reply, check_decision,
  query_opa, enforce, authorize,
}

-- The engine's answer lets the request through.
pub record Allows (reply : OpaReply) (opa_data : OpaData) : Type 0 where
  pub status : reply.status_code ≡ 200
  pub body : reply.body ≡ decision opa_data
  pub authorized : opa_data.authorized ≡ some true
  pub within_rate_limits : opa_data.within_rate_limits ≡ some true

read_reply-ok :
    (show_code : ℕ → String) (reply : OpaReply) (d : OpaData)
    → read_reply show_code reply ≡ ok d
    → (reply.status_code ≡ 200) × (reply.body ≡ decision d)
unfolding read_reply
read_reply-ok show_code reply d h = (ground arith, ground arith)

check_decision-ok :
    (d : OpaData) (u : Unit {0})
    → check_decision d ≡ ok u
    → (d.authorized ≡ some true) × (d.within_rate_limits ≡ some true)
unfolding check_decision
check_decision-ok d u h = (ground arith, ground arith)

set_allowed_actions-IsAtomic :
    (D : Database) (u : User) (allowed : List String)
    → IsAtomic (Users.set_allowed_actions D u allowed)
unfolding Users.set_allowed_actions
set_allowed_actions-IsAtomic D u allowed = record {
  at = λ w e h. elim (Bool-cases (Users.same_set allowed u.allowed_actions)) [
    | inl same ↦ rw same
    | inr changed ↦ absurd (ok-ne-err (rw changed at h))
  ];
}

module _ (D : Database) (opa : Opa D) (request : Request) (user : User)
    (extra_params : Dict String) where
  -- The engine's answer to the request in a state.
  abbrev pub answer : World D → OpaReply
  answer w = opa.post w (record {
    user = Users.dump user;
    obj = request.route.operation_id;
    params = opa_params request extra_params;
  })

  query_opa-ok :
      (w : World D) (d : OpaData)
      → query_opa D opa user request.route.operation_id (opa_params request extra_params) w ≡ ok d
      → ((answer w).status_code ≡ 200) × ((answer w).body ≡ decision d)
  unfolding query_opa
  query_opa-ok w d h = read_reply-ok opa.show_code (answer w) d h

  query_opa-decision :
      (w : World D) (d : OpaData)
      → (answer w).status_code ≡ 200
      → (answer w).body ≡ decision d
      → query_opa D opa user request.route.operation_id (opa_params request extra_params) w ≡ ok d
  unfolding query_opa
  query_opa-decision w d status body = rw status (rw body)

  query_opa-unavailable :
      (w : World D)
      → (answer w).status_code ≢ 200
      → query_opa D opa user request.route.operation_id (opa_params request extra_params) w
        ≡ err (http 500 (opa.show_code (answer w).status_code) [])
  unfolding query_opa
  query_opa-unavailable w status = elim (Bool-cases (eqb (answer w).status_code 200)) [
    | inl e ↦ absurd (status (eqb→eq _ _ e))
    | inr e ↦ rw e
  ]

  enforce-ok :
      (w : World D) (v : User)
      → (enforce D opa request user extra_params w).0 ≡ ok v
      → (d : OpaData) × Allows (answer w) d
        × (enforce D opa request user extra_params w
            ≡ Users.set_allowed_actions D user (get_or d.objects []) w)
  unfolding enforce
  enforce-ok w v h =
      elim (Result-cases
        (query_opa D opa user request.route.operation_id (opa_params request extra_params) w)) [
          | inr (e, bad) ↦ absurd (ok-ne-err (rw bad at (sym h)))
          | inl (d, good) ↦ elim (Result-cases (check_decision d)) [
            | inr (e, bad) ↦ absurd (ok-ne-err (sym (rw bad at (rw good at h))))
            | inl (u, passed) ↦
                let (status, body) = query_opa-ok w d good in
                let (authorized, within) = check_decision-ok d u passed in
                (
                  d,
                  record {
                    status = status;
                    body = body;
                    authorized = authorized;
                    within_rate_limits = within;
                  },
                  rw good (rw passed),
                )
          ]
        ]

  enforce-IsAtomic : IsAtomic (enforce D opa request user extra_params)
  unfolding enforce
  enforce-IsAtomic = search (atomic_rules, set_allowed_actions-IsAtomic)

  -- A request to an endpoint that is not skipped gets through only if the engine answers 200 with
  -- a decision that it is authorized and within its rate limits; all that it writes then is the
  -- list of the user's allowed actions, with the time of that update.
  pub authorize-ok :
      (w : World D) (v : User)
      → should_skip_endpoint opa.skip_endpoints request.path ≡ false
      → (authorize D opa request user extra_params w).0 ≡ ok v
      → (d : OpaData) × Allows (answer w) d
        × (authorize D opa request user extra_params w
            ≡ Users.set_allowed_actions D user (get_or d.objects []) w)
  unfolding authorize
  authorize-ok w v enforced h =
      let (d, allows, run) = enforce-ok w v (rw enforced at h) in (d, allows, rw enforced run)

  -- For an endpoint that is not skipped, an engine that does not answer 200 is an error 500 for every user, and lets nobody through.
  pub authorize_unavailable :
      (w : World D)
      → should_skip_endpoint opa.skip_endpoints request.path ≡ false
      → (answer w).status_code ≢ 200
      → authorize D opa request user extra_params w
        ≡ (err (http 500 (opa.show_code (answer w).status_code) []), w)
  unfolding authorize enforce
  authorize_unavailable w enforced status = rw enforced (rw (query_opa-unavailable w status))

  -- A request that does not get through writes nothing.
  pub authorize-IsAtomic : IsAtomic (authorize D opa request user extra_params)
  unfolding authorize
  authorize-IsAtomic = elim (Bool-cases (should_skip_endpoint opa.skip_endpoints request.path)) [
    | inl skipped ↦ rw skipped (IsAtomic-of_ok (pure user) (λ _. user) (λ _. refl))
    | inr enforced ↦ rw enforced enforce-IsAtomic
  ]
