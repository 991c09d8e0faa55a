-- ===== src/Utils/Cluster/Laws.antt =====
-- Which cluster is connected to, and with which token.
use automated_actions.Prelude.{
  String, ◌≡◌, ◌≢◌, sym, ap, ◌∙◌, Bool, true, false, inl, inr, Option, none, some, List, [], ◌∷◌,
  Bool-cases, ◌==◌, eq_iff,
}
use automated_actions.Dict.{Dict, lookup}
use automated_actions.Errors.{Exc}
use automated_actions.Exec.{Result, ok, and_then-ok, ok-injective, ok-ne-err}
use automated_actions.Auth.Request.{truthy}
use automated_actions.Utils.ExternalResource.{VaultSecret}
use automated_actions.Utils.Gql.{Transport, gql_client}
use automated_actions.Utils.Vault.{Hvac, client_of, read_secret, version_text}
use automated_actions.Utils.Vault.Laws.{IsStoredAt, read_secret-IsStored}
use automated_actions.Utils.Cluster.{
  Cluster, ConnectionSettings, ClusterConnectionData, first_cluster, required_secret,
  token_or_raise, get_cluster_connection_data,
}

first_cluster-ok :
    (name : String) (o : Option (List Cluster)) (c : Cluster)
    → first_cluster name o ≡ ok c
    → (rest : List Cluster) × (o ≡ some (c ∷ rest))
unfolding first_cluster
first_cluster-ok name none c h = absurd (ok-ne-err (sym h))
first_cluster-ok name (some []) c h = absurd (ok-ne-err (sym h))
first_cluster-ok name (some (d ∷ rest)) c h = (rest, ap (λ x. some (x ∷ rest)) (ok-injective h))

required_secret-ok :
    (name : String) (o : Option VaultSecret) (s : VaultSecret)
    → required_secret name o ≡ ok s
    → o ≡ some s
unfolding required_secret
required_secret-ok name none s h = absurd (ok-ne-err (sym h))
required_secret-ok name (some t) s h = ap some (ok-injective h)

token_or_raise-ok :
    (secret : VaultSecret) (o : Option String) (token : String)
    → token_or_raise secret o ≡ ok token
    → o ≡ some token
unfolding token_or_raise
token_or_raise-ok secret none token h = absurd (ok-ne-err (sym h))
token_or_raise-ok secret (some t) token h = ap some (ok-injective h)

clash : {x : Bool} → x ≡ true → x ≡ false → ⊥
clash h e = cc

-- A value that is taken for true is there, and is not empty.
pub truthy-some : (o : Option String) (s : String) → truthy o ≡ some s → (o ≡ some s) × (s ≢ "")
unfolding truthy
truthy-some none s h = cc
truthy-some (some t) s h = elim (Bool-cases (t == "")) [
  | inl e ↦ absurd (none-ne-some (rw e at h))
  | inr e ↦
      let same = some-injective (rw e at h) in
      (ap some same, λ empty. clash ((eq_iff t "").1 (same ∙ empty)) e)
]
  where
    none-ne-some : {a : String} → ◌≡◌ {A = Option String} none (some a) → ⊥
    none-ne-some k = cc

    some-injective : {a b : String} → ◌≡◌ {A = Option String} (some a) (some b) → a ≡ b
    some-injective k = cc

-- What is known of a connection: the URL is that of the first cluster of the answer to the query
-- for the name, and the token is what Vault stores in the field of that cluster's secret.
pub record IsConnection (clusters_query : Transport → String → Result Exc (Option (List Cluster)))
    (hvac : Hvac) (settings : ConnectionSettings) (name : String)
    (connection : ClusterConnectionData) : Type 0 where
  pub cluster : Cluster
  pub others : List Cluster
  pub secret : VaultSecret
  pub client : hvac.Client
  pub content : Dict String
  pub answered :
      clusters_query (gql_client settings.qontract_server_url settings.qontract_server_token) name
      ≡ ok (some (cluster ∷ others))
  pub url : connection.url ≡ cluster.server_url
  pub has_secret : cluster.automation_token ≡ some secret
  pub logged_in : client_of hvac settings.vault ≡ ok client
  pub stored : IsStoredAt hvac client secret.path (some (version_text secret.version)) content
  pub token : lookup secret.field content ≡ some connection.token
  pub nonempty : connection.token ≢ ""

module _ (clusters_query : Transport → String → Result Exc (Option (List Cluster))) (hvac : Hvac)
    (settings : ConnectionSettings) where
  -- A connection that is given has the URL of the first cluster that the query for the name found,
  -- and its token is not empty and is the one that Vault stores for that cluster, in the version
  -- that the cluster's secret names.
  pub get_cluster_connection_data-IsConnection :
      (name : String) (connection : ClusterConnectionData)
      → get_cluster_connection_data clusters_query hvac settings name ≡ ok connection
      → IsConnection clusters_query hvac settings name connection
  unfolding get_cluster_connection_data
  get_cluster_connection_data-IsConnection name connection h =
      let (clusters, asked, h1) =
        and_then-ok
          (clusters_query (gql_client settings.qontract_server_url settings.qontract_server_token)
            name)
          _ h in
      let (cluster, first, h2) = and_then-ok (first_cluster name clusters) _ h1 in
      let (client, logged_in, h3) = and_then-ok (client_of hvac settings.vault) _ h2 in
      let (secret, has_secret, h4) =
        and_then-ok (required_secret name cluster.automation_token) _ h3 in
      let (content, read, h5) =
        and_then-ok (read_secret hvac client secret.path (some (version_text secret.version))) _
          h4 in
      let (token, found, h6) =
        and_then-ok (token_or_raise secret (truthy (lookup secret.field content))) _ h5 in
      let (others, all) = first_cluster-ok name clusters cluster first in
      let (is_token, nonempty) = truthy-some _ token (token_or_raise-ok secret _ token found) in
      let made = ok-injective h6 in
      let same = ap (λ (c : ClusterConnectionData). c.token) made in
      record {
        cluster = cluster;
        others = others;
        secret = secret;
        client = client;
        content = content;
        answered = asked ∙ ap ok all;
        url = sym (ap (λ (c : ClusterConnectionData). c.url) made);
        has_secret = required_secret-ok name cluster.automation_token secret has_secret;
        logged_in = logged_in;
        stored = read_secret-IsStored hvac client secret.path _ content read;
        token = is_token ∙ ap some same;
        nonempty = λ empty. nonempty (same ∙ empty);
      }
