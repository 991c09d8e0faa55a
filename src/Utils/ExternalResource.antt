-- ===== src/Utils/ExternalResource.antt =====
-- external_resource.py: the search for an AWS resource in the namespaces of app-interface. The
-- answer of the GraphQL query, whose classes are generated, is an argument.
pub mod Search
use automated_actions.Prelude.{
  ℕ, String, Bool, true, false, not, ◌&&◌, ◌||◌, Option, none, some, List, [], ◌∷◌, ◌==◌,
  if◌then◌else◌, get_or, first_some,
}
use automated_actions.Text.{◌+++◌}
use automated_actions.Errors.{Exc, raised, external_resource_error}
use automated_actions.Exec.{Result, ok, err}

pub record VaultSecret : Type 0 where
  pub path : String
  pub field : String
  pub version : Option ℕ
  pub q_format : Option String

pub record AwsAccount : Type 0 where
  pub name : String
  pub automation_token : VaultSecret
  pub region : String

pub record ExternalResource : Type 0 where
  pub identifier : String
  pub region : Option String
  pub account : AwsAccount
  pub cluster : String
  pub namespace : String
  pub output_resource_name : Option String

pub data ExternalResourceProvider : Type 0 where
  rds elasticache : ExternalResourceProvider

-- The values of the enumeration.
unfoldable pub provider_text : ExternalResourceProvider → String
provider_text rds = "rds"
provider_text elasticache = "elasticache"

-- The attributes that only the classes for RDS and ElastiCache have.
pub record Details : Type 0 where
  pub region : Option String
  pub delete : Option Bool

pub record Resource : Type 0 where
  pub provider : String
  pub identifier : String
  pub output_resource_name : Option String
  pub details : Option Details

pub record Provisioner : Type 0 where
  pub name : String
  pub automation_token : VaultSecret
  pub resources_default_region : String

-- `NamespaceTerraformProviderResourceAWSV1`, or another provider's class
pub data Provided : Type 0 where
  aws : Provisioner → List Resource → Provided
  other : Provided

pub record Namespace : Type 0 where
  pub name : String
  pub delete : Option Bool
  pub external_resources : Option (List Provided)
  pub cluster : String

-- `getattr(resource, "delete", False)` as a condition
unfoldable pub is_deleted : Resource → Bool
is_deleted resource = elim resource.details [ none ↦ false | some d ↦ get_or d.delete false ]

-- `getattr(r, "region", None)`
unfoldable pub region_of : Resource → Option String
region_of resource = elim resource.details [ none ↦ none | some d ↦ d.region ]

unfoldable pub is_searched_resource : String → ExternalResourceProvider → Resource → Bool
unfolding is_deleted provider_text
is_searched_resource identifier provider resource =
    (resource.identifier == identifier)
    && ((resource.provider == provider_text provider) && not (is_deleted resource))

module _ (account identifier : String) (provider : ExternalResourceProvider) where
  -- The object that is returned for a resource.
  unfoldable pub external_resource : Namespace → Provisioner → Resource → ExternalResource
  unfolding region_of
  external_resource namespace provisioner resource = record {
    identifier = identifier;
    region = region_of resource;
    account = record {
      name = account;
      automation_token = provisioner.automation_token;
      region = provisioner.resources_default_region;
    };
    cluster = namespace.cluster;
    namespace = namespace.name;
    output_resource_name = resource.output_resource_name;
  }

  -- The innermost loop.
  unfoldable pub in_resource : Namespace → Provisioner → Resource → Option ExternalResource
  unfolding is_searched_resource external_resource
  in_resource namespace provisioner resource =
      if is_searched_resource identifier provider resource
      then some (external_resource namespace provisioner resource)
      else none

  unfoldable pub in_provided : Namespace → Provided → Option ExternalResource
  unfolding in_resource
  in_provided namespace other = none
  in_provided namespace (aws provisioner resources) =
      let found = first_some (in_resource namespace provisioner) resources in
      if provisioner.name == account then found else none

  unfoldable pub in_namespace : Namespace → Option ExternalResource
  unfolding in_provided
  in_namespace namespace =
      let found = first_some (in_provided namespace) (get_or namespace.external_resources []) in
      if get_or namespace.delete false then none else found

  found_or_raise : Option ExternalResource → Result Exc ExternalResource
  found_or_raise (some found) = ok found
  found_or_raise none = err (
      raised external_resource_error
        ("External resource " +++ identifier +++ " not found in account " +++ account +++ "."))

  -- `get_external_resource`; no namespaces, or an empty list of them, are an error of their own.
  unfoldable pub get_external_resource : Option (List Namespace) → Result Exc ExternalResource
  unfolding in_namespace found_or_raise
  get_external_resource none =
      err (raised external_resource_error "No external resources found in app-interface.")
  get_external_resource (some []) =
      err (raised external_resource_error "No external resources found in app-interface.")
  get_external_resource (some (namespace ∷ namespaces)) =
      found_or_raise (first_some in_namespace (namespace ∷ namespaces))
