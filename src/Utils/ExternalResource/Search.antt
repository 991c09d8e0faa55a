-- ===== src/Utils/ExternalResource/Search.antt =====
-- Which resource the search of external_resource.py returns, and when it fails.
use mathlib.Core.List.{Mem, mem-cons, not-mem-nil}
use mathlib.Core.Logic.Or
use mathlib.Core.Path.{subst}
use automated_actions.Prelude.{
  String, ◌≡◌, ◌↔◌, ◌≢◌, refl, ap, sym, ◌∙◌, Bool, true, false, not, Option, none, some, List, [],
  ◌∷◌, ◌==◌, get_or, first_some, Option-cases, inl, inr, Bool-cases, &&_iff, eq_iff,
}
use automated_actions.Errors.{Exc}
use automated_actions.Exec.{ok, err, ok-ne-err, ok-injective}
use automated_actions.Utils.ExternalResource.{
  ExternalResource, ExternalResourceProvider, provider_text, Resource, Provisioner, Provided, aws,
  other, Namespace, is_deleted, is_searched_resource, external_resource, in_resource, in_provided,
  in_namespace, found_or_raise, get_external_resource,
}

none-ne-some : {A : Type 0} {a : A} → none ≡ some a → ⊥
none-ne-some h = cc

⊥-IsProp : IsProp ⊥
⊥-IsProp x y = absurd x

not-true : (b : Bool) → not b ≡ true → b ≡ false
not-true true h = sym h
not-true false h = refl

some-injective : {A : Type 0} {a b : A} → some a ≡ some b → a ≡ b
some-injective h = cc

module _ {A B : Type 0} (f : A → Option B) where
  first_some-some :
      (l : List A) (b : B) → first_some f l ≡ some b → (a : A) × Mem a l × (f a ≡ some b)
  first_some-some [] b h = absurd (none-ne-some h)
  first_some-some (a ∷ l) b h = elim (Option-cases (f a)) [
    | inl e ↦
        let found = first_some-some l b (rw (first_some, e) at h) in
        (found.0, mem-cons.1 (Or.inr found.1), found.2)
    | inr (c, e) ↦ (a, mem-cons.1 (Or.inl refl), e ∙ (rw (first_some, e) at h))
  ]

  first_some-none :
      (l : List A) (a : A) (b : B) → first_some f l ≡ none → Mem a l → f a ≡ some b → ⊥
  first_some-none [] a b h m e = not-mem-nil m
  first_some-none (x ∷ l) a b h m e = elim (Option-cases (f x)) [
    | inl none_here ↦
        Or.elim ⊥-IsProp (mem-cons.0 m)
          (λ same. none-ne-some (sym none_here ∙ (ap f (sym same) ∙ e)))
          (λ later. first_some-none l a b (rw (first_some, none_here) at h) later e)
    | inr (c, found) ↦ none-ne-some (sym (rw (first_some, found) at h))
  ]

-- A resource that counts: in a namespace that is not deleted, of a provisioner with the account's
-- name, with the identifier, of the provider, and not deleted itself.
pub record IsListed (account identifier : String) (provider : ExternalResourceProvider)
    (namespaces : List Namespace) (namespace : Namespace) (provisioner : Provisioner)
    (resource : Resource) : Type 0 where
  pub resources : List Resource
  pub is_namespace : Mem namespace namespaces
  pub namespace_kept : get_or namespace.delete false ≡ false
  pub is_provided : Mem (aws provisioner resources) (get_or namespace.external_resources [])
  pub has_account : provisioner.name ≡ account
  pub is_resource : Mem resource resources
  pub has_identifier : resource.identifier ≡ identifier
  pub has_provider : resource.provider ≡ provider_text provider
  pub resource_kept : is_deleted resource ≡ false

module _ (account identifier : String) (provider : ExternalResourceProvider) where
  searched_iff :
      (r : Resource)
      → (is_searched_resource identifier provider r ≡ true) ↔ (
          (r.identifier ≡ identifier)
          × (r.provider ≡ provider_text provider)
          × (is_deleted r ≡ false))
  unfolding is_searched_resource
  searched_iff r = (
    λ h.
        let both = (&&_iff _ _).0 h in
        let rest = (&&_iff _ _).0 both.1 in
        ((eq_iff _ _).0 both.0, (eq_iff _ _).0 rest.0, not-true _ rest.1),
    λ h. (&&_iff _ _).1 ((eq_iff _ _).1 h.0, (&&_iff _ _).1 ((eq_iff _ _).1 h.1, ap not h.2)),
  )

  in_resource-some :
      (n : Namespace) (p : Provisioner) (r : Resource) (x : ExternalResource)
      → in_resource account identifier provider n p r ≡ some x
      → (is_searched_resource identifier provider r ≡ true)
        × (x ≡ external_resource account identifier provider n p r)
  unfolding in_resource
  in_resource-some n p r x h = elim (Bool-cases (is_searched_resource identifier provider r)) [
    | inl e ↦ (e, sym (some-injective (rw e at h)))
    | inr e ↦ absurd (none-ne-some (rw e at h))
  ]

  in_provided-some :
      (n : Namespace) (p : Provided) (x : ExternalResource)
      → in_provided account identifier provider n p ≡ some x
      → (q : Provisioner) × (l : List Resource) × (p ≡ aws q l)
        × (q.name ≡ account)
        × (first_some (in_resource account identifier provider n q) l ≡ some x)
  unfolding in_provided
  in_provided-some n other x h = absurd (none-ne-some h)
  in_provided-some n (aws q l) x h = elim (Bool-cases (q.name == account)) [
    | inl e ↦ (q, l, refl, (eq_iff _ _).0 e, (rw e at h))
    | inr e ↦ absurd (none-ne-some (rw e at h))
  ]

  in_namespace-some :
      (n : Namespace) (x : ExternalResource)
      → in_namespace account identifier provider n ≡ some x
      → (get_or n.delete false ≡ false)
        × (first_some (in_provided account identifier provider n) (get_or n.external_resources [])
            ≡ some x)
  unfolding in_namespace
  in_namespace-some n x h = elim (Bool-cases (get_or n.delete false)) [
    | inl e ↦ absurd (none-ne-some (rw e at h))
    | inr e ↦ (e, (rw e at h))
  ]

  found_or_raise-ok :
      (o : Option ExternalResource) (x : ExternalResource)
      → found_or_raise account identifier provider o ≡ ok x
      → o ≡ some x
  unfolding found_or_raise
  found_or_raise-ok none x h = absurd (ok-ne-err (sym h))
  found_or_raise-ok (some y) x h = ap some (ok-injective h)

  -- What is returned was made from a resource with the identifier, of the provider and not deleted,
  -- that stands under a provisioner with the account's name, in a namespace that is not deleted.
  pub get_external_resource-ok :
      (namespaces : List Namespace) (x : ExternalResource)
      → get_external_resource account identifier provider (some namespaces) ≡ ok x
      → (n : Namespace) × (p : Provisioner) × (r : Resource) × IsListed account identifier provider
          namespaces n p r
        × (x ≡ external_resource account identifier provider n p r)
  unfolding get_external_resource
  get_external_resource-ok [] x h = absurd (ok-ne-err (sym h))
  get_external_resource-ok (m ∷ ms) x h =
      let by_namespace =
        first_some-some (in_namespace account identifier provider) (m ∷ ms) x
          (found_or_raise-ok _ x h) in
      let n = by_namespace.0 in
      let kept = in_namespace-some n x by_namespace.2 in
      let by_provided = first_some-some _ _ x kept.1 in
      let given = in_provided-some n by_provided.0 x by_provided.2 in
      let by_resource = first_some-some _ given.1 x given.4 in
      let searched = in_resource-some n given.0 by_resource.0 x by_resource.2 in
      let words = (searched_iff by_resource.0).0 searched.0 in
      (
        n,
        given.0,
        by_resource.0,
        record {
          resources = given.1;
          is_namespace = by_namespace.1;
          namespace_kept = kept.0;
          is_provided = subst (λ y. Mem y (get_or n.external_resources [])) given.2 by_provided.1;
          has_account = given.3;
          is_resource = by_resource.1;
          has_identifier = words.0;
          has_provider = words.1;
          resource_kept = words.2;
        },
        searched.1,
      )

  in_resource-listed :
      (n : Namespace) (p : Provisioner) (r : Resource)
      → r.identifier ≡ identifier
      → r.provider ≡ provider_text provider
      → is_deleted r ≡ false
      → in_resource account identifier provider n p r
        ≡ some (external_resource account identifier provider n p r)
  unfolding in_resource
  in_resource-listed n p r h k kept = rw ((searched_iff r).1 (h, k, kept))

  -- Each of the three loops finds something if there is something to find.
  in_namespace-listed :
      (namespaces : List Namespace) (n : Namespace) (p : Provisioner) (r : Resource)
      → IsListed account identifier provider namespaces n p r
      → in_namespace account identifier provider n ≢ none
  unfolding in_namespace in_provided
  in_namespace-listed namespaces n p r listed missed =
      first_some-none _ _ (aws p listed.resources) found.0 (rw listed.namespace_kept at missed)
        listed.is_provided (rw ((eq_iff _ _).1 listed.has_account) found.1)
    where
      found :
          (x : ExternalResource) × (first_some
              (in_resource account identifier provider n p)
              listed.resources
            ≡ some x)
      found =
          elim (Option-cases
            (first_some (in_resource account identifier provider n p) listed.resources)) [
              | inr (x, e) ↦ (x, e)
              | inl e ↦ absurd (
                  first_some-none _ _ r _ e listed.is_resource (
                    in_resource-listed n p r listed.has_identifier listed.has_provider
                      listed.resource_kept))
            ]

  found_or_raise-err :
      (o : Option ExternalResource) (e : Exc)
      → found_or_raise account identifier provider o ≡ err e
      → o ≡ none
  unfolding found_or_raise
  found_or_raise-err none e h = refl
  found_or_raise-err (some y) e h = absurd (ok-ne-err h)

  -- The search fails only if there is no such resource: with the identifier, of the provider, not
  -- deleted, under a provisioner with the account's name, in a namespace that is not deleted.
  pub get_external_resource-err :
      (namespaces : List Namespace) (e : Exc) (n : Namespace) (p : Provisioner) (r : Resource)
      → get_external_resource account identifier provider (some namespaces) ≡ err e
      → ¬ IsListed account identifier provider namespaces n p r
  unfolding get_external_resource
  get_external_resource-err [] e n p r h listed = not-mem-nil listed.is_namespace
  get_external_resource-err (m ∷ ms) e n p r h listed =
      elim (Option-cases (in_namespace account identifier provider n)) [
        | inl missed ↦ in_namespace-listed (m ∷ ms) n p r listed missed
        | inr (x, found) ↦
            first_some-none (in_namespace account identifier provider) (m ∷ ms) n x
              (found_or_raise-err _ e h) listed.is_namespace found
      ]
