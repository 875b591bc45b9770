-- ===== src/PodTarget/Binding.antt =====
-- What a target is bound to.
use kube_ssh.Base.{
  Bool, true, not, ◌≢◌, ◌⊎◌, ◌↔◌, List, [], ◌∷◌, ◌++◌, ◌≡◌, sym, ◌∙◌, ap, inl, inr, some, ok, All,
  arith, Bool-cases, >>=-eq-ok, if◌then◌else◌,
}
use kube_ssh.Text.{Str, is_empty, ◌==◌}
use kube_ssh.Text.Laws.{==_refl, ==_iff}
use kube_ssh.Target.{Target, TargetOption, ResolveInput, Resolver, option, option_in, kind_pod}
use kube_ssh.Target.Hints.{IsComplete}
use kube_ssh.PodTarget.{Pod, Reference, identity_of, bound_identity, parse, option_containers}
use kube_ssh.PodTarget.Resolve.{
  BindingOptions, bind_live, bind_target, resolve_binding, permit_and_bind, container_allowed,
  resolve_container,
}
use kube_ssh.PodTarget.Container.{Resolved, resolve_container_iff}

-- The target with the Pod's identity, and with the container as an option where it named none.
abbrev pub bound_to : Target → Bool → Str → Pod → Target
bound_to tgt explicit container pod = record tgt {
  options =
      if explicit
      then tgt.options
      else tgt.options ++ (record { key = option_containers; value = container } ∷ []);
  runtime = identity_of pod;
}

-- The target `bound` is `tgt` bound to the live Pod that it names, with a container of that Pod that both
-- modes permit.
pub record Bound (r : BindingOptions) (tgt bound : Target) : Type 0 where
  pub ref : Reference
  pub parsed : parse (some tgt) ≡ ok ref
  pub pod : Pod
  pub current : r.pods ref.namespace ref.pod ≡ ok pod
  pub container : Str
  pub default : Str
  pub resolved : Resolved pod ref.container container default
  pub permitted :
      (container_allowed r.default_mode (not (is_empty ref.container)) container default ≡ true)
      × (container_allowed r.limit_mode (not (is_empty ref.container)) container default ≡ true)
  pub whole : bound ≡ bound_to tgt (not (is_empty ref.container)) container pod
  pub named : option bound option_containers ≡ container

-- What a target becomes: one that is no Pod target or is bound already stays as it is.
abbrev pub Settled : BindingOptions → Target → Target → Type 0
Settled r tgt bound =
    ((tgt.kind ≢ kind_pod) × (bound ≡ tgt))
    ⊎ ((tgt.kind ≡ kind_pod) × ((bound_identity tgt).uid ≢ []) × (bound ≡ tgt))
    ⊎ ((tgt.kind ≡ kind_pod) × ((bound_identity tgt).uid ≡ []) × Bound r tgt bound)

option_in-append :
    (options : List TargetOption) (key container : Str)
    → All IsComplete options
    → option_in options key ≡ []
    → option_in (options ++ (record { key = key; value = container } ∷ [])) key ≡ container
unfolding option_in
option_in-append [] key container c e = rw (==_refl key)
option_in-append (o ∷ options) key container c e = elim (Bool-cases (o.key == key)) [
  | inl at ↦ absurd (c.0.1 (rw at at e))
  | inr other ↦ rw other (option_in-append options key container c.1 (rw other at e))
]

parse-container :
    (tgt : Target) (ref : Reference)
    → parse (some tgt) ≡ ok ref
    → ref.container ≡ option tgt option_containers
unfolding parse
parse-container tgt ref h = ground arith

permit_and_bind_iff :
    (r : BindingOptions) (tgt bound : Target) (pod : Pod) (explicit : Bool)
    (container default : Str)
    → (permit_and_bind r tgt pod explicit (container, default) ≡ ok bound) ↔ (
        (container_allowed r.default_mode explicit container default ≡ true)
        × (container_allowed r.limit_mode explicit container default ≡ true)
        × (bound ≡ bound_to tgt explicit container pod))
unfolding permit_and_bind
permit_and_bind_iff r tgt bound pod explicit container default = ground arith

-- The container option of the bound target is the resolved container.
named_container :
    (tgt : Target) (pod : Pod) (requested container default : Str)
    → All IsComplete tgt.options
    → requested ≡ option tgt option_containers
    → Resolved pod requested container default
    → option (bound_to tgt (not (is_empty requested)) container pod) option_containers ≡ container
unfolding option
named_container tgt pod [] container default c e w =
    option_in-append tgt.options option_containers container c (sym e)
named_container tgt pod (x ∷ requested) container default c e w = sym e ∙ sym (w.explicit (λ h. cc))

module _ (r : BindingOptions) (tgt bound : Target) where
  bind_live-Bound : All IsComplete tgt.options → bind_live r tgt ≡ ok bound → Bound r tgt bound
  unfolding bind_live
  bind_live-Bound c h =
      let (ref, parsed, h1) = >>=-eq-ok (parse (some tgt)) _ h in
      let (pod, current, h2) = >>=-eq-ok (r.pods ref.namespace ref.pod) _ h1 in
      let ((container, default), chosen, h3) =
        >>=-eq-ok (resolve_container (some pod) ref.container) _ h2 in
      let resolved = (resolve_container_iff pod ref.container container default).0 chosen in
      let (default_mode, limit_mode, whole) =
        (permit_and_bind_iff r tgt bound pod _ container default).0 h3 in
      record {
        ref = ref;
        parsed = parsed;
        pod = pod;
        current = current;
        container = container;
        default = default;
        resolved = resolved;
        permitted = (default_mode, limit_mode);
        whole = whole;
        named =
            ap (λ (t : Target). option t option_containers) whole
            ∙ named_container tgt pod ref.container container default c
                (parse-container tgt ref parsed) resolved;
      }

  Bound-bind_live : Bound r tgt bound → bind_live r tgt ≡ ok bound
  unfolding bind_live
  Bound-bind_live b =
      let chosen =
        (resolve_container_iff b.pod b.ref.container b.container b.default).1 b.resolved in
      let binds = permit_and_bind_iff r tgt bound b.pod _ b.container b.default in
      rw (b.parsed, b.current, chosen) (binds.1 (b.permitted.0, b.permitted.1, b.whole))

  bind_target_iff :
      All IsComplete tgt.options → (bind_target r tgt ≡ ok bound) ↔ Settled r tgt bound
  unfolding bind_target
  bind_target_iff c = ground (arith, ==_iff tgt.kind kind_pod, bind_live-Bound c, Bound-bind_live)

-- On a target that the inner resolver returns, with options that all have a key and a value: Resolve
-- returns a target exactly when the inner one is no Pod target or is bound already, and then that one
-- unchanged; or when it is a Pod target that is not bound yet, the live Pod that it names is found, and
-- the container that it names, or else the default one, is one of that Pod's which both modes permit; and
-- then it is that target with the identity of the Pod, whose container option is this container.
pub resolve_binding_iff :
    {S : Type 0} (resolver : Resolver S) (r : BindingOptions) (s t : S) (input : ResolveInput)
    (tgt bound : Target)
    → resolver s input ≡ (t, ok tgt)
    → All IsComplete tgt.options
    → (resolve_binding resolver r s input ≡ (t, ok bound)) ↔ Settled r tgt bound
unfolding resolve_binding
resolve_binding_iff resolver r s t input tgt bound given complete =
    let binds = bind_target_iff r tgt bound complete in
    rw given
      (λ h. binds.0 (ap (λ p. p.1) h), λ settled. ap (λ result. (t, result)) (binds.1 settled))
