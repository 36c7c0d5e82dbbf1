-- ===== src/Selector.antt =====
-- mesh-cni-policy-controller/src/selector.rs: which network policies and which of their rules
-- select an identity. A label selector is of a type `L`, and `matcher` is the conversion to the
-- selector of `kube` with its test on labels; `none` is a conversion that fails.
pub mod Meaning
pub mod Rules
use mesh_cni.Prelude.{
  String, List, [], ◌∷◌, Option, some, none, Bool, true, false, ◌&&◌, ◌||◌, not, if◌then◌else◌,
  filter_map,
}
use mesh_cni.Prelude.HashMap.{HashMap}
use text.Mathlib.Text.{◌==◌ as str_eq}

pub data PolicyType : Type 0 where
  ingress egress : PolicyType

-- `FromStr`; `none` is its error.
unfoldable pub policy_type_from_str : String → Option PolicyType
policy_type_from_str s =
    if str_eq s "Ingress" || str_eq s "ingress"
    then some PolicyType.ingress
    else if str_eq s "Egress" || str_eq s "egress"
    then some PolicyType.egress
    else none

abbrev pub same_type : PolicyType → PolicyType → Bool
same_type PolicyType.ingress PolicyType.ingress = true
same_type PolicyType.egress PolicyType.egress = true
same_type PolicyType.ingress PolicyType.egress = false
same_type PolicyType.egress PolicyType.ingress = false

abbrev pub Labels : Type 0
Labels = HashMap String String

pub record Identity : Type 0 where
  pub namespace : Option String
  pub namespace_labels : Labels
  pub pod_labels : Labels

pub record NetworkPolicyPeer (L : Type 0) : Type 0 where
  pub has_ip_block : Bool
  pub pod_selector : Option L
  pub namespace_selector : Option L

-- `NetworkPolicyIngressRule` with its `from`, `NetworkPolicyEgressRule` with its `to`; `ports` is
-- what else a rule has.
pub record NetworkPolicyRule (L P : Type 0) : Type 0 where
  pub peers : Option (List (NetworkPolicyPeer L))
  pub ports : P

pub record NetworkPolicySpec (L P : Type 0) : Type 0 where
  pub pod_selector : Option L
  pub policy_types : Option (List String)
  pub ingress : Option (List (NetworkPolicyRule L P))
  pub egress : Option (List (NetworkPolicyRule L P))

pub record NetworkPolicy (L P : Type 0) : Type 0 where
  pub namespace : Option String
  pub spec : Option (NetworkPolicySpec L P)

abbrev pub is_some : {A : Type 0} → Option A → Bool
is_some none = false
is_some (some a) = true

unfoldable pub any : {A : Type 0} → (A → Bool) → List A → Bool
any p [] = false
any p (x ∷ xs) = p x || any p xs

-- `spec_policy_type` parses to this type.
abbrev pub parses_to : PolicyType → Option PolicyType → Bool
parses_to policy_type none = false
parses_to policy_type (some spt) = same_type spt policy_type

unfoldable pub default_affects : {L P : Type 0} → NetworkPolicySpec L P → PolicyType → Bool
default_affects spec PolicyType.ingress = is_some spec.ingress || not (is_some spec.egress)
default_affects spec PolicyType.egress = is_some spec.egress

unfoldable pub policy_affects_type : {L P : Type 0} → NetworkPolicySpec L P → PolicyType → Bool
policy_affects_type spec policy_type = elim spec.policy_types [
  | none ↦ default_affects spec policy_type
  | some policy_types ↦ any (λ t. parses_to policy_type (policy_type_from_str t)) policy_types
]

module _ {L : Type 0} (matcher : L → Option (Labels → Bool)) where
  unfoldable pub label_selector_matches : L → Labels → Bool
  label_selector_matches selector labels = elim (matcher selector) [
    | none ↦ false
    | some m ↦ m labels
  ]

  -- An optional selector holds, or is absent.
  abbrev pub allows : Option L → Labels → Bool
  allows none labels = true
  allows (some selector) labels = label_selector_matches selector labels

  unfoldable pub peer_selects_identity : NetworkPolicyPeer L → Identity → Bool
  peer_selects_identity peer identity =
      if peer.has_ip_block
        && (not (is_some peer.pod_selector) && not (is_some peer.namespace_selector))
      then false
      else if not (allows peer.namespace_selector identity.namespace_labels)
      then false
      else if not (allows peer.pod_selector identity.pod_labels)
      then false
      else is_some peer.pod_selector || is_some peer.namespace_selector

  unfoldable pub peers_select_identity : Option (List (NetworkPolicyPeer L)) → Identity → Bool
  peers_select_identity none identity = true
  peers_select_identity (some []) identity = true
  peers_select_identity (some (p ∷ ps)) identity =
      any (λ peer. peer_selects_identity peer identity) (p ∷ ps)

  module _ {P : Type 0} where
    unfoldable pub policy_selects_identity : NetworkPolicy L P → Identity → Bool
    policy_selects_identity policy identity = elim policy.namespace [
      | none ↦ false
      | some policy_ns ↦ elim identity.namespace [
        | none ↦ false
        | some identity_ns ↦
            if not (str_eq policy_ns identity_ns) then false else elim policy.spec [
              | none ↦ false
              | some spec ↦ elim spec.pod_selector [
                | none ↦ false
                | some selector ↦ label_selector_matches selector identity.pod_labels
              ]
            ]
      ]
    ]

    -- The filter over the rules.
    unfoldable pub selected : Identity → List (NetworkPolicyRule L P) → List (NetworkPolicyRule L P)
    selected identity =
        filter_map (λ rule. if peers_select_identity rule.peers identity then some rule else none)

    unfoldable pub ingress_rules_select_identity :
        Identity → NetworkPolicy L P → List (NetworkPolicyRule L P)
    ingress_rules_select_identity identity policy = elim policy.spec [
      | none ↦ []
      | some spec ↦
          if not (policy_affects_type spec PolicyType.ingress)
          then []
          else elim spec.ingress [ none ↦ [] | some rules ↦ selected identity rules ]
    ]

    unfoldable pub egress_rules_select_identity :
        Identity → NetworkPolicy L P → List (NetworkPolicyRule L P)
    egress_rules_select_identity identity policy = elim policy.spec [
      | none ↦ []
      | some spec ↦
          if not (policy_affects_type spec PolicyType.egress)
          then []
          else elim spec.egress [ none ↦ [] | some rules ↦ selected identity rules ]
    ]
