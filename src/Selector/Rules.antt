-- ===== src/Selector/Rules.antt =====
-- The rules of a policy that select an identity, against a description by the selectors.
use mesh_cni.Prelude.{
  List, [], Option, some, none, Bool, true, false, not, if◌then◌else◌, IsIn, IsIn-filter_map, ◌≡◌,
  refl, sym, ap, ◌∙◌, ◌↔◌, inl, inr, Bool-cases,
}
use mesh_cni.Selector.{
  PolicyType, Labels, Identity, NetworkPolicyRule, NetworkPolicySpec, NetworkPolicy,
  policy_affects_type, peers_select_identity, selected, ingress_rules_select_identity,
  egress_rules_select_identity,
}
use mesh_cni.Selector.Meaning.{
  Affects, PeersSelect, policy_affects_type-Affects, peers_select_identity_iff,
}

module _ {L : Type 0} (matcher : L → Option (Labels → Bool)) where
  module _ {P : Type 0} where
    abbrev keep : Identity → NetworkPolicyRule L P → Option (NetworkPolicyRule L P)
    keep identity rule =
        if peers_select_identity matcher rule.peers identity then some rule else none

    kept :
        (identity : Identity) (rule x : NetworkPolicyRule L P)
        → keep identity x ≡ some rule
        → (x ≡ rule) × (peers_select_identity matcher rule.peers identity ≡ true)
    kept identity rule x e = elim (Bool-cases (peers_select_identity matcher x.peers identity)) [
      | inl h ↦
          let q : some x ≡ some rule = rw h at e in
          let same : x ≡ rule = cc in
          (
            same,
            ap (λ (r : NetworkPolicyRule L P). peers_select_identity matcher r.peers identity)
                  (sym same)
                ∙ h,
          )
      | inr h ↦ absurd (let q : none ≡ some rule = rw h at e in cc)
    ]

    IsIn-selected :
        (rule : NetworkPolicyRule L P) (identity : Identity) (rules : List (NetworkPolicyRule L P))
        → IsIn rule (selected matcher identity rules)
          ↔ (IsIn rule rules × (peers_select_identity matcher rule.peers identity ≡ true))
    unfolding selected
    IsIn-selected rule identity rules = (
      λ h.
          let (x, i, e) = (IsIn-filter_map (keep identity) rule rules).0 h in
          let (same, p) = kept identity rule x e in (rw (← same) i, p),
      λ (i, e). (IsIn-filter_map (keep identity) rule rules).1 (rule, i, rw e),
    )

    -- The rules of one direction, `rules_of`, from the spec on.
    unfoldable chosen :
        Identity → Bool → Option (List (NetworkPolicyRule L P)) → List (NetworkPolicyRule L P)
    chosen identity affects o =
        if not affects
        then []
        else elim o [ none ↦ [] | some rules ↦ selected matcher identity rules ]

    IsIn-chosen :
        (rule : NetworkPolicyRule L P) (identity : Identity) (affects : Bool)
        (o : Option (List (NetworkPolicyRule L P)))
        → IsIn rule (chosen identity affects o) ↔ (
            (rules : List (NetworkPolicyRule L P)) × (affects ≡ true)
            × (o ≡ some rules)
            × IsIn rule rules
            × (peers_select_identity matcher rule.peers identity ≡ true))
    unfolding chosen
    IsIn-chosen rule identity false o = (λ h. absurd h, λ (_, e, _, _, _). absurd (cc))
    IsIn-chosen rule identity true none = (λ h. absurd h, λ (_, _, e, _, _). absurd (cc))
    IsIn-chosen rule identity true (some rules) = (
      λ h. let (i, p) = (IsIn-selected rule identity rules).0 h in (rules, refl, refl, i, p),
      λ (rules', _, e, i, p).
          let same : rules' ≡ rules = cc in
          (IsIn-selected rule identity rules).1 (rw (← same) i, p),
    )

    IsIn-of_spec :
        (rule : NetworkPolicyRule L P) (identity : Identity) (t : PolicyType)
        (rules_of : NetworkPolicySpec L P → Option (List (NetworkPolicyRule L P)))
        (o : Option (NetworkPolicySpec L P))
        → IsIn rule (elim o [
          | none ↦ []
          | some spec ↦ chosen identity (policy_affects_type spec t) (rules_of spec)
        ])
          ↔ ((spec : NetworkPolicySpec L P) × (rules : List (NetworkPolicyRule L P)) × (o
                ≡ some spec)
              × (policy_affects_type spec t ≡ true)
              × (rules_of spec ≡ some rules)
              × IsIn rule rules
              × (peers_select_identity matcher rule.peers identity ≡ true))
    IsIn-of_spec rule identity t rules_of none =
        (λ h. absurd h, λ (_, _, e, _, _, _, _). absurd (cc))
    IsIn-of_spec rule identity t rules_of (some spec) = (
      λ h.
          let (rules, a, e, i, p) =
            (IsIn-chosen rule identity (policy_affects_type spec t) (rules_of spec)).0 h in
          (spec, rules, refl, a, e, i, p),
      λ (spec', rules, same, a, e, i, p).
          let q : spec ≡ spec' = cc in
          (IsIn-chosen rule identity (policy_affects_type spec t) (rules_of spec)).1
            (rules, ap (λ s. policy_affects_type s t) q ∙ a, ap rules_of q ∙ e, i, p),
    )

    ingress_rules_select_identity_iff :
        (rule : NetworkPolicyRule L P) (identity : Identity) (policy : NetworkPolicy L P)
        → IsIn rule (ingress_rules_select_identity matcher identity policy) ↔ (
            (spec : NetworkPolicySpec L P) × (rules : List (NetworkPolicyRule L P)) × (policy.spec
              ≡ some spec)
            × (policy_affects_type spec PolicyType.ingress ≡ true)
            × (spec.ingress ≡ some rules)
            × IsIn rule rules
            × (peers_select_identity matcher rule.peers identity ≡ true))
    unfolding ingress_rules_select_identity chosen
    ingress_rules_select_identity_iff rule identity policy =
        IsIn-of_spec rule identity PolicyType.ingress (λ spec. spec.ingress) policy.spec

    egress_rules_select_identity_iff :
        (rule : NetworkPolicyRule L P) (identity : Identity) (policy : NetworkPolicy L P)
        → IsIn rule (egress_rules_select_identity matcher identity policy) ↔ (
            (spec : NetworkPolicySpec L P) × (rules : List (NetworkPolicyRule L P)) × (policy.spec
              ≡ some spec)
            × (policy_affects_type spec PolicyType.egress ≡ true)
            × (spec.egress ≡ some rules)
            × IsIn rule rules
            × (peers_select_identity matcher rule.peers identity ≡ true))
    unfolding egress_rules_select_identity chosen
    egress_rules_select_identity_iff rule identity policy =
        IsIn-of_spec rule identity PolicyType.egress (λ spec. spec.egress) policy.spec

    -- A rule of a policy for a direction, given by `rules_of`, that selects the identity.
    abbrev pub IsSelected :
        PolicyType
        → (NetworkPolicySpec L P → Option (List (NetworkPolicyRule L P)))
        → NetworkPolicyRule L P
        → Identity
        → NetworkPolicy L P
        → Type 0
    IsSelected t rules_of rule identity policy =
        (spec : NetworkPolicySpec L P) × (rules : List (NetworkPolicyRule L P)) × (policy.spec
          ≡ some spec)
        × Affects spec t
        × (rules_of spec ≡ some rules)
        × IsIn rule rules
        × PeersSelect matcher rule.peers identity

    -- The rules that are returned for ingress or for egress are exactly those that the policy has
    -- for the direction, which it affects by its policy types or without them by its rules, and
    -- whose peers select the identity: no peers at all, or a peer with a selector, of which each
    -- that is there converts and matches the labels of the identity's namespace or pod.
    pub rules_select_identity_iff :
        (rule : NetworkPolicyRule L P) (identity : Identity) (policy : NetworkPolicy L P)
        → (IsIn rule (ingress_rules_select_identity matcher identity policy)
            ↔ IsSelected PolicyType.ingress (λ spec. spec.ingress) rule identity policy)
          × (IsIn rule (egress_rules_select_identity matcher identity policy)
              ↔ IsSelected PolicyType.egress (λ spec. spec.egress) rule identity policy)
    rules_select_identity_iff rule identity policy =
        let (a, a') = ingress_rules_select_identity_iff rule identity policy in
        let (b, b') = egress_rules_select_identity_iff rule identity policy in
        let (p, p') = peers_select_identity_iff matcher rule.peers identity in
        (
          (
            λ h.
                let (spec, rules, q, f, g, i, c) = a h in
                (spec, rules, q, (policy_affects_type-Affects spec _).0 f, g, i, p c),
            λ (spec, rules, q, f, g, i, c).
                a' (spec, rules, q, (policy_affects_type-Affects spec _).1 f, g, i, p' c),
          ),
          (
            λ h.
                let (spec, rules, q, f, g, i, c) = b h in
                (spec, rules, q, (policy_affects_type-Affects spec _).0 f, g, i, p c),
            λ (spec, rules, q, f, g, i, c).
                b' (spec, rules, q, (policy_affects_type-Affects spec _).1 f, g, i, p' c),
          ),
        )
