-- ===== src/Selector/Meaning.antt =====
-- What the tests of a policy's directions, selectors and peers mean.
use mesh_cni.Prelude.{
  List, [], ◌∷◌, Option, some, none, Bool, true, false, ◌&&◌, ◌||◌, not, if◌then◌else◌, IsIn,
  String, Option-cases, ◌≡◌, ◌≢◌, refl, sym, ap, ◌∙◌, ◌⊎◌, ◌↔◌, inl, inr, Bool-cases, arith,
}
use text.Mathlib.Text.{◌==◌ as str_eq}
use text.Mathlib.TextEquality.{eq_iff}
use mesh_cni.Selector.{
  PolicyType, Labels, Identity, NetworkPolicyPeer, NetworkPolicySpec, is_some, any, parses_to,
  policy_type_from_str, default_affects, label_selector_matches, policy_affects_type, allows,
  peer_selects_identity, peers_select_identity,
}

any_iff :
    {A : Type 0} (p : A → Bool) (xs : List A)
    → (any p xs ≡ true) ↔ ((x : A) × IsIn x xs × (p x ≡ true))
unfolding any
any_iff {A} p xs = (out xs, into xs)
  where
    out : (xs : List A) → any p xs ≡ true → (x : A) × IsIn x xs × (p x ≡ true)
    out [] h = absurd (cc)
    out (x ∷ xs) h = elim (Bool-cases (p x)) [
      | inl e ↦ (x, inl refl, e)
      | inr e ↦ let (y, i, q) = out xs (let z = rw e at h in z) in (y, inr i, q)
    ]

    into : (xs : List A) → ((x : A) × IsIn x xs × (p x ≡ true)) → any p xs ≡ true
    into [] (x, i, q) = absurd i
    into (y ∷ xs) (x, inl s, q) = let e : p y ≡ true = ap p (sym s) ∙ q in rw e
    into (y ∷ xs) (x, inr i, q) = elim (Bool-cases (p y)) [
      | inl e ↦ rw e
      | inr e ↦ rw e (into xs (x, i, q))
    ]

-- The texts that name a direction.
abbrev pub Names : PolicyType → String → Type 0
Names PolicyType.ingress text = (text ≡ "Ingress") ⊎ (text ≡ "ingress")
Names PolicyType.egress text = (text ≡ "Egress") ⊎ (text ≡ "egress")

-- Where a policy does not say which directions it affects: its own rules for egress, and ingress
-- unless it has rules for egress only.
abbrev pub AffectsByRules : {L P : Type 0} → NetworkPolicySpec L P → PolicyType → Type 0
AffectsByRules spec PolicyType.ingress = (spec.ingress ≢ none) ⊎ (spec.egress ≡ none)
AffectsByRules spec PolicyType.egress = spec.egress ≢ none

abbrev pub AffectsBy :
    {L P : Type 0} → NetworkPolicySpec L P → PolicyType → Option (List String) → Type 0
AffectsBy spec t none = AffectsByRules spec t
AffectsBy spec t (some texts) = (text : String) × IsIn text texts × Names t text

-- The policy affects a direction.
abbrev pub Affects : {L P : Type 0} → NetworkPolicySpec L P → PolicyType → Type 0
Affects spec t = AffectsBy spec t spec.policy_types

parses_to_iff :
    (t : PolicyType) (text : String)
    → (parses_to t (policy_type_from_str text) ≡ true) ↔ Names t text
unfolding policy_type_from_str
parses_to_iff PolicyType.ingress text = (
  λ h. elim (Bool-cases (str_eq text "Ingress")) [
    | inl e ↦ inl ((eq_iff text "Ingress").0 e)
    | inr e ↦ elim (Bool-cases (str_eq text "ingress")) [
      | inl f ↦ inr ((eq_iff text "ingress").0 f)
      | inr f ↦ absurd (ground arith)
    ]
  ],
  λ h. elim h [ inl q ↦ rw q refl | inr q ↦ rw q refl ],
)
parses_to_iff PolicyType.egress text = (
  λ h. elim (Bool-cases (str_eq text "Egress")) [
    | inl e ↦ inl ((eq_iff text "Egress").0 e)
    | inr e ↦ elim (Bool-cases (str_eq text "egress")) [
      | inl f ↦ inr ((eq_iff text "egress").0 f)
      | inr f ↦ absurd (ground arith)
    ]
  ],
  λ h. elim h [ inl q ↦ rw q refl | inr q ↦ rw q refl ],
)

default_affects_iff :
    {L P : Type 0} (spec : NetworkPolicySpec L P) (t : PolicyType)
    → (default_affects spec t ≡ true) ↔ AffectsByRules spec t
unfolding default_affects
default_affects_iff spec PolicyType.ingress = ground arith
default_affects_iff spec PolicyType.egress = ground arith

pub policy_affects_type-Affects :
    {L P : Type 0} (spec : NetworkPolicySpec L P) (t : PolicyType)
    → (policy_affects_type spec t ≡ true) ↔ Affects spec t
unfolding policy_affects_type
policy_affects_type-Affects spec t = go spec.policy_types
  where
    go :
        (o : Option (List String))
        → (elim o [
          | none ↦ default_affects spec t
          | some texts ↦ any (λ x. parses_to t (policy_type_from_str x)) texts
        ]
            ≡ true)
          ↔ AffectsBy spec t o
    go none = default_affects_iff spec t
    go (some texts) =
        let (out, into) = any_iff (λ x. parses_to t (policy_type_from_str x)) texts in
        (
          λ h. let (x, i, q) = out h in (x, i, (parses_to_iff t x).0 q),
          λ (x, i, q). into (x, i, (parses_to_iff t x).1 q),
        )

module _ {L : Type 0} (matcher : L → Option (Labels → Bool)) where
  -- A peer selects an identity if and only if it has a namespace selector or a pod selector, and
  -- each one that it has matches the identity's labels; an IP block plays no part.
  peer_selects_identity_iff :
      (peer : NetworkPolicyPeer L) (identity : Identity)
      → (peer_selects_identity matcher peer identity ≡ true) ↔ (
          (allows matcher peer.namespace_selector identity.namespace_labels ≡ true)
          × (allows matcher peer.pod_selector identity.pod_labels ≡ true)
          × ((peer.pod_selector ≢ none) ⊎ (peer.namespace_selector ≢ none)))
  unfolding peer_selects_identity
  peer_selects_identity_iff peer identity =
      go peer.has_ip_block peer.pod_selector peer.namespace_selector
        (allows matcher peer.namespace_selector identity.namespace_labels)
        (allows matcher peer.pod_selector identity.pod_labels)
    where
      go :
          (ip : Bool) (pod ns : Option L) (a b : Bool)
          → ((if ip && (not (is_some pod) && not (is_some ns))
                then false
                else if not a
                then false
                else if not b
                then false
                else is_some pod || is_some ns)
              ≡ true)
            ↔ ((a ≡ true) × (b ≡ true) × ((pod ≢ none) ⊎ (ns ≢ none)))
      go ip pod ns a b = ground arith

  -- A selector that converts and matches.
  abbrev pub Matches : L → Labels → Type 0
  Matches selector labels = (m : Labels → Bool) × (matcher selector ≡ some m) × (m labels ≡ true)

  -- An absent selector matches everything.
  abbrev pub MatchesIfAny : Option L → Labels → Type 0
  MatchesIfAny none labels = Unit
  MatchesIfAny (some selector) labels = Matches selector labels

  allows_iff :
      (o : Option L) (labels : Labels) → (allows matcher o labels ≡ true) ↔ MatchesIfAny o labels
  unfolding label_selector_matches
  allows_iff none labels = (λ h. tt, λ h. refl)
  allows_iff (some selector) labels = elim (Option-cases (matcher selector)) [
    | inl e ↦ (λ h. absurd (ground arith), λ (m, q, _). absurd (let w = sym e ∙ q in cc))
    | inr (m, e) ↦ (
      λ h. (m, e, ground arith),
      λ (m', q, h). let same : m' ≡ m = (let w = sym q ∙ e in cc) in ground (arith, same),
    )
  ]

  -- A namespace selector or a pod selector is there, and those that are match the identity.
  abbrev pub PeerSelects : NetworkPolicyPeer L → Identity → Type 0
  PeerSelects peer identity =
      MatchesIfAny peer.namespace_selector identity.namespace_labels
      × MatchesIfAny peer.pod_selector identity.pod_labels
      × ((peer.pod_selector ≢ none) ⊎ (peer.namespace_selector ≢ none))

  peer_selects_identity-PeerSelects :
      (peer : NetworkPolicyPeer L) (identity : Identity)
      → (peer_selects_identity matcher peer identity ≡ true) ↔ PeerSelects peer identity
  peer_selects_identity-PeerSelects peer identity =
      let (out, into) = peer_selects_identity_iff peer identity in
      let (a, a') = allows_iff peer.namespace_selector identity.namespace_labels in
      let (b, b') = allows_iff peer.pod_selector identity.pod_labels in
      (λ h. let (n, p, c) = out h in (a n, b p, c), λ (n, p, c). into (a' n, b' p, c))

  -- No list of peers and an empty one select everything, any other what one of its peers does.
  abbrev pub PeersSelect : Option (List (NetworkPolicyPeer L)) → Identity → Type 0
  PeersSelect none identity = Unit
  PeersSelect (some []) identity = Unit
  PeersSelect (some (p ∷ ps)) identity =
      (peer : NetworkPolicyPeer L) × IsIn peer (p ∷ ps) × PeerSelects peer identity

  pub peers_select_identity_iff :
      (peers : Option (List (NetworkPolicyPeer L))) (identity : Identity)
      → (peers_select_identity matcher peers identity ≡ true) ↔ PeersSelect peers identity
  unfolding peers_select_identity
  peers_select_identity_iff none identity = (λ h. tt, λ h. refl)
  peers_select_identity_iff (some []) identity = (λ h. tt, λ h. refl)
  peers_select_identity_iff (some (p ∷ ps)) identity =
      let (out, into) = any_iff (λ peer. peer_selects_identity matcher peer identity) (p ∷ ps) in
      (
        λ h.
            let (peer, i, q) = out h in
            (peer, i, (peer_selects_identity-PeerSelects peer identity).0 q),
        λ (peer, i, q). into (peer, i, (peer_selects_identity-PeerSelects peer identity).1 q),
      )
