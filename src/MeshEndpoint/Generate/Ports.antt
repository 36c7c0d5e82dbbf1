-- ===== src/MeshEndpoint/Generate/Ports.antt =====
-- The port of a slice that `backend_port_from_ep_slice` finds.
use mesh_cni.Common.{KubeProtocol, KubeProtocol-discrete, IpAddr}
use mesh_cni.MeshEndpoint.{
  EndpointPort, EndpointSlice, kube_proto_from_str, backend_port_from, backend_port_from_ep_slice,
}
use mesh_cni.Prelude.{
  ℕ, ◌%◌, ◌^◌, String, List, [], ◌∷◌, Option, some, none, true, ◌↔◌, ◌≡◌, ◌⊎◌, refl, inl, inr, sym,
  ◌∙◌, ap, Bool-cases, if_pos, if_neg,
}
use text.Mathlib.Text.{◌==◌ as str_eq}
use text.Mathlib.TextEquality.{eq_iff}

-- A port of a slice has a name and a protocol, TCP where it has none that is known.
abbrev pub Fits : EndpointPort → String → KubeProtocol → ℕ → Type 0
Fits p name protocol port =
    (p.name ≡ some name) × (p.port ≡ some port) × (kube_proto_from_str p.protocol ≡ protocol)

-- The number, as 16 bits, of the first port that fits.
abbrev pub IsFirst : List EndpointPort → String → KubeProtocol → ℕ → Type 0
IsFirst [] name protocol b = ⊥
IsFirst (p ∷ ps) name protocol b =
    ((port : ℕ) × Fits p name protocol port × (b ≡ port % 2 ^ 16))
    ⊎ (((port : ℕ) → ¬ (Fits p name protocol port)) × IsFirst ps name protocol b)

backend_port_from_iff :
    (parse_ip : String → Option IpAddr) (ps : List EndpointPort) (name : String)
    (protocol : KubeProtocol) (b : ℕ)
    → (backend_port_from parse_ip ps name protocol ≡ some b) ↔ IsFirst ps name protocol b
unfolding backend_port_from
backend_port_from_iff parse_ip [] name protocol b = (λ h. cc, λ h. absurd h)
backend_port_from_iff parse_ip (p ∷ ps) name protocol b =
    go p.name p.port p.protocol (backend_port_from_iff parse_ip ps name protocol b)
  where
    Goal : Option String → Option ℕ → Option String → Type 0
    Goal n q t =
        (backend_port_from parse_ip (record { name = n; port = q; protocol = t } ∷ ps) name protocol
          ≡ some b)
        ↔ IsFirst (record { name = n; port = q; protocol = t } ∷ ps) name protocol b

    Rest : Type 0
    Rest = (backend_port_from parse_ip ps name protocol ≡ some b) ↔ IsFirst ps name protocol b

    -- A port that does not fit is passed over.
    passed :
        (n : Option String) (q : Option ℕ) (t : Option String)
        → ((port : ℕ) → ¬ (Fits (record { name = n; port = q; protocol = t }) name protocol port))
        → Rest
        → (backend_port_from parse_ip ps name protocol ≡ some b)
          ↔ IsFirst (record { name = n; port = q; protocol = t } ∷ ps) name protocol b
    passed n q t unfit (out, into) = (
      λ h. inr (unfit, out h),
      λ h. elim h [ inl (port, f, _) ↦ absurd (unfit port f) | inr (_, i) ↦ into i ],
    )

    go : (n : Option String) (q : Option ℕ) (t : Option String) → Rest → Goal n q t
    go none q t rest = passed none q t (λ port (f, _, _). cc) rest
    go (some n) none t rest = passed (some n) none t (λ port (_, f, _). cc) rest
    go (some n) (some port) t rest = elim (Bool-cases (str_eq n name)) [
      | inr e ↦ rw e (
          passed (some n) (some port) t
            (λ x (f, _, _).
              let same : n ≡ name = cc in
              let e' : str_eq n name ≡ true = (eq_iff n name).1 same in cc)
            rest)
      | inl e ↦
          let same : n ≡ name = (eq_iff n name).0 e in
          elim (KubeProtocol-discrete (kube_proto_from_str t) protocol) [
            | no ne ↦
                rw
                  (
                    e,
                    if_neg (KubeProtocol-discrete (kube_proto_from_str t) protocol) ne
                        (some (port % 2 ^ 16)) (backend_port_from parse_ip ps name protocol),
                  )
                  (passed (some n) (some port) t (λ x (_, _, f). ne f) rest)
            | yes fits ↦
                rw
                  (
                    e,
                    if_pos (KubeProtocol-discrete (kube_proto_from_str t) protocol) fits
                        (some (port % 2 ^ 16)) (backend_port_from parse_ip ps name protocol),
                  )
                  (
                    λ h.
                        inl (
                          port,
                          (ap some same, refl, fits),
                          let z : port % 2 ^ 16 ≡ b = cc in sym z,
                        ),
                    λ h. elim h [
                      | inl (x, (_, f, _), g) ↦
                          let z : port ≡ x = cc in ap some (ap (λ y. y % 2 ^ 16) z ∙ sym g)
                      | inr (unfit, _) ↦ absurd (unfit port (ap some same, refl, fits))
                    ],
                  )
          ]
    ]

pub backend_port_from_ep_slice-IsFirst :
    (parse_ip : String → Option IpAddr) (slice : EndpointSlice) (name : String)
    (protocol : KubeProtocol) (b : ℕ)
    → (backend_port_from_ep_slice parse_ip slice name protocol ≡ some b)
      ↔ ((ports : List EndpointPort) × (slice.ports ≡ some ports) × IsFirst ports name protocol b)
unfolding backend_port_from_ep_slice
backend_port_from_ep_slice-IsFirst parse_ip slice name protocol b = go slice.ports
  where
    go :
        (o : Option (List EndpointPort))
        → (elim o [ none ↦ none | some ports ↦ backend_port_from parse_ip ports name protocol ]
            ≡ some b)
          ↔ ((ports : List EndpointPort) × (o ≡ some ports) × IsFirst ports name protocol b)
    go none = (λ h. cc, λ (_, h, _). cc)
    go (some ports) =
        let (out, into) = backend_port_from_iff parse_ip ports name protocol b in
        (
          λ h. (ports, refl, out h),
          λ (ps, h, i). let same : ps ≡ ports = cc in into (rw (← same) i),
        )
