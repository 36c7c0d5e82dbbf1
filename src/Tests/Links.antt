-- ===== src/Tests/Links.antt =====
-- The agent's answers on a kernel whose only calls that fail are those that pin a taken path.
use mesh_cni.Plugin.{AddPodRequest, AddPodReply, DeletePodRequest}
use mesh_cni.Pods.{
  Tc, FromPin, attach_and_pin_links, unpin_found, unpin_existing, unpin_path, after_egress, add_pod,
  delete_pod, pin_path,
}
use mesh_cni.Pods.Links.{BothPinned, Neither, add_pod-After, delete_pod-add_pod}
use mesh_cni.Pods.Pins.{IsTc, write, Shows}
use mesh_cni.Prelude.{
  String, Bool, true, false, if◌then◌else◌, [], none, ◌≡◌, refl, ◌⊎◌, inl, inr, Bool-cases,
}
use mesh_cni.Prelude.Result.{Result, ok, err}
use mesh_cni.Prelude.Triple.{After}

abbrev Pins : Type 0
Pins = String → Bool

abbrev pin_free : String → Pins → Bool → Result (Unit {0}) × Pins
pin_free p s true = (err "File exists", s)
pin_free p s false = (ok tt, write p true s)

abbrev kernel : Tc Pins (Unit {0}) (Unit {0}) (Unit {0}) (Unit {0}) String
kernel = record {
  qdisc_add_clsact = λ iface s. (ok tt, s);
  classifier_from_pin = λ p s. (ok tt, s);
  attach = λ prog iface t s. (ok tt, s);
  take_link = λ prog id s. (ok tt, s);
  fd_link = λ link. ok tt;
  pin = λ l p s. pin_free p s (s p);
  try_exists = λ s p. ok (s p);
  from_pin = λ s p. if s p then FromPin.found p else FromPin.not_found;
  unpin = λ p s. (ok tt, write p false s);
}

kernel-pin :
    (p : String) (s : Pins) (b : Bool)
    → After (λ a t. t ≡ write p true s) (λ t. t ≡ s) (pin_free p s b)
kernel-pin p s true = refl
kernel-pin p s false = refl

kernel-taken :
    (p : String) (s : Pins) → s p ≡ true → (e : String) × ((pin_free p s (s p)).0 ≡ err e)
kernel-taken p s h = ("File exists", rw h)

kernel-found :
    (p q : String) (b : Bool)
    → (if b then FromPin.found p else FromPin.not_found) ≡ FromPin.found q
    → q ≡ p
kernel-found p q true h = cc
kernel-found p q false h = cc

kernel-not_found :
    (p : String) (b : Bool)
    → (if b then FromPin.found p else FromPin.not_found) ≡ FromPin.not_found
    → b ≡ false
kernel-not_found p true h = cc
kernel-not_found p false h = refl

kernel-exists : (b c : Bool) → ok b ≡ ok c → b ≡ c
kernel-exists b c h = cc

abbrev kernel-IsTc : IsTc kernel
kernel-IsTc = record {
  view = λ s. s;
  path = λ p. p;
  qdisc_quiet = λ iface s. refl;
  classifier_quiet = λ p s. refl;
  attach_quiet = λ prog iface t s. refl;
  take_quiet = λ prog id s. refl;
  pin_After = λ l p s. kernel-pin p s (s p);
  pin_taken = λ l p s h. kernel-taken p s h;
  exists_view = λ s p b h. kernel-exists (s p) b h;
  found_path = λ s p l h. kernel-found p l (s p) h;
  not_found_view = λ s p h. kernel-not_found p (s p) h;
  unpin_After = λ l s. refl;
}

kernel-unpins : (p : String) (s : Pins) → (unpin_path kernel p s).0 ≡ ok tt
unfolding unpin_path unpin_existing unpin_found
kernel-unpins p s = elim (Bool-cases (s p)) [
  | inl e ↦ rw (e, unpin_path) (rw e)
  | inr e ↦ rw (e, unpin_path)
]

abbrev veth : AddPodRequest
veth = record { iface = "veth0"; net_namespace = none; container_id = "c1"; chained = true }

abbrev veth_gone : DeletePodRequest
veth_gone = record { iface = "veth0"; net_namespace = none; container_id = "c1"; chained = true }

abbrev no_pins : Pins
no_pins p = false

abbrev reply : AddPodReply
reply = record { interfaces = []; ips = []; routes = []; dns = none }

add_pod-After_example :
    After
      (λ a. BothPinned kernel-IsTc "veth0" no_pins)
      (λ t. Shows kernel-IsTc no_pins t ⊎ Neither kernel-IsTc "veth0" no_pins t)
      (add_pod kernel veth no_pins)
add_pod-After_example = add_pod-After kernel-IsTc veth no_pins kernel-unpins

abbrev with_veth : Pins
with_veth = (add_pod kernel veth no_pins).1

added : (add_pod kernel veth no_pins).0 ≡ ok reply
unfolding add_pod attach_and_pin_links after_egress pin_path
added = refl

deleted : (delete_pod kernel veth_gone with_veth).0 ≡ ok tt
unfolding add_pod delete_pod attach_and_pin_links after_egress unpin_path unpin_existing unpin_found
    pin_path
deleted = refl

delete_pod-add_pod_example :
    (delete_pod kernel veth_gone (add_pod kernel veth no_pins).1).1 ≡ no_pins
delete_pod-add_pod_example =
    delete_pod-add_pod kernel-IsTc veth veth_gone no_pins reply refl kernel-unpins added deleted
