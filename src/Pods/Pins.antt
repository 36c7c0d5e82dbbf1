-- ===== src/Pods/Pins.antt =====
-- What one link of an interface changes of the pinned paths.
use mathlib.Core.Path.{fun_ext}
use mesh_cni.Pods.{
  Tc, TcAttachType, FromPin, pin_path, attach_and_pin_links, unpin_found, unpin_existing,
  unpin_path,
}
use mesh_cni.Prelude.{
  String, Bool, true, false, if◌then◌else◌, ◌≡◌, refl, sym, ap, ◌∙◌, inl, inr, Bool-cases, arith,
}
use mesh_cni.Prelude.Result.{Result, ok, err, Proc, ◌>>=◌, lift}
use mesh_cni.Prelude.Triple.{After, After-map, Triple, Quiet, Quiet->>=}
use text.Mathlib.TextEquality.{eq_iff}
use text.Mathlib.TextLemmas.{append_cancel_left}
use text.Mathlib.Text.{◌==◌ as str_eq}

-- The pinned paths after one of them was pinned or unpinned.
abbrev pub write : String → Bool → (String → Bool) → String → Bool
write p b v q = if str_eq q p then b else v q

-- What the agent relies on: only `pin` and `unpin` change what is pinned, a call that fails
-- changes nothing, and a path that is taken is not pinned again.
pub record IsTc {S Prog LinkId Link FdLink Pinned : Type 0}
    (tc : Tc S Prog LinkId Link FdLink Pinned) : Type 0 where
  pub view : S → String → Bool
  pub path : Pinned → String
  pub qdisc_quiet : (iface : String) → Quiet view (tc.qdisc_add_clsact iface)
  pub classifier_quiet : (p : String) → Quiet view (tc.classifier_from_pin p)
  pub attach_quiet :
      (prog : Prog) (iface : String) (t : TcAttachType) → Quiet view (tc.attach prog iface t)
  pub take_quiet : (prog : Prog) (id : LinkId) → Quiet view (tc.take_link prog id)
  pub pin_After :
      (l : FdLink) (p : String) (s : S)
      → After (λ a t. view t ≡ write p true (view s)) (λ t. view t ≡ view s) (tc.pin l p s)
  pub pin_taken :
      (l : FdLink) (p : String) (s : S)
      → view s p ≡ true
      → (e : String) × ((tc.pin l p s).0 ≡ err e)
  pub exists_view : (s : S) (p : String) (b : Bool) → tc.try_exists s p ≡ ok b → view s p ≡ b
  pub found_path :
      (s : S) (p : String) (l : Pinned) → tc.from_pin s p ≡ FromPin.found l → path l ≡ p
  pub not_found_view : (s : S) (p : String) → tc.from_pin s p ≡ FromPin.not_found → view s p ≡ false
  pub unpin_After :
      (l : Pinned) (s : S)
      → After (λ a t. view t ≡ write (path l) false (view s)) (λ t. view t ≡ view s) (tc.unpin l s)

write_same : (p : String) (v : String → Bool) → v p ≡ false → write p false v ≡ v
write_same p v h = fun_ext λ q. elim (Bool-cases (str_eq q p)) [
  | inl e ↦ rw e (sym (ap v ((eq_iff q p).0 e) ∙ h))
  | inr e ↦ rw e
]

pub write-write :
    (p : String) (b c : Bool) (v : String → Bool) → write p b (write p c v) ≡ write p b v
write-write p b c v = fun_ext λ q. ground arith

pub erase_both :
    (i g : String) (v : String → Bool)
    → v i ≡ false
    → v g ≡ false
    → write g false (write i false (write g true (write i true v))) ≡ v
erase_both i g v hi hg = fun_ext λ q. elim (Bool-cases (str_eq q g)) [
  | inl e ↦ rw e (sym (ap v ((eq_iff q g).0 e) ∙ hg))
  | inr e ↦ elim (Bool-cases (str_eq q i)) [
    | inl f ↦ rw (e, f) (sym (ap v ((eq_iff q i).0 f) ∙ hi))
    | inr f ↦ rw (e, f)
  ]
]

pub if_false : (b : Bool) (x y : Bool) → b ≡ false → (if b then x else y) ≡ y
if_false b x y h = rw h

pub egress-ne-ingress :
    (iface : String)
    → str_eq (pin_path iface TcAttachType.egress) (pin_path iface TcAttachType.ingress) ≡ false
unfolding pin_path
egress-ne-ingress iface = elim (Bool-cases _) [
  | inr e ↦ e
  | inl e ↦
      let h =
        (eq_iff (pin_path iface TcAttachType.egress) (pin_path iface TcAttachType.ingress)).0 e in
      let e =
        append_cancel_left iface _ _
          (append_cancel_left _ _ _ (append_cancel_left _ _ _ (append_cancel_left _ _ _ h))) in
      let differ : str_eq "_egress" "_ingress" ≡ false = refl in
      cc ((eq_iff "_egress" "_ingress").1 e, differ)
]

module _ {S Prog LinkId Link FdLink Pinned : Type 0} {tc : Tc S Prog LinkId Link FdLink Pinned}
    (laws : IsTc tc) where
  open laws use {view}

  abbrev pub Shows : (String → Bool) → S → Type 0
  Shows v s = view s ≡ v

  -- `p` was free and is pinned.
  abbrev pub PinnedAt : String → (String → Bool) → S → Type 0
  PinnedAt p v s = (v p ≡ false) × (view s ≡ write p true v)

  pin-After :
      (l : FdLink) (p : String) (s : S)
      → After (λ a. PinnedAt p (view s)) (Shows (view s)) (tc.pin l p s)
  pin-After l p s = elim (Bool-cases (view s p)) [
    | inl taken ↦
        let (e, refused) = laws.pin_taken l p s taken in
        pin_refused (tc.pin l p s) e refused (laws.pin_After l p s)
    | inr free ↦
        After-map _ _ _ _ (tc.pin l p s) (λ a t h. (free, h)) (λ t h. h) (laws.pin_After l p s)
  ]
    where
      pin_refused :
          (r : Result (Unit {0}) × S) (e : String)
          → r.0 ≡ err e
          → After (λ a. Shows (write p true (view s))) (Shows (view s)) r
          → After (λ a. PinnedAt p (view s)) (Shows (view s)) r
      pin_refused (ok a, t) e h k = cc
      pin_refused (err x, t) e h k = k

  Quiet-first :
      {A : Type 0} (p : String) (v : String → Bool) (m : Proc S A) (f : A → Proc S (Unit {0}))
      → Quiet view m
      → ((a : A) → Triple (Shows v) (f a) (λ a. PinnedAt p v) (Shows v))
      → Triple (Shows v) (m >>= f) (λ a. PinnedAt p v) (Shows v)
  Quiet-first p v m f = Quiet->>= view v (λ a. PinnedAt p v) (Shows v) m f (λ s h. h)

  pub attach_and_pin_links-After :
      (iface path : String) (t : TcAttachType) (v : String → Bool)
      → Triple
          (Shows v)
          (attach_and_pin_links tc iface path t)
          (λ a. PinnedAt (pin_path iface t) v)
          (Shows v)
  unfolding attach_and_pin_links
  attach_and_pin_links-After iface path t v =
      let p = pin_path iface t in
      let pinning : Link → Proc S (Unit {0}) =
        λ link. lift (tc.fd_link link) >>= λ fd. tc.pin fd p in
      let taking : Prog → LinkId → Proc S (Unit {0}) =
        λ prog id. tc.take_link prog id >>= pinning in
      let attaching : Prog → Proc S (Unit {0}) = λ prog. tc.attach prog iface t >>= taking prog in
      Quiet-first p v (tc.classifier_from_pin path) attaching (laws.classifier_quiet path) λ prog.
        Quiet-first p v (tc.attach prog iface t) (taking prog) (laws.attach_quiet prog iface t)
          λ id. Quiet-first p v (tc.take_link prog id) pinning (laws.take_quiet prog id) λ link.
            Quiet-first p v (lift (tc.fd_link link)) (λ fd. tc.pin fd p) (λ s. refl)
              λ fd s h.
                After-map _ _ _ _ (tc.pin fd p s)
                  (λ a t' e. (ap (λ w. w p) (sym h) ∙ e.0, e.1 ∙ ap (write p true) h))
                  (λ t' e. e ∙ h) (pin-After fd p s)

  pub unpin_path-After :
      (p : String) (v : String → Bool)
      → Triple (Shows v) (unpin_path tc p) (λ a. Shows (write p false v)) (Shows v)
  unfolding unpin_path unpin_existing unpin_found
  unpin_path-After p v s h = from_exists (tc.try_exists s p) refl
    where
      from_found :
          (r : FromPin Pinned)
          → tc.from_pin s p ≡ r
          → After (λ a. Shows (write p false v)) (Shows v) (unpin_found tc r s)
      from_found (FromPin.found l) e =
          After-map _ _ _ _ (tc.unpin l s)
            (λ a t q.
              q ∙ ap (λ x. write x false (view s)) (laws.found_path s p l e) ∙ ap (write p false) h)
            (λ t q. q ∙ h) (laws.unpin_After l s)
      from_found FromPin.not_found e =
          h ∙ sym (write_same p v (ap (λ w. w p) (sym h) ∙ laws.not_found_view s p e))
      from_found (FromPin.failed x) e = h

      from_exists :
          (r : Result Bool)
          → tc.try_exists s p ≡ r
          → After (λ a. Shows (write p false v)) (Shows v) (unpin_existing tc p r s)
      from_exists (ok true) e = from_found (tc.from_pin s p) refl
      from_exists (ok false) e =
          h ∙ sym (write_same p v (ap (λ w. w p) (sym h) ∙ laws.exists_view s p false e))
      from_exists (err x) e = h
