-- ===== src/Pods/Links.antt =====
-- The links that are pinned after `add_pod` and `delete_pod`.
use mesh_cni.Plugin.{AddPodRequest, AddPodReply, DeletePodRequest}
use mesh_cni.Pods.{
  Tc, TcAttachType, pin_path, attach_and_pin_links, unpin_path, after_egress, add_pod, delete_pod,
}
use mesh_cni.Loader.{bpf_program_ingress_tc, path}
use mesh_cni.Prelude.{String, Bool, true, false, ◌≡◌, refl, sym, ap, ◌∙◌, ◌⊎◌, inl, inr}
use mesh_cni.Prelude.Result.{Result, ok, err, Result-cases, then_do_err}
use mesh_cni.Prelude.Triple.{After, After-ok, After-err, After-map, then_do-After}
use text.Mathlib.Text.{◌==◌ as str_eq}
use mesh_cni.Pods.Pins.{
  write, IsTc, write-write, erase_both, if_false, egress-ne-ingress, Shows, PinnedAt,
  attach_and_pin_links-After, unpin_path-After,
}

module _ {S Prog LinkId Link FdLink Pinned : Type 0} {tc : Tc S Prog LinkId Link FdLink Pinned}
    (laws : IsTc tc) where
  open laws use {view}

  abbrev pub ingress_path : String → String
  ingress_path iface = pin_path iface TcAttachType.ingress

  abbrev pub egress_path : String → String
  egress_path iface = pin_path iface TcAttachType.egress

  -- Both paths were free and are pinned.
  abbrev pub BothPinned : String → (String → Bool) → S → Type 0
  BothPinned iface v s =
      (v (ingress_path iface) ≡ false)
      × (v (egress_path iface) ≡ false)
      × (view s ≡ write (egress_path iface) true (write (ingress_path iface) true v))

  abbrev pub Neither : String → (String → Bool) → S → Type 0
  Neither iface v s = view s ≡ write (egress_path iface) false (write (ingress_path iface) false v)

  -- The clean-up after the egress link failed.
  after_egress-After :
      (iface : String) (v : String → Bool)
      → v (ingress_path iface) ≡ false
      → ((p : String) (t : S) → (unpin_path tc p t).0 ≡ ok tt)
      → (r : Result (Unit {0}) × S)
      → After
          (λ a. PinnedAt laws (egress_path iface) (write (ingress_path iface) true v))
          (Shows laws (write (ingress_path iface) true v))
          r
      → After
          (λ a. BothPinned iface v)
          (λ t. Shows laws v t ⊎ Neither iface v t)
          (after_egress tc iface r)
  unfolding after_egress
  after_egress-After iface v free unpins (ok a, s) h = (
    free,
    sym (if_false (str_eq (egress_path iface) (ingress_path iface)) _ _ (egress-ne-ingress iface))
        ∙ h.0,
    h.1,
  )
  after_egress-After iface v free unpins (err e, s) h =
      let i = ingress_path iface in
      let g = egress_path iface in
      let one =
        After-ok _ _ (unpin_path tc i s) tt (unpin_path-After laws i (write i true v) s h)
          (unpins i s)
        ∙ write-write i false true v in
      let t = (unpin_path tc i s).1 in
      inr (
        After-ok _ _ (unpin_path tc g t) tt (unpin_path-After laws g (write i false v) t one)
          (unpins g t))

  -- If what is pinned can be unpinned, `add_pod` returns `Ok` only where neither link of the
  -- interface was pinned, and pins both; where it fails, it leaves all pins as they were, or
  -- neither link pinned. No other path changes.
  pub add_pod-After :
      (request : AddPodRequest) (s : S)
      → ((p : String) (t : S) → (unpin_path tc p t).0 ≡ ok tt)
      → After
          (λ a. BothPinned request.iface (view s))
          (λ t. Shows laws (view s) t ⊎ Neither request.iface (view s) t)
          (add_pod tc request s)
  unfolding add_pod
  add_pod-After request s unpins =
      let s1 = (tc.qdisc_add_clsact request.iface s).1 in
      let first =
        attach_and_pin_links tc request.iface (path bpf_program_ingress_tc) TcAttachType.ingress
          s1 in
      then_do-After (λ a. PinnedAt laws (ingress_path request.iface) (view s)) _ _ first _
        (After-map _ _ _ _ first (λ a t h. h) (λ t h. inl h)
          (attach_and_pin_links-After laws request.iface (path bpf_program_ingress_tc)
            TcAttachType.ingress (view s) s1 (laws.qdisc_quiet request.iface s)))
        (λ a t h.
          after_egress-After request.iface (view s) h.0 unpins
            (attach_and_pin_links tc request.iface (path bpf_program_ingress_tc) TcAttachType.egress
              t)
            (attach_and_pin_links-After laws request.iface (path bpf_program_ingress_tc)
              TcAttachType.egress _ t h.1))

  -- `delete_pod` unpins both links, or stops at the first error.
  pub delete_pod-After :
      (request : DeletePodRequest) (s : S)
      → After
          (λ a t.
            view t
            ≡ write
                (egress_path request.iface)
                false
                (write (ingress_path request.iface) false (view s)))
          (λ t. (view t ≡ view s) ⊎ (view t ≡ write (ingress_path request.iface) false (view s)))
          (delete_pod tc request s)
  unfolding delete_pod
  delete_pod-After request s =
      then_do-After (λ a t. view t ≡ write (ingress_path request.iface) false (view s)) _ _
        (unpin_path tc (ingress_path request.iface) s) _
        (After-map _ _ _ _ (unpin_path tc (ingress_path request.iface) s) (λ a t h. h)
          (λ t h. inl h) (unpin_path-After laws (ingress_path request.iface) (view s) s refl))
        (λ a t h.
          After-map _ _ _ _ (unpin_path tc (egress_path request.iface) t) (λ b u g. g)
            (λ u g. inr g) (unpin_path-After laws (egress_path request.iface) _ t h))

  -- A DEL after an ADD of the same interface restores the pins, where both return `Ok` and what is
  -- pinned can be unpinned.
  pub delete_pod-add_pod :
      (add : AddPodRequest) (delete : DeletePodRequest) (s : S) (reply : AddPodReply)
      → delete.iface ≡ add.iface
      → ((p : String) (t : S) → (unpin_path tc p t).0 ≡ ok tt)
      → (add_pod tc add s).0 ≡ ok reply
      → (delete_pod tc delete (add_pod tc add s).1).0 ≡ ok tt
      → view (delete_pod tc delete (add_pod tc add s).1).1 ≡ view s
  delete_pod-add_pod add delete s reply same unpins added deleted =
      let t = (add_pod tc add s).1 in
      let (free_i, free_g, both) =
        After-ok (λ a. BothPinned add.iface (view s)) _ (add_pod tc add s) reply
          (add_pod-After add s unpins) added in
      let neither =
        After-ok (λ a. Neither delete.iface (view t)) _ (delete_pod tc delete t) tt
          (delete_pod-After delete t) deleted in
      neither
      ∙ ap (λ i. write (egress_path i) false (write (ingress_path i) false (view t))) same
      ∙ ap (λ v. write (egress_path add.iface) false (write (ingress_path add.iface) false v)) both
      ∙ erase_both (ingress_path add.iface) (egress_path add.iface) (view s) free_i free_g

  -- An ADD of an interface whose ingress link is pinned fails and leaves all pins as they were.
  pub add_pod_again :
      (request : AddPodRequest) (s : S)
      → view s (ingress_path request.iface) ≡ true
      → (e : String) × ((add_pod tc request s).0 ≡ err e) × (view (add_pod tc request s).1 ≡ view s)
  unfolding add_pod
  add_pod_again request s taken =
      let s1 = (tc.qdisc_add_clsact request.iface s).1 in
      let first =
        attach_and_pin_links tc request.iface (path bpf_program_ingress_tc) TcAttachType.ingress
          s1 in
      let after =
        attach_and_pin_links-After laws request.iface (path bpf_program_ingress_tc)
          TcAttachType.ingress (view s) s1 (laws.qdisc_quiet request.iface s) in
      elim (Result-cases first.0) [
        | inl (a, q) ↦
            let free =
              After-ok (λ a. PinnedAt laws (ingress_path request.iface) (view s)) _ first a after
                q in
            cc
        | inr (e, q) ↦
            let stopped = then_do_err first _ q in
            (
              e,
              ap (λ r. r.0) stopped,
              ap (λ r. view r.1) stopped
                  ∙ After-err (λ a. PinnedAt laws (ingress_path request.iface) (view s))
                      (Shows laws (view s)) first e after q,
            )
      ]
