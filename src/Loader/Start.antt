-- ===== src/Loader/Start.antt =====
-- What is pinned after the agent's start.
use mesh_cni.Loader.Pinned.{
  IsKernel, Pinned, Pins, first, last, next, anything, onto, attach-Pins, pin_maps-Pins,
  ensure_ingress-Pins,
}
use mesh_cni.Loader.{
  BpfNamePath, Object, Kernel, path, bpf_program_ingress_tc, bpf_program_cgroup_connect_v4,
  policy_maps_list, service_maps_list, prog_list, start_ebpf_logger_from_prog_id, start_ebpf_logger,
  pin_maps, all_exist, pins_exist, ensure_ingress_program, attach_cgroup_connect_bpf_program,
  load_and_pin, init_bpf, reset_pins,
}
use mesh_cni.Prelude.{
  ℕ, String, List, [], ◌∷◌, ◌++◌, Bool, true, false, ◌≡◌, refl, ap, ◌∙◌, ◌⊎◌, inl, inr, IsIn,
  IsIn-append, IsIn-append_left, IsIn-append_right, if◌then◌else◌,
}
use mesh_cni.Prelude.Result.{Result, ok, err, Proc, Keeps, bind-Keeps, then_do, and_then, lift}
use mesh_cni.Prelude.Triple.{After-ok, Quiet}

IsIn-onto :
    (x : BpfNamePath) (xs ys : List BpfNamePath) → IsIn x xs ⊎ IsIn x ys → IsIn x (onto xs ys)
IsIn-onto x [] ys (inl i) = absurd i
IsIn-onto x [] ys (inr i) = i
IsIn-onto x (o ∷ rest) ys (inl (inl e)) = IsIn-onto x rest (o ∷ ys) (inr (inl e))
IsIn-onto x (o ∷ rest) ys (inl (inr i)) = IsIn-onto x rest (o ∷ ys) (inl i)
IsIn-onto x (o ∷ rest) ys (inr i) = IsIn-onto x rest (o ∷ ys) (inr (inr i))

abbrev pinned_in_order : List BpfNamePath
pinned_in_order =
    onto policy_maps_list
      (bpf_program_ingress_tc ∷ onto service_maps_list (bpf_program_cgroup_connect_v4 ∷ []))

IsIn-order :
    (x : BpfNamePath)
    → IsIn x ((service_maps_list ++ policy_maps_list) ++ prog_list)
    → IsIn x pinned_in_order
IsIn-order x i =
    let connect = bpf_program_cgroup_connect_v4 ∷ [] in
    let services = onto service_maps_list connect in
    elim (IsIn-append x (service_maps_list ++ policy_maps_list) prog_list i) [
      | inl j ↦ elim (IsIn-append x service_maps_list policy_maps_list j) [
        | inl a ↦
            IsIn-onto x policy_maps_list (bpf_program_ingress_tc ∷ services)
              (inr (inr (IsIn-onto x service_maps_list connect (inl a))))
        | inr b ↦ IsIn-onto x policy_maps_list (bpf_program_ingress_tc ∷ services) (inl b)
      ]
      | inr (inl e) ↦
          IsIn-onto x policy_maps_list (bpf_program_ingress_tc ∷ services)
            (inr (inr (IsIn-onto x service_maps_list connect (inr (inl e)))))
      | inr (inr (inl e)) ↦
          IsIn-onto x policy_maps_list (bpf_program_ingress_tc ∷ services) (inr (inl e))
      | inr (inr (inr e)) ↦ absurd e
    ]

-- The objects that `pins_exist` looks for.
abbrev pub objects : List BpfNamePath
objects = (service_maps_list ++ policy_maps_list) ++ prog_list

module _ {S Ebpf MapData Prog File LinkId Link FdLink Logger : Type 0}
    {k : Kernel S Ebpf MapData Prog File LinkId Link FdLink Logger} (laws : IsKernel k) where
  open laws use {view}

  Quiet-Keeps :
      {A : Type 0} (v : String → Bool) (m : Proc S A) → Quiet view m → Keeps (λ t. view t ≡ v) m
  Quiet-Keeps v m q s h = q s ∙ h

  from_prog_id-Keeps :
      (v : String → Bool) (id : ℕ) → Keeps (λ t. view t ≡ v) (start_ebpf_logger_from_prog_id k id)
  unfolding start_ebpf_logger_from_prog_id
  from_prog_id-Keeps v id =
      bind-Keeps (λ t. view t ≡ v) (k.logger_from_id id) _
        (Quiet-Keeps v (k.logger_from_id id) (laws.logger_quiet id)) (λ logger s h. h)

  start_ebpf_logger-Keeps : (v : String → Bool) → Keeps (λ t. view t ≡ v) (start_ebpf_logger k)
  unfolding start_ebpf_logger
  start_ebpf_logger-Keeps v =
      let P : S → Type 0 = λ t. view t ≡ v in
      let connect = path bpf_program_cgroup_connect_v4 in
      let ingress = path bpf_program_ingress_tc in
      bind-Keeps P (k.sock_addr_from_pin connect) _
        (Quiet-Keeps v (k.sock_addr_from_pin connect) (laws.sock_addr_quiet connect))
        λ prog.
          bind-Keeps P (lift (k.info_id prog)) _ (λ s h. h)
            λ id.
              bind-Keeps P (start_ebpf_logger_from_prog_id k id) _ (from_prog_id-Keeps v id) λ _.
                bind-Keeps P (k.classifier_from_pin ingress) _
                  (Quiet-Keeps v (k.classifier_from_pin ingress) (laws.classifier_quiet ingress))
                  λ prog. bind-Keeps P (lift (k.info_id prog)) _ (λ s h. h) (from_prog_id-Keeps v)

  load_and_pin-Pins : Pins laws [] (load_and_pin k) pinned_in_order
  unfolding load_and_pin
  load_and_pin-Pins =
      let connect = bpf_program_cgroup_connect_v4 ∷ [] in
      let service = onto service_maps_list connect in
      let both = bpf_program_ingress_tc ∷ service in
      next laws [] [] pinned_in_order (reset_pins k) _ (anything laws (reset_pins k)) λ _.
        next laws [] [] pinned_in_order (k.load Object.mesh_cni_service) _
          (anything laws (k.load Object.mesh_cni_service))
          λ service_ebpf.
            next laws [] connect pinned_in_order (attach_cgroup_connect_bpf_program k service_ebpf)
              _ (attach-Pins laws service_ebpf)
              λ _.
                next laws connect service pinned_in_order
                  (pin_maps k service_ebpf service_maps_list) _
                  (pin_maps-Pins laws service_ebpf service_maps_list connect)
                  λ _.
                    first laws service pinned_in_order (k.load Object.mesh_cni_policy) _
                      (λ q. laws.load_Keeps q _)
                      λ policy_ebpf.
                        next laws service both pinned_in_order
                          (ensure_ingress_program k policy_ebpf) _
                          (ensure_ingress-Pins laws policy_ebpf service)
                          λ _.
                            next laws both pinned_in_order pinned_in_order
                              (pin_maps k policy_ebpf policy_maps_list) _
                              (pin_maps-Pins laws policy_ebpf policy_maps_list both)
                              λ _. last laws pinned_in_order (start_ebpf_logger k) (λ q s h.
                                ap (λ w. w q) (start_ebpf_logger-Keeps (view s) s refl) ∙ h)

  all_exist-true :
      (objects : List BpfNamePath) (s : S)
      → ((o : BpfNamePath) → IsIn o objects → k.exists s (path o) ≡ ok true)
      → all_exist k objects s ≡ ok true
  unfolding all_exist
  all_exist-true [] s h = refl
  all_exist-true (o ∷ rest) s h =
      rw (h o (inl refl), all_exist) (all_exist-true rest s (λ x i. h x (inr i)))

  all_exist-Pinned :
      (objects : List BpfNamePath) (s : S) → all_exist k objects s ≡ ok true → Pinned laws objects s
  unfolding all_exist
  all_exist-Pinned [] s h = λ x i. absurd i
  all_exist-Pinned (o ∷ rest) s h = go (all_exist-Pinned rest s) (k.exists s (path o)) refl h
    where
      go :
          (all_exist k rest s ≡ ok true → Pinned laws rest s)
          → (r : Result Bool) → k.exists s (path o) ≡ r
          → and_then r (λ found. if found then all_exist k rest s else ok false) ≡ ok true
          → Pinned laws (o ∷ rest) s
      go later (ok true) e g =
          λ x i. elim i [ inl q ↦ rw q (laws.exists_view s (path o) true e) | inr j ↦ later g x j ]
      go later (ok false) e g = cc
      go later (err x) e g = cc

  pins_exist-Pinned : (s : S) → pins_exist k s ≡ ok true → Pinned laws objects s
  unfolding pins_exist
  pins_exist-Pinned s h = go (all_exist k (service_maps_list ++ policy_maps_list) s) refl h
    where
      go :
          (r : Result Bool)
          → all_exist k (service_maps_list ++ policy_maps_list) s ≡ r
          → and_then r (λ found. if found then all_exist k prog_list s else ok false) ≡ ok true
          → Pinned laws objects s
      go (ok true) e g = λ x i.
          elim (IsIn-append x (service_maps_list ++ policy_maps_list) prog_list i) [
            | inl j ↦ all_exist-Pinned (service_maps_list ++ policy_maps_list) s e x j
            | inr j ↦ all_exist-Pinned prog_list s g x j
          ]
      go (ok false) e g = cc
      go (err x) e g = cc

  pins_exist-true :
      (s : S)
      → ((o : BpfNamePath) → IsIn o objects → k.exists s (path o) ≡ ok true)
      → pins_exist k s ≡ ok true
  unfolding pins_exist
  pins_exist-true s h =
      let maps = service_maps_list ++ policy_maps_list in
      rw (all_exist-true maps s (λ x i. h x (IsIn-append_left x maps prog_list i)), pins_exist)
        (all_exist-true prog_list s (λ x i. h x (IsIn-append_right x maps prog_list i)))

  -- If `init_bpf` returns `Ok`, whether it found the pins or made them, every map and program that
  -- `pins_exist` looks for is pinned.
  pub init_bpf-Pinned : (s : S) → (init_bpf k s).0 ≡ ok tt → Pinned laws objects (init_bpf k s).1
  unfolding init_bpf
  init_bpf-Pinned s h = go (pins_exist k s) refl h
    where
      go :
          (r : Result Bool)
          → pins_exist k s ≡ r
          → (then_do (lift r s) (λ found. if found then start_ebpf_logger k else load_and_pin k)).0
            ≡ ok tt
          → Pinned laws objects
              (then_do
                (lift r s)
                (λ found. if found then start_ebpf_logger k else load_and_pin k)).1
      go (ok true) e g = λ o i.
          ap (λ w. w (path o)) (start_ebpf_logger-Keeps (view s) s refl) ∙ pins_exist-Pinned s e o i
      go (ok false) e g = λ o i.
          After-ok (λ a. Pinned laws pinned_in_order) (λ t. Unit) (load_and_pin k s) tt
            (load_and_pin-Pins s (λ o i. absurd i)) g o (IsIn-order o i)
      go (err x) e g = cc

  -- A start that finds every map and program pinned changes no file, whatever it returns.
  pub init_bpf_restart :
      (s : S)
      → ((o : BpfNamePath) → IsIn o objects → k.exists s (path o) ≡ ok true)
      → view (init_bpf k s).1 ≡ view s
  unfolding init_bpf
  init_bpf_restart s h =
      rw (pins_exist-true s h, init_bpf) (start_ebpf_logger-Keeps (view s) s refl)
