-- ===== src/Loader/Pinned.antt =====
-- What each step of the agent's start pins.
use mesh_cni.Loader.{
  BpfNamePath, Object, Kernel, Loaded, name, path, bpf_program_ingress_tc,
  bpf_program_cgroup_connect_v4, bpf_link_cgroup_connect_v4_path, cgroup_sys_dir, if_exists,
  or_missing, pin_maps, check_loaded, load_unless_loaded, to_fd_link, ensure_ingress_program,
  attach_cgroup_connect_bpf_program,
}
use mesh_cni.Prelude.{
  ℕ, String, List, [], ◌∷◌, Option, some, none, Bool, true, false, ◌≡◌, refl, inl, inr, IsIn,
  if◌then◌else◌,
}
use mesh_cni.Prelude.Result.{Result, ok, err, Proc, Keeps, ◌>>=◌, lift, pure, fail}
use mesh_cni.Prelude.Triple.{After, Triple, Quiet, then_do-After}

abbrev pub onto : List BpfNamePath → List BpfNamePath → List BpfNamePath
onto [] acc = acc
onto (o ∷ rest) acc = onto rest (o ∷ acc)

-- What the agent relies on: `exists` is right, no call but `remove_dir_all` removes a file, a pin
-- that succeeds makes one, and the logger makes none.
pub record IsKernel {S Ebpf MapData Prog File LinkId Link FdLink Logger : Type 0}
    (k : Kernel S Ebpf MapData Prog File LinkId Link FdLink Logger) : Type 0 where
  pub view : S → String → Bool
  pub exists_view : (s : S) (p : String) (b : Bool) → k.exists s p ≡ ok b → view s p ≡ b
  pub create_Keeps : (q d : String) → Keeps (λ s. view s q ≡ true) (k.create_dir_all d)
  pub open_Keeps : (q d : String) → Keeps (λ s. view s q ≡ true) (k.open_file d)
  pub load_Keeps : (q : String) (o : Object) → Keeps (λ s. view s q ≡ true) (k.load o)
  pub load_program_Keeps :
      (q : String) (prog : Prog) (s : S) → view s q ≡ true → view (k.load_program prog s).1 q ≡ true
  pub attach_Keeps :
      (q : String) (prog : Prog) (f : File) → Keeps (λ s. view s q ≡ true) (k.attach prog f)
  pub take_Keeps :
      (q : String) (prog : Prog) (id : LinkId) → Keeps (λ s. view s q ≡ true) (k.take_link prog id)
  pub pin_link_Keeps :
      (q : String) (l : FdLink) (p : String) → Keeps (λ s. view s q ≡ true) (k.pin_link l p)
  pub pin_map_Keeps :
      (q : String) (m : MapData) (p : String) → Keeps (λ s. view s q ≡ true) (k.pin_map m p)
  pub pin_map_ok :
      (m : MapData) (p : String) (s : S)
      → (k.pin_map m p s).0 ≡ ok tt
      → view (k.pin_map m p s).1 p ≡ true
  pub pin_program_Keeps :
      (q : String) (m : Prog) (p : String) → Keeps (λ s. view s q ≡ true) (k.pin_program m p)
  pub pin_program_ok :
      (m : Prog) (p : String) (s : S)
      → (k.pin_program m p s).0 ≡ ok tt
      → view (k.pin_program m p s).1 p ≡ true
  pub sock_addr_quiet : (p : String) → Quiet view (k.sock_addr_from_pin p)
  pub classifier_quiet : (p : String) → Quiet view (k.classifier_from_pin p)
  pub logger_quiet : (id : ℕ) → Quiet view (k.logger_from_id id)

module _ {S Ebpf MapData Prog File LinkId Link FdLink Logger : Type 0}
    {k : Kernel S Ebpf MapData Prog File LinkId Link FdLink Logger} (laws : IsKernel k) where
  open laws use {view}

  abbrev pub Pinned : List BpfNamePath → S → Type 0
  Pinned objects s = (o : BpfNamePath) → IsIn o objects → view s (path o) ≡ true

  -- Once `m` succeeds, `after` is pinned as well as `before`.
  abbrev pub Pins : {A : Type 0} → List BpfNamePath → Proc S A → List BpfNamePath → Type 0
  Pins before m after = Triple (Pinned before) m (λ a. Pinned after) (λ t. Unit)

  pub first :
      {A B : Type 0} (before after : List BpfNamePath) (m : Proc S A) (f : A → Proc S B)
      → ((q : String) → Keeps (λ s. view s q ≡ true) m)
      → ((a : A) → Pins before (f a) after)
      → Pins before (m >>= f) after
  first {A} before after m f keeps h s p =
      then_do-After (λ a. Pinned before) (λ a. Pinned after) (λ t. Unit) (m s) f
        (kept (m s) (λ o i. keeps (path o) s (p o i))) h
    where
      kept : (r : Result A × S) → Pinned before r.1 → After (λ a. Pinned before) (λ t. Unit) r
      kept (ok a, t) h = h
      kept (err e, t) h = tt

  pub last :
      {A : Type 0} (before : List BpfNamePath) (m : Proc S A)
      → ((q : String) → Keeps (λ s. view s q ≡ true) m)
      → Pins before m before
  last {A} before m keeps s p = kept (m s) (λ o i. keeps (path o) s (p o i))
    where
      kept : (r : Result A × S) → Pinned before r.1 → After (λ a. Pinned before) (λ t. Unit) r
      kept (ok a, t) h = h
      kept (err e, t) h = tt

  -- A call that pins one object.
  adds :
      (before : List BpfNamePath) (o : BpfNamePath) (m : Proc S (Unit {0}))
      → ((q : String) → Keeps (λ s. view s q ≡ true) m)
      → ((s : S) → (m s).0 ≡ ok tt → view (m s).1 (path o) ≡ true)
      → Pins before m (o ∷ before)
  adds before o m keeps pins s p = added (m s) (λ o i. keeps (path o) s (p o i)) (pins s)
    where
      added :
          (r : Result (Unit {0}) × S)
          → Pinned before r.1
          → (r.0 ≡ ok tt → view r.1 (path o) ≡ true)
          → After (λ a. Pinned (o ∷ before)) (λ t. Unit) r
      added (ok a, t) h g = λ x i. elim i [ inl e ↦ rw e (g refl) | inr j ↦ h x j ]
      added (err e, t) h g = tt

  pub next :
      {A B : Type 0} (before middle after : List BpfNamePath) (m : Proc S A) (f : A → Proc S B)
      → Pins before m middle
      → ((a : A) → Pins middle (f a) after)
      → Pins before (m >>= f) after
  next before middle after m f pins h s p =
      then_do-After (λ a. Pinned middle) (λ a. Pinned after) (λ t. Unit) (m s) f (pins s p) h

  -- Nothing is pinned after a call of which nothing is known.
  pub anything : {A : Type 0} (m : Proc S A) → Pins [] m []
  anything {A} m s p = go (m s)
    where
      go : (r : Result A × S) → After (λ a. Pinned []) (λ t. Unit) r
      go (ok a, t) = λ o i. absurd i
      go (err e, t) = tt

  load_unless_loaded-Keeps :
      (prog : Prog) (q : String) → Keeps (λ s. view s q ≡ true) (load_unless_loaded k prog)
  unfolding load_unless_loaded check_loaded
  load_unless_loaded-Keeps prog q s h =
      checked (k.load_program prog s) (laws.load_program_Keeps q prog s h)
    where
      checked : (r : Loaded × S) → view r.1 q ≡ true → view (check_loaded k r).1 q ≡ true
      checked (Loaded.loaded, t) h = h
      checked (Loaded.already_loaded, t) h = h
      checked (Loaded.failed e, t) h = h

  or_missing-Keeps :
      {A : Type 0} (o : Option A) (message : String) (q : String)
      → Keeps (λ s. view s q ≡ true) (or_missing k o message)
  unfolding or_missing
  or_missing-Keeps (some a) message q s h = h
  or_missing-Keeps none message q s h = h

  pub attach-Pins :
      (ebpf : Ebpf)
      → Pins [] (attach_cgroup_connect_bpf_program k ebpf) (bpf_program_cgroup_connect_v4 ∷ [])
  unfolding attach_cgroup_connect_bpf_program
  attach-Pins ebpf =
      let o = bpf_program_cgroup_connect_v4 in
      let after = o ∷ [] in
      first [] after (or_missing k (k.program_mut ebpf (name o)) _) _ (or_missing-Keeps _ _) λ prog.
        first [] after (lift (k.as_sock_addr prog)) _ (λ q s h. h)
          λ prog. first [] after (load_unless_loaded k prog) _ (load_unless_loaded-Keeps prog) λ _.
            first [] after (k.open_file cgroup_sys_dir) _ (λ q. laws.open_Keeps q _)
              λ cgroup.
                first [] after (k.attach prog cgroup) _ (λ q. laws.attach_Keeps q prog cgroup)
                  λ id.
                    next [] after after (k.pin_program prog (path o)) _
                      (adds [] o (k.pin_program prog (path o))
                        (λ q. laws.pin_program_Keeps q prog _) (laws.pin_program_ok prog (path o)))
                      λ _.
                        first after after (k.take_link prog id) _ (λ q. laws.take_Keeps q prog id)
                          λ link.
                            first after after (lift (to_fd_link k (k.fd_link link))) _ (λ q s h. h)
                              λ fd.
                                last after (k.pin_link fd bpf_link_cgroup_connect_v4_path)
                                  (λ q. laws.pin_link_Keeps q fd _)

  -- The tests of `exists`.
  if_exists-Pins :
      {A : Type 0} (before after : List BpfNamePath) (p : String) (yes_case no_case : Proc S A)
      → ((s : S)
          → view s p ≡ true
          → Pinned before s
          → After (λ a. Pinned after) (λ t. Unit) (yes_case s))
      → Pins before no_case after
      → Pins before (if_exists k p yes_case no_case) after
  unfolding if_exists
  if_exists-Pins {A} before after p yes_case no_case y n s h = go (k.exists s p) refl
    where
      go :
          (r : Result Bool)
          → k.exists s p ≡ r
          → After
              (λ a. Pinned after)
              (λ t. Unit)
              ((lift r >>= λ found. if found then yes_case else no_case) s)
      go (ok true) e = y s (laws.exists_view s p true e) h
      go (ok false) e = n s h
      go (err x) e = tt

  pub pin_maps-Pins :
      (ebpf : Ebpf) (objects before : List BpfNamePath)
      → Pins before (pin_maps k ebpf objects) (onto objects before)
  unfolding pin_maps
  pin_maps-Pins ebpf [] before = λ s h. h
  pin_maps-Pins ebpf (o ∷ rest) before =
      next before (o ∷ before) (onto rest (o ∷ before))
        (if_exists k (path o) (fail _)
          (or_missing k (k.map_mut ebpf (name o)) _ >>= λ m. k.pin_map m (path o)))
        _
        (if_exists-Pins before (o ∷ before) (path o) (fail _) _ (λ s e h. tt)
          (first before (o ∷ before) (or_missing k (k.map_mut ebpf (name o)) _) _
            (or_missing-Keeps _ _)
            λ m.
              adds before o (k.pin_map m (path o)) (λ q. laws.pin_map_Keeps q m (path o))
                (laws.pin_map_ok m (path o))))
        (λ _. pin_maps-Pins ebpf rest (o ∷ before))

  pub ensure_ingress-Pins :
      (ebpf : Ebpf) (before : List BpfNamePath)
      → Pins before (ensure_ingress_program k ebpf) (bpf_program_ingress_tc ∷ before)
  unfolding ensure_ingress_program
  ensure_ingress-Pins ebpf before =
      let o = bpf_program_ingress_tc in
      let after = o ∷ before in
      if_exists-Pins before after (path o) (pure tt) _ there (
        first before after (or_missing k (k.program_mut ebpf (name o)) _) _ (or_missing-Keeps _ _)
          λ prog.
            first before after (lift (k.as_classifier prog)) _ (λ q s h. h)
              λ prog.
                first before after (load_unless_loaded k prog) _ (load_unless_loaded-Keeps prog)
                  λ _. if_exists-Pins before after (path o) (pure tt) _ there (
                    adds before o (k.pin_program prog (path o))
                      (λ q. laws.pin_program_Keeps q prog _) (laws.pin_program_ok prog (path o))))
    where
      there :
          (s : S)
          → view s (path bpf_program_ingress_tc) ≡ true
          → Pinned before s
          → After (λ a. Pinned (bpf_program_ingress_tc ∷ before)) (λ t. Unit) (pure tt s)
      there s e h x i = elim i [ inl q ↦ rw q e | inr j ↦ h x j ]
