-- ===== src/Installation/Installed.antt =====
-- The configuration that the installation writes.
use mesh_cni.Installation.{
  Config, AgentArgs, FileSystem, Json, conflist_name, max_attempts, path_in, get_existing_conflist,
  existing_conf, default_cni_config, with_mesh, update_cni_conf, ensure_cni_log_dir,
  ensure_cni_conf, ensure_cni_bin, conf_of, ensure_cni_preconditions,
}
use mesh_cni.Prelude.Result.{Result, ok, err, Result-cases, then_do-eq-ok, and_then, lift, ◌>>=◌}
use mesh_cni.Prelude.{
  ℕ, zero, suc, ◌≤◌, ◌<◌, String, Option, some, Bool, true, false, ◌≡◌, ◌≢◌, refl, sym, ap, ◌∙◌,
  inl, inr, arith, if◌then◌else◌,
}

-- What the agent relies on: a file that was opened and written has just those bytes, and no other
-- file changes.
pub record IsFileSystem {S File Bytes : Type 0} (fs : FileSystem S File Bytes) : Type 0 where
  pub view : S → String → Option Bytes
  pub path_of : File → String
  pub opened :
      (p : String) (s : S) (file : File) → (fs.open_truncated p s).0 ≡ ok file → path_of file ≡ p
  pub open_other : (p q : String) (s : S) → q ≢ p → view (fs.open_truncated p s).1 q ≡ view s q
  pub written :
      (file : File) (b : Bytes) (s : S)
      → (fs.write_all file b s).0 ≡ ok tt
      → view (fs.write_all file b s).1 (path_of file) ≡ some b
  pub write_other :
      (file : File) (b : Bytes) (q : String) (s : S)
      → q ≢ path_of file
      → view (fs.write_all file b s).1 q ≡ view s q

and_then-eq-ok :
    {A B : Type 0} (r : Result A) (f : A → Result B) {b : B}
    → and_then r f ≡ ok b
    → (a : A) × (r ≡ ok a) × (f a ≡ ok b)
and_then-eq-ok (ok a) f h = (a, refl, h)
and_then-eq-ok (err e) f h = cc

module _ {S File Bytes Version Value : Type 0} (fs : FileSystem S File Bytes)
    (json : Json Bytes Version Value) where
  -- The state after some sleeps.
  abbrev pub slept : ℕ → S → S
  slept zero s = s
  slept (suc k) s = slept k (fs.sleep s)

  -- The first of the attempts that finds a configuration, after `k` sleeps.
  pub record FoundAfter (left k : ℕ) (dir : String) (s : S) (bytes : Bytes) : Type 0 where
    pub in_time : k ≤ left
    pub found : get_existing_conflist fs json dir (slept k s) ≡ ok bytes
    pub missed :
        (j : ℕ) → j < k → (e : String) × (get_existing_conflist fs json dir (slept j s) ≡ err e)

  existing_conf-FoundAfter :
      (left : ℕ) (dir : String) (s : S) (bytes : Bytes)
      → (existing_conf fs json left dir s).0 ≡ ok bytes
      → (k : ℕ) × FoundAfter left k dir s bytes × ((existing_conf fs json left dir s).1 ≡ slept k s)
  unfolding existing_conf
  existing_conf-FoundAfter zero dir s bytes h = (
    0,
    record { in_time = omega arith; found = h; missed = λ j l. absurd (omega (arith, l)) },
    refl,
  )
  existing_conf-FoundAfter (suc left) dir s bytes h =
      elim (Result-cases (get_existing_conflist fs json dir s)) [
        | inl (c, q) ↦
            let same : ok c ≡ ok bytes = rw (q, existing_conf) at h in
            (
              0,
              record {
                in_time = omega arith;
                found = q ∙ same;
                missed = λ j l. absurd (omega (arith, l));
              },
              rw (q, existing_conf),
            )
        | inr (e, q) ↦
            let later : (existing_conf fs json left dir (fs.sleep s)).0 ≡ ok bytes =
              rw (q, existing_conf) at h in
            let (k, a, t) = existing_conf-FoundAfter left dir (fs.sleep s) bytes later in
            (
              suc k,
              record {
                in_time = (let l = a.in_time in omega (arith, l));
                found = a.found;
                missed = missed_first e q k a;
              },
              rw (q, existing_conf) t,
            )
      ]
    where
      missed_first :
          (e : String)
          → get_existing_conflist fs json dir s ≡ err e
          → (k : ℕ) → FoundAfter left k dir (fs.sleep s) bytes
          → (j : ℕ) → j < suc k
          → (x : String) × (get_existing_conflist fs json dir (slept j s) ≡ err x)
      missed_first e q k a zero l = (e, q)
      missed_first e q k a (suc j) l = a.missed j (omega (arith, l))

  -- The state in which the configuration is made.
  abbrev pub prepared : AgentArgs → S → S
  prepared args s =
      (ensure_cni_bin fs json args.cni_bin_dir args.cni_plugin_bin
        (ensure_cni_log_dir fs json args.cni_plugin_log_dir s).1).1

  -- From which configuration the bytes are made, in a state `t` that some sleeps later follows `u`.
  pub data Made (args : AgentArgs) (u : S) (bytes : Bytes) : S → Type 0 where
    chained :
        {k : ℕ} {existing : Bytes} {conf : Config Version Value}
        → args.chained ≡ true
        → FoundAfter 3 k args.cni_conf_dir u existing
        → json.from_slice existing ≡ ok conf
        → json.to_vec_pretty (with_mesh fs json conf) ≡ ok bytes
        → Made args u bytes (slept k u)
    alone : args.chained ≡ false → default_cni_config fs json ≡ ok bytes → Made args u bytes u

  conf_of-Made :
      (args : AgentArgs) (u : S) (bytes : Bytes)
      → (conf_of fs json args u).0 ≡ ok bytes
      → Made args u bytes (conf_of fs json args u).1
  unfolding conf_of update_cni_conf
  conf_of-Made args u bytes h = go args.chained refl h
    where
      conf : Bool → Result Bytes × S
      conf b =
          (if b
              then (existing_conf fs json max_attempts args.cni_conf_dir >>= λ existing.
                  lift (update_cni_conf fs json existing))
              else lift (default_cni_config fs json))
            u

      go : (b : Bool) → args.chained ≡ b → (conf b).0 ≡ ok bytes → Made args u bytes (conf b).1
      go false e g = Made.alone e g
      go true e g =
          let found = existing_conf fs json max_attempts args.cni_conf_dir u in
          let (existing, q, made, same) =
            then_do-eq-ok found (λ existing. lift (update_cni_conf fs json existing)) g in
          let (k, after, t) = existing_conf-FoundAfter 3 args.cni_conf_dir u existing q in
          let (c, parsed, printed) =
            and_then-eq-ok (json.from_slice existing)
              (λ c. json.to_vec_pretty (with_mesh fs json c)) made in
          let state : (conf true).1 ≡ slept k u = ap (λ r. r.1) same ∙ t in
          rw state (Made.chained {k = k} {existing = existing} {conf = c} e after parsed printed)

  module _ (laws : IsFileSystem fs) where
    open laws use {view}

    ensure_cni_conf_lem :
        (dir : String) (bytes : Bytes) (v : S)
        → (ensure_cni_conf fs json dir bytes v).0 ≡ ok tt
        → (view (ensure_cni_conf fs json dir bytes v).1 (path_in dir conflist_name) ≡ some bytes)
          × ((q : String)
              → q ≢ path_in dir conflist_name
              → view (ensure_cni_conf fs json dir bytes v).1 q ≡ view v q)
    unfolding ensure_cni_conf
    ensure_cni_conf_lem dir bytes v h =
        let p = path_in dir conflist_name in
        let (file, opened, done, same) =
          then_do-eq-ok (fs.open_truncated p v) (λ file. fs.write_all file bytes) h in
        let at : laws.path_of file ≡ p = laws.opened p v file opened in
        let w = (fs.open_truncated p v).1 in
        rw same (
          ap (view (fs.write_all file bytes w).1) (sym at) ∙ laws.written file bytes w done,
          λ q differ.
              laws.write_other file bytes q w (λ e. differ (e ∙ at)) ∙ laws.open_other p q v differ,
        )

    -- If the installation returns `Ok`, the agent's file of the configuration directory holds what
    -- was made. In chained mode that is the existing configuration, found at one of at most four
    -- attempts, with this plugin after the others, and else the default configuration. Since then
    -- no other file has changed.
    pub ensure_cni_preconditions-Made :
        (args : AgentArgs) (s : S)
        → (ensure_cni_preconditions fs json args s).0 ≡ ok tt
        → (bytes : Bytes) × (v : S) × Made args (prepared args s) bytes v
          × (view
                (ensure_cni_preconditions fs json args s).1
                (path_in args.cni_conf_dir conflist_name)
              ≡ some bytes)
          × ((q : String)
              → q ≢ path_in args.cni_conf_dir conflist_name
              → view (ensure_cni_preconditions fs json args s).1 q ≡ view v q)
    unfolding ensure_cni_preconditions
    ensure_cni_preconditions-Made args s h =
        let log = ensure_cni_log_dir fs json args.cni_plugin_log_dir s in
        let bin = ensure_cni_bin fs json args.cni_bin_dir args.cni_plugin_bin log.1 in
        let conf = conf_of fs json args bin.1 in
        let (_, _, h1, e1) = then_do-eq-ok log _ h in
        let (_, _, h2, e2) = then_do-eq-ok bin _ h1 in
        let (bytes, made, h3, e3) = then_do-eq-ok conf _ h2 in
        let (own, others) = ensure_cni_conf_lem args.cni_conf_dir bytes conf.1 h3 in
        (
          bytes,
          conf.1,
          conf_of-Made args bin.1 bytes made,
          rw (e1, e2, e3) own,
          λ q differ. rw (e1, e2, e3) (others q differ),
        )
