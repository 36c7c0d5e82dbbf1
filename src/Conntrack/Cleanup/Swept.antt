-- ===== src/Conntrack/Cleanup/Swept.antt =====
-- What a cleanup of the connections keeps and removes.
use mesh_cni.Conntrack.Cleanup.{
  CtMap, CtLaws, Among, Listed, timeout, is_expired, collect_expired, remove_all, cleanup_map,
}
use mesh_cni.Common.{ConntrackKeyV4, ConntrackValue, conntrack_key_eq}
use mesh_cni.Prelude.{
  String, dec_le, ℕ, ◌-◌, ◌≤◌, ◌<◌, ◌≡◌, inl, inr, refl, sym, ◌∙◌, ap, List, [], ◌∷◌, Option, some,
  none, Bool, true, false, if◌then◌else◌, arith,
}
use mesh_cni.Prelude.Result.{Result, ok, err, Result-cases, then_do-eq-ok, then_do_ok, then_do_err}

collect_expired-cons :
    (now : ℕ) (k : ConntrackKeyV4) (v : ConntrackValue)
    (rest : List (Result (ConntrackKeyV4 × ConntrackValue))) (expired : List ConntrackKeyV4)
    → collect_expired now (ok (k, v) ∷ rest) ≡ ok expired
    → (tail : List ConntrackKeyV4) × (collect_expired now rest ≡ ok tail)
      × (expired ≡ (if is_expired now k v then k ∷ tail else tail))
unfolding collect_expired
collect_expired-cons now k v rest expired h = elim (Result-cases (collect_expired now rest)) [
  | inr (e, q) ↦ absurd (let f = rw (q, collect_expired) at h in cc)
  | inl (tail, q) ↦ (tail, q, (let f = rw (q, collect_expired) at h in cc))
]

-- The keys collected are those of the expired items.
collect_expired-Among :
    (now : ℕ) (items : List (Result (ConntrackKeyV4 × ConntrackValue)))
    (expired : List ConntrackKeyV4)
    → collect_expired now items ≡ ok expired
    → (k : ConntrackKeyV4) (v : ConntrackValue) → Listed k v items
    → is_expired now k v ≡ true
    → Among k expired
unfolding collect_expired
collect_expired-Among now [] expired h k v listed old = absurd listed
collect_expired-Among now (err e ∷ rest) expired h k v listed old = absurd (cc)
collect_expired-Among now (ok (j, w) ∷ rest) expired h k v listed old =
    let (tail, q, shape) = collect_expired-cons now j w rest expired h in
    rw shape (elim listed [
      | inl same ↦ first tail same
      | inr later ↦
          deeper tail (is_expired now j w) (collect_expired-Among now rest tail q k v later old)
    ])
  where
    first :
        (tail : List ConntrackKeyV4)
        → ◌≡◌ {A = Result (ConntrackKeyV4 × ConntrackValue)} (ok (j, w)) (ok (k, v))
        → Among k (if is_expired now j w then j ∷ tail else tail)
    first tail same =
        let a : j ≡ k = cc in
        let b : w ≡ v = cc in
        let o : is_expired now j w ≡ true = rw (a, b) old in rw o (inl (sym a))

    deeper :
        (tail : List ConntrackKeyV4) (b : Bool)
        → Among k tail
        → Among k (if b then j ∷ tail else tail)
    deeper tail true a = inr a
    deeper tail false a = a

collect_expired-Listed :
    (now : ℕ) (items : List (Result (ConntrackKeyV4 × ConntrackValue)))
    (expired : List ConntrackKeyV4)
    → collect_expired now items ≡ ok expired
    → (k : ConntrackKeyV4) → Among k expired
    → (v : ConntrackValue) × Listed k v items × (is_expired now k v ≡ true)
unfolding collect_expired
collect_expired-Listed now [] expired h k a = absurd (let e : expired ≡ [] = cc in rw e at a)
collect_expired-Listed now (err e ∷ rest) expired h k a = absurd (cc)
collect_expired-Listed now (ok (j, w) ∷ rest) expired h k a =
    let (tail, q, shape) = collect_expired-cons now j w rest expired h in
    go tail (is_expired now j w) refl (rw shape at a) (collect_expired-Listed now rest tail q k)
  where
    go :
        (tail : List ConntrackKeyV4) (b : Bool)
        → is_expired now j w ≡ b
        → Among k (if b then j ∷ tail else tail)
        → (Among k tail → (v : ConntrackValue) × Listed k v rest × (is_expired now k v ≡ true))
        → (v : ConntrackValue) × Listed k v (ok (j, w) ∷ rest) × (is_expired now k v ≡ true)
    go tail true old (inl e) deep =
        (w, inl (ap (λ (x : ConntrackKeyV4). ok (x, w)) (sym e)), rw e old)
    go tail true old (inr t) deep = let (v, l, o) = deep t in (v, inr l, o)
    go tail false old t deep = let (v, l, o) = deep t in (v, inr l, o)

module _ {M : Type 0} (map : CtMap M) (laws : CtLaws map) where
  -- Keys that are not named keep their entries, also where a removal fails.
  remove_all-others :
      (ks : List ConntrackKeyV4) (j : ConntrackKeyV4) (m : M)
      → ¬ Among j ks
      → laws.view (remove_all map ks m).1 j ≡ laws.view m j
  unfolding remove_all
  remove_all-others [] j m a = refl
  remove_all-others (k ∷ ks) j m a =
      let here = laws.remove_other k j m (λ e. a (inl e)) in
      let rest = remove_all-others ks j (map.remove k m).1 (λ t. a (inr t)) in
      elim (Result-cases (map.remove k m).0) [
        | inl (_, q) ↦ rw (then_do_ok (map.remove k m) (λ _. remove_all map ks) q) (rest ∙ here)
        | inr (e, q) ↦ rw (then_do_err (map.remove k m) (λ _. remove_all map ks) q) here
      ]

  remove_all-none :
      (ks : List ConntrackKeyV4) (j : ConntrackKeyV4) (m : M)
      → (remove_all map ks m).0 ≡ ok tt
      → laws.view m j ≡ none
      → laws.view (remove_all map ks m).1 j ≡ none
  unfolding remove_all
  remove_all-none [] j m done gone = gone
  remove_all-none (k ∷ ks) j m done gone =
      let (_, e, next, same) = then_do-eq-ok (map.remove k m) (λ _. remove_all map ks) done in
      rw same (
        remove_all-none ks j (map.remove k m).1 next (elim (conntrack_key_eq.same j k) [
          | yes p ↦ rw p (laws.remove_same k m e)
          | no p ↦ laws.remove_other k j m p ∙ gone
        ]))

  remove_all-Among :
      (ks : List ConntrackKeyV4) (j : ConntrackKeyV4) (m : M)
      → (remove_all map ks m).0 ≡ ok tt
      → Among j ks
      → laws.view (remove_all map ks m).1 j ≡ none
  unfolding remove_all
  remove_all-Among [] j m done a = absurd a
  remove_all-Among (k ∷ ks) j m done a =
      let (_, e, next, same) = then_do-eq-ok (map.remove k m) (λ _. remove_all map ks) done in
      rw same (elim a [
        | inl p ↦ remove_all-none ks j (map.remove k m).1 next (rw p (laws.remove_same k m e))
        | inr t ↦ remove_all-Among ks j (map.remove k m).1 next t
      ])

  -- A connection that was seen within its timeout is kept, also when the cleanup fails half-way.
  cleanup_map-keeps :
      (now : ℕ) (m : M) (k : ConntrackKeyV4) (v : ConntrackValue)
      → laws.view m k ≡ some v
      → now - v.last_seen_ns ≤ timeout k.proto
      → laws.view (cleanup_map map (ok now) m).1 k ≡ some v
  unfolding cleanup_map is_expired
  cleanup_map-keeps now m k v present young =
      elim (Result-cases (collect_expired now (map.iter m))) [
        | inr (e, q) ↦ rw (q, cleanup_map) present
        | inl (expired, q) ↦
            rw (q, cleanup_map) (remove_all-others expired k m (fresh expired q) ∙ present)
      ]
    where
      fresh :
          (expired : List ConntrackKeyV4)
          → collect_expired now (map.iter m) ≡ ok expired
          → ¬ Among k expired
      fresh expired q a =
          let (w, listed, old) = collect_expired-Listed now (map.iter m) expired q k a in
          let at = laws.view_of_listed m k w listed in
          let same : w ≡ v = cc in
          let old' : is_expired now k v ≡ true = rw (← same) old in ground (arith, old')

  cleanup_map-removes :
      (now : ℕ) (m : M) (k : ConntrackKeyV4) (v : ConntrackValue)
      → (cleanup_map map (ok now) m).0 ≡ ok tt
      → laws.view m k ≡ some v
      → timeout k.proto < now - v.last_seen_ns
      → laws.view (cleanup_map map (ok now) m).1 k ≡ none
  unfolding cleanup_map is_expired
  cleanup_map-removes now m k v done present old =
      elim (Result-cases (collect_expired now (map.iter m))) [
        | inr (e, q) ↦ absurd (let f = rw (q, cleanup_map) at done in cc)
        | inl (expired, q) ↦
            rw (q, cleanup_map)
              (remove_all-Among expired k m (rw (q, cleanup_map) at done) (
                collect_expired-Among now (map.iter m) expired q k v
                  (laws.listed_of_view m k v present) (ground arith)))
      ]

  -- What a cleanup makes of an entry: the result of the cleanup, and the entry after it.
  pub data Swept (now : ℕ) (k : ConntrackKeyV4) (v : ConntrackValue)
      : Result (Unit {0}) → Option ConntrackValue → Type 0 where
    young :
        {r : Result (Unit {0})} → now - v.last_seen_ns ≤ timeout k.proto → Swept now k v r (some v)
    removed : timeout k.proto < now - v.last_seen_ns → Swept now k v (ok tt) none
    failed :
        {x : String} {o : Option ConntrackValue}
        → timeout k.proto < now - v.last_seen_ns
        → Swept now k v (err x) o

  -- A cleanup at time `now` keeps every connection that was seen within its timeout, also when it
  -- fails half-way, and removes every other one if it returns `Ok`.
  pub cleanup_map-Swept :
      (now : ℕ) (m : M) (k : ConntrackKeyV4) (v : ConntrackValue)
      → laws.view m k ≡ some v
      → Swept now k v (cleanup_map map (ok now) m).0 (laws.view (cleanup_map map (ok now) m).1 k)
  cleanup_map-Swept now m k v present = elim (dec_le (now - v.last_seen_ns) (timeout k.proto)) [
    | yes recent ↦ rw (cleanup_map-keeps now m k v present recent) (Swept.young recent)
    | no late ↦
        let old : timeout k.proto < now - v.last_seen_ns = omega (arith, late) in
        elim (Result-cases (cleanup_map map (ok now) m).0) [
          | inl (_, done) ↦
              rw (cleanup_map-removes now m k v done present old, done) (Swept.removed old)
          | inr (x, e) ↦ rw e (Swept.failed old)
        ]
  ]
