-- ===== src/Conntrack/Cleanup.antt =====
-- mesh-cni/src/bpf/conntrack.rs: the task that removes the connections that time out.
pub mod Swept
use mesh_cni.Common.{ConntrackKeyV4, ConntrackValue, conntrack_key_eq}
use mesh_cni.Prelude.{
  String, dec_le, ℕ, ◌+◌, ◌*◌, ◌-◌, ◌%◌, ◌^◌, ◌≤◌, ◌<◌, ◌≡◌, ◌≢◌, ◌⊎◌, inl, inr, refl, sym, ◌∙◌, ap,
  List, [], ◌∷◌, Option, some, none, Bool, true, false, ltb, ◌==◌, if◌then◌else◌, arith,
}
use mesh_cni.Prelude.Result.{
  Result, ok, err, Result-cases, Proc, pure, ◌>>◌, then_do-eq-ok, then_do_ok, then_do_err,
}

-- aya's map of connections, as the task uses it.
pub record CtMap (M : Type 0) : Type 0 where
  pub iter : M → List (Result (ConntrackKeyV4 × ConntrackValue))
  pub remove : ConntrackKeyV4 → Proc M (Unit {0})

abbrev pub ct_timeout_tcp_ns : ℕ
ct_timeout_tcp_ns = 60 * 60 * 12 * 1_000_000_000

abbrev pub ct_timeout_udp_ns : ℕ
ct_timeout_udp_ns = 60 * 1_000_000_000

-- Every arm of the `match` but that of TCP gives the same.
unfoldable pub timeout : ℕ → ℕ
timeout proto =
    if proto == 1
    then ct_timeout_udp_ns
    else if proto == 6
    then ct_timeout_tcp_ns
    else if proto == 17
    then ct_timeout_udp_ns
    else if proto == 58
    then ct_timeout_udp_ns
    else if proto == 132
    then ct_timeout_udp_ns
    else ct_timeout_udp_ns

-- `now.saturating_sub(value.last_seen_ns) > timeout`
unfoldable pub is_expired : ℕ → ConntrackKeyV4 → ConntrackValue → Bool
is_expired now k v = ltb (timeout k.proto) (now - v.last_seen_ns)

-- The loop that fills `expired`; an error of the iteration ends the call.
unfoldable pub collect_expired :
    ℕ → List (Result (ConntrackKeyV4 × ConntrackValue)) → Result (List ConntrackKeyV4)
collect_expired now [] = ok []
collect_expired now (err e ∷ rest) = err e
collect_expired now (ok (k, v) ∷ rest) =
    let tail = collect_expired now rest in
    elim tail [
      | err e ↦ err e
      | ok expired ↦ ok (if is_expired now k v then k ∷ expired else expired)
    ]

module _ {M : Type 0} (map : CtMap M) where
  unfoldable pub remove_all : List ConntrackKeyV4 → Proc M (Unit {0})
  remove_all [] = pure tt
  remove_all (k ∷ ks) = do map.remove k; remove_all ks

  -- `cleanup_map`; `monotonic_ns` gives `now`, or fails.
  unfoldable pub cleanup_map : Result ℕ → Proc M (Unit {0})
  cleanup_map (err e) m = (err e, m)
  cleanup_map (ok now) m = elim (collect_expired now (map.iter m)) [
    | err e ↦ (err e, m)
    | ok expired ↦ remove_all expired m
  ]

-- `monotonic_ns`, from the seconds and nanoseconds of the clock.
unfoldable pub monotonic_ns : ℕ → ℕ → ℕ
monotonic_ns sec nsec =
    ((if ltb (sec * 1_000_000_000) (2 ^ 64) then sec * 1_000_000_000 else 2 ^ 64 - 1) + nsec)
    % 2 ^ 64

-- `k` is among the keys.
abbrev pub Among : ConntrackKeyV4 → List ConntrackKeyV4 → Type 0
Among k [] = ⊥
Among k (j ∷ js) = (k ≡ j) ⊎ Among k js

-- `(k, v)` is an item of the iteration.
abbrev pub Listed :
    ConntrackKeyV4 → ConntrackValue → List (Result (ConntrackKeyV4 × ConntrackValue)) → Type 0
Listed k v [] = ⊥
Listed k v (x ∷ rest) = (x ≡ ok (k, v)) ⊎ Listed k v rest

-- What the task relies on of the map: the iteration lists the entries, each key once, and a
-- removal that returns `Ok` takes out that key alone.
pub record CtLaws {M : Type 0} (map : CtMap M) : Type 0 where
  pub view : M → ConntrackKeyV4 → Option ConntrackValue
  pub remove_same :
      (k : ConntrackKeyV4) (m : M) → (map.remove k m).0 ≡ ok tt → view (map.remove k m).1 k ≡ none
  pub listed_of_view :
      (m : M) (k : ConntrackKeyV4) (v : ConntrackValue)
      → view m k ≡ some v
      → Listed k v (map.iter m)
  pub view_of_listed :
      (m : M) (k : ConntrackKeyV4) (v : ConntrackValue)
      → Listed k v (map.iter m)
      → view m k ≡ some v
  pub remove_other : (k j : ConntrackKeyV4) (m : M) → j ≢ k → view (map.remove k m).1 j ≡ view m j
