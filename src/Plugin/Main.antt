-- ===== src/Plugin/Main.antt =====
-- mesh-cni-plugin/src/main.rs, with the commands of version.rs, check.rs and gc.rs and the output
-- of response.rs. Standard input is the result of reading it, JSON the parameter `Printer` and the
-- function `from_str`; `write_all` says of what bytes standard output takes. As in Plugin, a runtime
-- is taken to start for each request to the agent.
use mathlib.Core.Option
use mesh_cni.Plugin.Command.{Command}
use mesh_cni.Plugin.Types.{Input}
use mesh_cni.Plugin.{
  Error, Args, Agent, Success, VersionResponse, CniErrorResponse, Response, AddPodRequest,
  AddPodReply, DeletePodRequest, into_response,
}
use mesh_cni.Plugin
use mesh_cni.Prelude.Result.{Result, ok, err}
use mesh_cni.Prelude.{
  String, List, [], ◌∷◌, Option, some, none, ◌≡◌, ◌⊎◌, ◌↔◌, inl, inr, refl, sym, ap, ◌∙◌, Bool,
  false, if◌then◌else◌, Bool-cases,
}

pub data ExitCode : Type 0 where
  success failure : ExitCode

pub record Printer (Bytes Version Value : Type 0) : Type 0 where
  pub success_to_vec : Success Version Value → Result Bytes
  pub error_to_vec : CniErrorResponse Version → Result Bytes
  pub version_to_vec : VersionResponse Version → Result Bytes
  pub into_bytes : String → Bytes
  pub no_bytes : Bytes

module _ {Bytes Version Value : Type 0} (printer : Printer Bytes Version Value) where
  unfoldable pub out_of : Result Bytes → Bytes × ExitCode
  out_of (ok out) = (out, ExitCode.success)
  out_of (err e) = (printer.into_bytes e, ExitCode.failure)

  -- The bytes and the code of `write_out`.
  unfoldable pub out_and_code : Response Version Value → Bytes × ExitCode
  out_and_code (Response.success s) = out_of (printer.success_to_vec s)
  out_and_code (Response.error e) = out_of (printer.error_to_vec e)
  out_and_code (Response.version v) = out_of (printer.version_to_vec v)
  out_and_code Response.check = (printer.no_bytes, ExitCode.success)
  out_and_code Response.gc = (printer.no_bytes, ExitCode.success)
  out_and_code Response.status = (printer.no_bytes, ExitCode.success)

  -- `none` is the panic where standard output does not take the bytes.
  unfoldable pub write_out : (Bytes → Bool) → Response Version Value → Option (Bytes × ExitCode)
  write_out write_all r = if write_all (out_and_code r).0 then some (out_and_code r) else none

module _ {Version Network Value : Type 0} (cni_version : Version) where
  -- The function of version.rs, whose name there is `gc`.
  unfoldable pub version : Args → Input Version Network Value → Response Version Value
  version args input =
      Response.version (record { cni_version = cni_version; supported_versions = cni_version ∷ [] })

  unfoldable pub check : Args → Input Version Network Value → Response Version Value
  check args input = Response.check

  unfoldable pub gc : Args → Input Version Network Value → Response Version Value
  gc args input = Response.gc

module _ {Version Network Value : Type 0}
    (from_str : String → Result (Input Version Network Value)) where
  abbrev pub of_json :
      Result (Input Version Network Value) → Error Version ⊎ Input Version Network Value
  of_json (ok input) = inr input
  of_json (err e) = inl (Error.json e)

  unfoldable pub read_input : Result String → Error Version ⊎ Input Version Network Value
  read_input (err e) = inl (Error.io e)
  read_input (ok text) = of_json (from_str text)

  module _ (show_version : Version → String) (cni_version : Version)
      (deserialize : Value → Result (Success Version Value))
      (add_agent : Agent AddPodRequest AddPodReply) {Reply : Type 0}
      (delete_agent : Agent DeletePodRequest Reply) where
    -- A response with what was sent to the agent.
    abbrev pub Sent : Type 0
    Sent = Response Version Value × List AddPodRequest × List DeletePodRequest

    unfoldable pub on_add : Args → Error Version ⊎ Input Version Network Value → Option Sent
    on_add args (inl e) = some (into_response show_version e cni_version, [], [])
    on_add args (inr input) =
        Option.map (λ r. (r.0, r.1, []))
          (Plugin.add show_version cni_version deserialize add_agent args input.previous_result [])

    unfoldable pub on_delete : Args → Error Version ⊎ Input Version Network Value → Sent
    on_delete args (inl e) = (into_response show_version e cni_version, [], [])
    on_delete args (inr input) =
        let r =
          Plugin.delete show_version cni_version deserialize delete_agent args input.previous_result
            [] in
        (r.0, [], r.1)

    -- The `match` of `main`; `none` is a panic, of a `todo!()` too.
    unfoldable pub respond_to : Command → Args → Result String → Option Sent
    respond_to Command.add args stdin = on_add args (read_input stdin)
    respond_to Command.delete args stdin = some (on_delete args (read_input stdin))
    respond_to Command.check args stdin = none
    respond_to Command.status args stdin = none
    respond_to Command.version args stdin = none
    respond_to Command.gc args stdin = none

    abbrev pub with_sent :
        {A : Type 0}
        → List AddPodRequest
        → List DeletePodRequest
        → Option A
        → Option (A × List AddPodRequest × List DeletePodRequest)
    with_sent adds deletes none = none
    with_sent adds deletes (some w) = some (w, adds, deletes)

    -- The end of `main`, from the `match` on.
    abbrev pub written :
        {Bytes : Type 0}
        → Printer Bytes Version Value
        → (Bytes → Bool)
        → Option Sent
        → Option ((Bytes × ExitCode) × List AddPodRequest × List DeletePodRequest)
    written printer write_all none = none
    written printer write_all (some r) = with_sent r.1 r.2 (write_out printer write_all r.0)

    unfoldable pub main :
        {Bytes : Type 0}
        → Printer Bytes Version Value
        → (Bytes → Bool)
        → Command
        → Args
        → Result String
        → Option ((Bytes × ExitCode) × List AddPodRequest × List DeletePodRequest)
    main printer write_all command args stdin =
        written printer write_all (respond_to command args stdin)

    -- The commands that `main` leaves to a `todo!()`.
    abbrev pub IsUnfinished : Command → Type 0
    IsUnfinished Command.add = ⊥
    IsUnfinished Command.delete = ⊥
    IsUnfinished Command.check = Unit
    IsUnfinished Command.status = Unit
    IsUnfinished Command.version = Unit
    IsUnfinished Command.gc = Unit

    -- An ADD without a previous result and without a network namespace.
    abbrev pub HasNoNamespace : Command → Args → Result String → Type 0
    HasNoNamespace command args stdin =
        (input : Input Version Network Value) × (command ≡ Command.add)
        × (read_input stdin ≡ inr input)
        × (input.previous_result ≡ none)
        × (args.net_ns ≡ none)

    map-none_iff : {A B : Type 0} (f : A → B) (o : Option A) → (Option.map f o ≡ none) ↔ (o ≡ none)
    map-none_iff f none = (λ h. refl, λ h. refl)
    map-none_iff f (some a) = (λ h. cc, λ h. cc)

    add-none_iff :
        (args : Args) (prev : Option Value)
        → (Plugin.add show_version cni_version deserialize add_agent args prev [] ≡ none)
          ↔ ((prev ≡ none) × (args.net_ns ≡ none))
    unfolding Plugin.add Plugin.add_unchained
    add-none_iff args (some v) = (λ h. cc, λ (h, _). cc)
    add-none_iff args none = go args.net_ns
      where
        go :
            (ns : Option (Option String))
            → (Plugin.add_unchained show_version cni_version deserialize add_agent args ns []
                ≡ none)
              ↔ (Path (Option Value) none none × (ns ≡ none))
        go none = (λ h. (refl, refl), λ h. refl)
        go (some none) = (λ h. cc, λ (_, h). cc)
        go (some (some x)) = (λ h. cc, λ (_, h). cc)

    respond_to-none_iff :
        (command : Command) (args : Args) (stdin : Result String)
        → (respond_to command args stdin ≡ none)
          ↔ (IsUnfinished command ⊎ HasNoNamespace command args stdin)
    unfolding respond_to on_add
    respond_to-none_iff Command.check args stdin = (λ h. inl tt, λ h. refl)
    respond_to-none_iff Command.status args stdin = (λ h. inl tt, λ h. refl)
    respond_to-none_iff Command.version args stdin = (λ h. inl tt, λ h. refl)
    respond_to-none_iff Command.gc args stdin = (λ h. inl tt, λ h. refl)
    respond_to-none_iff Command.delete args stdin = (
      λ h. cc,
      λ h. elim h [
        | inl e ↦ absurd e
        | inr (input, e, _, _, _) ↦ absurd (let q : Command.delete ≡ Command.add = e in cc)
      ],
    )
    respond_to-none_iff Command.add args stdin = go (read_input stdin) refl
      where
        dropped :
            (input : Input Version Network Value)
            → (on_add args (inr input) ≡ none) ↔ (
                Plugin.add show_version cni_version deserialize add_agent args input.previous_result
                  []
                ≡ none)
        dropped input = map-none_iff (λ r. (r.0, r.1, [])) _

        go :
            (r : Error Version ⊎ Input Version Network Value)
            → read_input stdin ≡ r
            → (on_add args r ≡ none) ↔ (⊥ ⊎ HasNoNamespace Command.add args stdin)
        go (inl e) q =
            (λ h. cc, λ h. elim h [ inl e ↦ absurd e | inr (input, _, p, _, _) ↦ absurd (cc) ])
        go (inr input) q =
            let (out, into) = add-none_iff args input.previous_result in
            (
              λ h. let (a, b) = out ((dropped input).0 h) in inr (input, refl, q, a, b),
              λ h. elim h [
                | inl e ↦ absurd e
                | inr (input', _, p, a, b) ↦
                    let same : input' ≡ input = cc in
                    (dropped input).1 (
                      into (
                        ap (λ (i : Input Version Network Value). i.previous_result) (sym same) ∙ a,
                        b,
                      ))
              ],
            )

    -- Standard output does not take the response that is there.
    abbrev pub IsNotWritten :
        {Bytes : Type 0}
        → Printer Bytes Version Value
        → (Bytes → Bool)
        → Command
        → Args
        → Result String
        → Type 0
    IsNotWritten printer write_all command args stdin =
        (r : Sent) × (respond_to command args stdin ≡ some r)
        × (write_all (out_and_code printer r.0).0 ≡ false)

    written-none_iff :
        {Bytes : Type 0} (printer : Printer Bytes Version Value) (write_all : Bytes → Bool)
        (o : Option Sent)
        → (written printer write_all o ≡ none) ↔ (
            (o ≡ none)
            ⊎ ((r : Sent) × (o ≡ some r) × (write_all (out_and_code printer r.0).0 ≡ false)))
    unfolding write_out
    written-none_iff printer write_all none = (λ h. inl refl, λ h. refl)
    written-none_iff printer write_all (some r) =
        elim (Bool-cases (write_all (out_and_code printer r.0).0)) [
          | inl w ↦ (
            rw w (λ h. absurd (cc)),
            λ h. elim h [
              | inl q ↦ absurd (cc)
              | inr (r', q, f) ↦
                  let same : r ≡ r' = cc in
                  let g = ap (λ (x : Sent). write_all (out_and_code printer x.0).0) same ∙ f in
                  absurd (let z = sym w ∙ g in cc)
            ],
          )
          | inr w ↦ (λ h. inr (r, refl, w), λ h. rw w refl)
        ]

    -- Where a runtime starts for each request, the plugin panics on CHECK, STATUS, VERSION and GC, on
    -- an ADD whose input has no previous result while the network namespace is not set, and where
    -- standard output does not take its response; in all other cases it ends with an exit code.
    pub main-none_iff :
        {Bytes : Type 0} (printer : Printer Bytes Version Value) (write_all : Bytes → Bool)
        (command : Command) (args : Args) (stdin : Result String)
        → (main printer write_all command args stdin ≡ none) ↔ (
            IsUnfinished command
            ⊎ HasNoNamespace command args stdin
            ⊎ IsNotWritten printer write_all command args stdin)
    unfolding main
    main-none_iff printer write_all command args stdin =
        let (a, b) = respond_to-none_iff command args stdin in
        let (c, d) = written-none_iff printer write_all (respond_to command args stdin) in
        (
          λ h. elim (c h) [
            | inl e ↦ elim (a e) [ inl u ↦ inl u | inr n ↦ inr (inl n) ]
            | inr w ↦ inr (inr w)
          ],
          λ h. d (elim h [
            | inl u ↦ inl (b (inl u))
            | inr (inl n) ↦ inl (b (inr n))
            | inr (inr w) ↦ inr w
          ]),
        )
