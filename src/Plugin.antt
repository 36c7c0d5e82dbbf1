-- ===== src/Plugin.antt =====
-- mesh-cni-plugin/src/add.rs, delete.rs, error.rs and response.rs: the commands ADD and DEL of the
-- plugin, and the error responses. The agent behind the socket is `agent`, which answers a request
-- by what was sent before it; starting a runtime for a request is taken to succeed. The errors of
-- other crates are the text that they print; `Version` and `Value`, a version and a value of JSON,
-- are the types of those crates. The environment's network namespace is `some none` where its
-- path is no string.
mod Messages
pub use Messages.*
pub mod Forward
pub mod Command
pub mod Types
pub mod Main
use mesh_cni.Prelude.{ℕ, String, List, [], ◌∷◌, ◌++◌, Option, some, none, Bool, true, false}
use mesh_cni.Prelude.HashMap.{HashMap}
use mesh_cni.Prelude.Result.{Result, ok, err, Proc, pure, ◌>>=◌}
use Prim.Native.String.{◌++◌ as append}

pub data Error (Version : Type 0) : Type 0 where
  io : String → Error Version
  json : String → Error Version
  ebpf : String → Error Version
  incompatible_version : Version → Error Version
  container_unknown : String → Error Version
  unsupported_field : String → String → Error Version
  invalid_required_env_variables : String → Error Version
  invalid_network_config : String → Error Version
  transient : String → Error Version
  parse : String → Error Version
  no_previous_result : String → Error Version
  missing_interfaces : Error Version
  tonic : String → Error Version
  tonic_transport : String → Error Version

pub record CniErrorResponse (Version : Type 0) : Type 0 where
  pub cni_version : Version
  pub code : ℕ
  pub msg : String
  pub details : String

pub record VersionResponse (Version : Type 0) : Type 0 where
  pub cni_version : Version
  pub supported_versions : List Version

pub data Response (Version Value : Type 0) : Type 0 where
  success : Success Version Value → Response Version Value
  error : CniErrorResponse Version → Response Version Value
  version : VersionResponse Version → Response Version Value
  gc : Response Version Value
  check : Response Version Value
  status : Response Version Value

-- The arguments that the two commands read.
pub record Args : Type 0 where
  pub container_id : String
  pub net_ns : Option (Option String)
  pub ifname : String

-- What was sent to the agent so far, and its answer to the next request; an error of `request`
-- is used by its text only.
abbrev pub Agent : Type 0 → Type 0 → Type 0
Agent Req Reply = List Req → Req → Result Reply

unfoldable pub send : {Req Reply : Type 0} → Agent Req Reply → Req → Proc (List Req) Reply
send agent req sent = (agent sent req, sent ++ (req ∷ []))

-- The loop over the interfaces of the previous result, in both commands.
unfoldable pub forward :
    {Req Reply : Type 0}
    → Agent Req Reply
    → (Interface → Req)
    → List Interface
    → Proc (List Req) (Unit {0})
forward agent to_req [] = pure tt
forward agent to_req (i ∷ rest) = elim i.sandbox [
  | some path ↦ forward agent to_req rest
  | none ↦ send agent (to_req i) >>= λ _. forward agent to_req rest
]

unfoldable pub chained_add : Args → Interface → AddPodRequest
chained_add args i = record {
  iface = i.name;
  net_namespace = none;
  container_id = args.container_id;
  chained = true;
}

unfoldable pub chained_delete : Args → Interface → DeletePodRequest
chained_delete args i = record {
  iface = i.name;
  net_namespace = none;
  container_id = args.container_id;
  chained = true;
}

module _ {Version : Type 0} (show_version : Version → String) where
  -- `#[error(...)]`
  unfoldable pub error_to_string : Error Version → String
  error_to_string (Error.io e) = e
  error_to_string (Error.json e) = e
  error_to_string (Error.ebpf e) = e
  error_to_string (Error.incompatible_version v) = append "incompatible version " (show_version v)
  error_to_string (Error.container_unknown e) = append "container unknown: " e
  error_to_string (Error.unsupported_field k v) =
      append "unsupported field: " (append k (append "=" v))
  error_to_string (Error.invalid_required_env_variables e) =
      append "invalid environment variables: " e
  error_to_string (Error.invalid_network_config e) = append "invalid network config: " e
  error_to_string (Error.transient e) = append "transient error: " e
  error_to_string (Error.parse e) = append "parse error: " e
  error_to_string (Error.no_previous_result e) = append "missing previous result: " e
  error_to_string Error.missing_interfaces = "cni must be chained after interfaces are created"
  error_to_string (Error.tonic e) = e
  error_to_string (Error.tonic_transport e) = e

  -- The code and the message of `into_response`.
  unfoldable pub code_and_msg : Error Version → ℕ × String
  code_and_msg (Error.incompatible_version v) = (1, "Incompatible Version")
  code_and_msg (Error.unsupported_field k v) = (2, "Incompatible Version")
  code_and_msg (Error.container_unknown e) = (3, "Incompatible Version")
  code_and_msg (Error.invalid_required_env_variables e) =
      (4, "Invalid Required Environment Variables")
  code_and_msg (Error.io e) = (5, "I/O Error")
  code_and_msg (Error.json e) = (6, "JSON Error")
  code_and_msg (Error.invalid_network_config e) = (7, "Invalid Network Config")
  code_and_msg (Error.transient e) = (11, "Transient Error")
  code_and_msg (Error.ebpf e) = (101, "EBPF Error")
  code_and_msg (Error.parse e) = (101, "EBPF Error")
  code_and_msg (Error.no_previous_result e) = (102, "No Previous Result")
  code_and_msg Error.missing_interfaces = (103, "No Interfaces")
  code_and_msg (Error.tonic e) = (104, "Tonic")
  code_and_msg (Error.tonic_transport e) = (105, "Tonic Transport")

  unfoldable pub into_response : {Value : Type 0} → Error Version → Version → Response Version Value
  into_response e cni_version = Response.error (record {
    cni_version = cni_version;
    code = (code_and_msg e).0;
    msg = (code_and_msg e).1;
    details = error_to_string e;
  })

  module _ {Value : Type 0} (cni_version : Version)
      (deserialize : Value → Result (Success Version Value)) where
    unfoldable pub respond : Success Version Value → Result (Unit {0}) → Response Version Value
    respond prev (ok done) = Response.success prev
    respond prev (err e) = into_response (Error.ebpf e) cni_version

    -- The chained command, from the previous result on.
    unfoldable pub chained_command :
        {Req Reply : Type 0}
        → Agent Req Reply
        → (Interface → Req)
        → Result (Success Version Value)
        → List Req
        → Response Version Value × List Req
    chained_command agent to_req (err e) sent = (into_response (Error.json e) cni_version, sent)
    chained_command agent to_req (ok prev) sent = elim prev.interfaces [
      | [] ↦ (into_response Error.missing_interfaces cni_version, sent)
      | i ∷ rest ↦ let r = forward agent to_req prev.interfaces sent in (respond prev r.0, r.1)
    ]

    unfoldable pub delete :
        {Reply : Type 0}
        → Agent DeletePodRequest Reply
        → Args
        → Option Value
        → List DeletePodRequest
        → Response Version Value × List DeletePodRequest
    delete agent args none sent =
        (into_response (Error.no_previous_result "no previous result found") cni_version, sent)
    delete agent args (some prev) sent =
        chained_command agent (chained_delete args) (deserialize prev) sent

    unfoldable pub respond_unchained : Result AddPodReply → Response Version Value
    respond_unchained (ok r) = Response.success (record {
      cni_version = cni_version;
      interfaces = r.interfaces;
      ips = r.ips;
      routes = r.routes;
      dns = r.dns;
      custom = [];
    })
    respond_unchained (err e) = into_response (Error.ebpf e) cni_version

    -- `none` is the panic of `unwrap` on a missing `CNI_NETNS`.
    unfoldable pub add_unchained :
        Agent AddPodRequest AddPodReply
        → Args
        → Option (Option String)
        → List AddPodRequest
        → Option (Response Version Value × List AddPodRequest)
    add_unchained agent args none sent = none
    add_unchained agent args (some none) sent = some (
      into_response
          (Error.invalid_required_env_variables "failed to convert network namespace to string")
          cni_version,
      sent,
    )
    add_unchained agent args (some (some net_namespace)) sent =
        let r =
          send agent
            (record {
              iface = args.ifname;
              net_namespace = some net_namespace;
              container_id = args.container_id;
              chained = false;
            })
            sent in
        some (respond_unchained r.0, r.1)

    unfoldable pub add :
        Agent AddPodRequest AddPodReply
        → Args
        → Option Value
        → List AddPodRequest
        → Option (Response Version Value × List AddPodRequest)
    add agent args none sent = add_unchained agent args args.net_ns sent
    add agent args (some prev) sent =
        some (chained_command agent (chained_add args) (deserialize prev) sent)
