-- ===== src/Tests/Mains.antt =====
-- The plugin's arguments and its end, with texts for bytes, versions and values.
use mesh_cni.Plugin.Command.Pairs.{ArePlain, print_pairs, insert_all, parse_key_value-print_pairs}
use mesh_cni.Plugin.Command.{
  Command, parse_command, split, split_once, insert_pairs, parse_key_value,
}
use mesh_cni.Plugin.Main.{
  ExitCode, Printer, IsUnfinished, HasNoNamespace, IsNotWritten, out_of, out_and_code, write_out,
  read_input, on_add, on_delete, respond_to, main, main-none_iff,
}
use mesh_cni.Plugin.Types.{Input}
use mesh_cni.Plugin.{
  Error, Args, Agent, AddPodRequest, AddPodReply, DeletePodRequest, Success, code_and_msg,
  error_to_string, into_response, delete,
}
use mesh_cni.Prelude.HashMap
use mesh_cni.Prelude.HashMap.{string_key}
use mesh_cni.Prelude.Result.{Result, ok, err}
use mesh_cni.Prelude.{Bool, true, String, List, [], ◌∷◌, some, none, ◌≡◌, ◌⊎◌, ◌↔◌, inl, refl}

parsing : Unit {0}
unfolding split split_once insert_pairs parse_key_value HashMap.insert parse_command
parsing = tt

abbrev pairs : List (String × String)
pairs = ("A", "1") ∷ ("B", "x") ∷ ("A", "a=b") ∷ []

plain : ArePlain pairs
plain = (
  (refl, tt),
  (refl, tt),
  (refl, tt),
  ((refl, tt), (refl, tt), (refl, tt), ((refl, tt), (refl, tt), (refl, (refl, (refl, tt))), tt)),
)

parse_key_value-print_pairs_example : parse_key_value (print_pairs pairs) ≡ ok (insert_all pairs [])
parse_key_value-print_pairs_example = parse_key_value-print_pairs pairs plain

printed : print_pairs pairs ≡ "A=1;B=x;A=a=b"
printed = refl

last_value : parse_key_value "a=1;b;a=2;" ≡ ok (("a", "2") ∷ [])
unfolding parsing
last_value = refl

-- the text of the command is not filled in
unsupported :
    parse_command {Version = String} "UPDATE" ≡ inl (Error.parse "command {s} not supported")
unfolding parsing
unsupported = refl

abbrev In : Type 0
In = Input String String String

abbrev no_previous : In
no_previous = record {
  cni_version = "0.4.0";
  name = "pods";
  runtime_config = none;
  previous_result = none;
}

abbrev from_str : String → Result In
from_str text = ok no_previous

abbrev texts : Printer String String String
texts = record {
  success_to_vec = λ s. ok "success";
  error_to_vec = λ e. ok "error";
  version_to_vec = λ v. ok "version";
  into_bytes = λ s. s;
  no_bytes = "";
}

abbrev no_result : String → Result (Success String String)
no_result v = err "no JSON"

abbrev adds : Agent AddPodRequest AddPodReply
adds sent q = err "down"

abbrev deletes : Agent DeletePodRequest (Unit {0})
deletes sent q = err "down"

abbrev unset : Args
unset = record { container_id = "c1"; net_ns = none; ifname = "eth0" }

-- standard output takes everything
abbrev writes : String → Bool
writes bytes = true

main-none_iff_example :
    (main from_str (λ v. v) "0.4.0" no_result adds deletes texts writes Command.add unset (ok "{}")
      ≡ none)
    ↔ (IsUnfinished from_str (λ v. v) "0.4.0" no_result adds deletes Command.add
        ⊎ HasNoNamespace from_str
            (λ v. v)
            "0.4.0"
            no_result
            adds
            deletes
            Command.add
            unset
            (ok "{}")
        ⊎ IsNotWritten from_str
            (λ v. v)
            "0.4.0"
            no_result
            adds
            deletes
            texts
            writes
            Command.add
            unset
            (ok "{}"))
main-none_iff_example =
    main-none_iff from_str (λ v. v) "0.4.0" no_result adds deletes texts writes Command.add unset
      (ok "{}")

ending : Unit {0}
unfolding out_of out_and_code write_out read_input on_add on_delete respond_to main delete
    error_to_string code_and_msg into_response
ending = tt

-- a refused command ends with the code of success
refused :
    main from_str
      (λ v. v)
      "0.4.0"
      no_result
      adds
      deletes
      texts
      writes
      Command.delete
      unset
      (ok "{}")
    ≡ some (("error", ExitCode.success), [], [])
unfolding ending
refused = refl
