-- ===== src/Holmes/Declared/Examples.antt =====
-- A call of the tool `get_logs` of internal/holmesprovider/tools.go.
use hive_agent.Prelude.{
  String, ◌≡◌, ◌≢◌, refl, subst, false, inl, inr, Option, none, some, [], ◌∷◌, ◌==◌, eq_iff,
  Bool-cases,
}
use hive_agent.Prelude.Int.{pos}
use hive_agent.Prelude.GoMap.{lookup, insert}
use hive_agent.Value.{Object, string, int}
use hive_agent.Value.Fields.{literal, get_field, set_field}
use hive_agent.Commands.Arguments.{parameter, set_parameter, parameter-set_parameter}
use hive_agent.Commands.Run.{execute}
use hive_agent.Holmes.Types.{ToolDefinition}
use hive_agent.Holmes.Tools.{tool, logs_params}
use hive_agent.Holmes.Registry.{new_tool_registry, tool_of}
use hive_agent.Holmes.Provider.{new_provider}
use hive_agent.Holmes.Shapes.{request}
use hive_agent.Holmes.Contract.{declared, default_of}
use hive_agent.Holmes.Declared.{only_declared, declared_default}
use hive_agent.Samples.{cluster, wild, clock}

abbrev logs_tool : ToolDefinition
logs_tool = tool "get_logs" "Get pod logs with optional container and tail line limits." logs_params

logs_offered : tool_of (new_provider none none false).registry "get_logs" ≡ some logs_tool
unfolding tool_of new_provider new_tool_registry lookup insert
logs_offered = refl

abbrev given : Option Object
given = some (literal (("namespace", string "shop") ∷ ("name", string "web-1") ∷ []))

-- with a parameter that no tool declares
abbrev follow : Option Object
follow = set_parameter given "follow" (string "yes")

follow-agrees :
    (key : String) → declared logs_params key ≢ none → parameter given key ≡ parameter follow key
unfolding declared get_field set_field
follow-agrees key is = elim (Bool-cases ("follow" == key)) [
  | inl e ↦
      let undeclared : declared logs_params "follow" ≡ none = refl in
      let same = (eq_iff "follow" key).0 e in
      absurd (is (subst (λ (k : String). declared logs_params k ≡ none) same undeclared))
  | inr e ↦ rw (parameter-set_parameter given "follow" key (string "yes"), e) refl
]

only_declared_example :
    execute wild "c1" cluster clock (request "r1" "get_logs" follow)
    ≡ execute wild "c1" cluster clock (request "r1" "get_logs" given)
only_declared_example =
    only_declared none false wild cluster "c1" "r1" "get_logs" clock logs_tool logs_offered given
      follow follow-agrees

declared_default_example :
    execute wild "c1" cluster clock
      (request "r1" "get_logs" (set_parameter given "tailLines" (int (pos 200))))
    ≡ execute wild "c1" cluster clock (request "r1" "get_logs" given)
declared_default_example =
    declared_default none false wild cluster "c1" "r1" "get_logs" clock logs_tool logs_offered given
      "tailLines" (int (pos 200)) (unfold default_of in refl) (unfold get_field in refl)
