-- ===== src/Gate/Paths.antt =====
-- src/pages.ts: the paths of the gate.
use dsh_full_remote.Prelude.{
  ◌+◌, not, ◌&&◌, Option, none, some, [], ◌∷◌, ◌++◌, length, drop, if◌then◌else◌,
}
use dsh_full_remote.Prelude.Text.{Text, codes, text_eq, includes, starts_with}

-- `GATE_PREFIX` and the paths under it.
abbrev pub gate_prefix : Text
gate_prefix = codes "/_dsh_reverse_proxy"

abbrev pub login_path : Text
login_path = gate_prefix ++ codes "/login"

abbrev pub home_path : Text
home_path = gate_prefix ++ codes "/home"

abbrev pub home_rename_path : Text
home_rename_path = home_path ++ codes "/rename"

abbrev pub logout_path : Text
logout_path = gate_prefix ++ codes "/logout"

abbrev pub healthz_path : Text
healthz_path = gate_prefix ++ codes "/healthz"

abbrev pub wait_prefix : Text
wait_prefix = gate_prefix ++ codes "/wait"

-- `waitPagePath`
unfoldable pub wait_page_path : Text → Text
wait_page_path id = wait_prefix ++ (b'/' ∷ id)

-- `waitStatusPath`
unfoldable pub wait_status_path : Text → Text
wait_status_path id = wait_prefix ++ (b'/' ∷ (id ++ codes "/status"))

pub data WaitKind : Type 0 where
  page : WaitKind
  status : WaitKind

-- `rest.endsWith('/status')`: the text before that ending.
unfoldable pub before_status : Text → Option Text
unfolding text_eq
before_status [] = none
before_status (c ∷ s) =
    if text_eq (c ∷ s) (codes "/status")
    then some []
    else elim (before_status s) [ none ↦ none | some id ↦ some (c ∷ id) ]

-- The part of `parseWaitPath` behind the prefix.
unfoldable pub parse_wait_rest : Text → Option (Text × WaitKind)
unfolding before_status includes
parse_wait_rest rest = elim (before_status rest) [
  | some id ↦ if not (text_eq id []) && not (includes b'/' id) then some (id, status) else none
  | none ↦ if not (text_eq rest []) && not (includes b'/' rest) then some (rest, page) else none
]

-- `parseWaitPath`
unfoldable pub parse_wait_path : Text → Option (Text × WaitKind)
unfolding starts_with parse_wait_rest
parse_wait_path path =
    if not (starts_with (wait_prefix ++ codes "/") path)
    then none
    else parse_wait_rest (drop (length wait_prefix + 1) path)
