-- ===== src/Agent/Answer.antt =====
-- hydra/agent/openclaw_bridge.py: `_resolve_openclaw` and `_call_openclaw`, how the agent is called and how
-- its answer is read.
use hydra_engine.Base.{
  ℕ, Bool, ◌&&◌, ◌||◌, Option, none, some, List, [], ◌∷◌, ◌++◌, leb, ◌==◌, drop, length, get_or,
  if◌then◌else◌,
}
use hydra_engine.Text.{Str, codes, str_eq}
use hydra_engine.Json.{truth, Json, str, arr, obj, nil, cons, Fields, end, member?}
use hydra_engine.Redis.{starts_with}
use hydra_engine.Exec.{Result, ok, err, and_then}
use hydra_engine.Float.{Float}
use hydra_engine.Core.Types.{Error, value_error}
use hydra_engine.Core.OrderQueue.{fields_of}

-- What the bridge asks of the operating system. `lower` is the text in small letters and ends in the
-- extension or not.
pub record Host : Type 0 where
  pub which : Str → Option Str
  pub is_windows : Bool
  pub is_cmd : Str → Bool
  -- The path of the script beside a command.
  pub script_beside : Str → Str
  pub is_file : Str → Bool

-- The loop over the two names.
unfoldable pub find_openclaw : Host → Option Str
find_openclaw host = elim (host.which (codes "openclaw")) [
  | some path ↦ some path
  | none ↦ host.which (codes "openclaw.cmd")
]

-- The program and its first arguments; none is the FileNotFoundError.
unfoldable pub resolve_openclaw : Host → Option (Str × List Str)
unfolding find_openclaw
resolve_openclaw host = elim (find_openclaw host) [
  | none ↦ none
  | some path ↦
      if host.is_windows && host.is_cmd path
      then (if host.is_file (host.script_beside path)
          then elim (host.which (codes "node")) [
            | some node ↦ some (node, host.script_beside path ∷ [])
            | none ↦ some (path, [])
          ]
          else some (path, []))
      else some (path, [])
]

-- The text before the first `sep` and the text after it; none where it does not occur.
unfoldable pub partition : Str → Str → Option (Str × Str)
unfolding starts_with
partition sep [] = if starts_with sep [] then some ([], []) else none
partition sep (c ∷ s) =
    let rest = partition sep s in
    if starts_with sep (c ∷ s)
    then some ([], drop (length sep) (c ∷ s))
    else elim rest [ none ↦ none | some (before, after) ↦ some (c ∷ before, after) ]

-- `s.split(sep)[0]`
unfoldable pub first_part : Str → Str → Str
unfolding partition
first_part sep s = elim (partition sep s) [ none ↦ s | some (before, after) ↦ before ]

-- White space, in ASCII.
abbrev pub is_space : ℕ → Bool
is_space c = (leb 9 c && leb c 13) || (leb 28 c && leb c 32)

unfoldable pub lstrip : Str → Str
lstrip [] = []
lstrip (c ∷ s) = let rest = lstrip s in if is_space c then rest else c ∷ s

unfoldable pub rstrip : Str → Str
rstrip [] = []
rstrip (c ∷ s) = let rest = rstrip s in if is_space c && str_eq rest [] then [] else c ∷ rest

abbrev pub strip : Str → Str
strip s = rstrip (lstrip s)

-- The block of JSON in the answer: the text of the first fence, if it has one.
unfoldable pub json_block : Str → Str
unfolding partition first_part lstrip rstrip
json_block text = elim (partition (codes "```json") text) [
  | some (before, after) ↦ strip (first_part (codes "```") (first_part (codes "```json") after))
  | none ↦ elim (partition (codes "```") text) [
    | some (before, after) ↦ strip (first_part (codes "```") after)
    | none ↦ text
  ]
]

module _ {F : Type 0} (f : Float F) where
  -- `outer.get("text") or outer.get("reply") or outer.get("message") or output`
  unfoldable pub first_true : List Str → Fields F → Str → Json F
  first_true [] outer output = str output
  first_true (k ∷ ks) outer output =
      let rest = first_true ks outer output in
      elim (member? k outer) [ none ↦ rest | some v ↦ if truth f v then v else rest ]

  abbrev pub text_of : Json F → Result (Error F) Str
  text_of (str s) = ok s
  text_of _ = err value_error

  -- `payloads[0].get("text", "") if payloads else …`; an answer of another shape raises.
  abbrev pub payload_text : Json F → Fields F → Str → Result (Error F) Str
  payload_text (arr (cons x xs)) outer output =
      and_then (fields_of x) λ d. text_of (get_or (member? (codes "text") d) (str []))
  payload_text payloads outer output =
      if truth f payloads
      then err value_error
      else text_of (first_true (codes "text" ∷ codes "reply" ∷ codes "message" ∷ []) outer output)

  unfoldable pub answer_text : Fields F → Str → Result (Error F) Str
  answer_text outer output =
      and_then (fields_of (get_or (member? (codes "result") outer) (obj end)))
        λ result. payload_text (get_or (member? (codes "payloads") result) (arr nil)) outer output

  -- What the program printed, read with the JSON decoder `decode`; none is the `None` of a decode error.
  unfoldable pub read_answer : (Str → Option (Json F)) → Str → Result (Error F) (Option (Json F))
  unfolding answer_text json_block
  read_answer decode stdout = elim (decode (strip stdout)) [
    | none ↦ ok none
    | some outer ↦
        and_then (fields_of outer)
          λ d. and_then (answer_text d (strip stdout)) λ text. ok (decode (json_block text))
  ]

  -- `run` is the subprocess: its return code and what it printed, none where it takes too long.
  unfoldable pub call_openclaw :
      (Str → Option (Json F))
      → Host
      → (Str → List Str → Option (ℕ × Str))
      → Str
      → Str
      → Str
      → Result (Error F) (Option (Json F))
  unfolding resolve_openclaw read_answer
  call_openclaw decode host run agent_id timeout prompt = elim (resolve_openclaw host) [
    | none ↦ ok none
    | some (exe, prefix_args) ↦
        elim (run exe (
          prefix_args
          ++ codes "agent"
            ∷ codes "--agent"
            ∷ agent_id
            ∷ codes "--message"
            ∷ prompt
            ∷ codes "--json"
            ∷ codes "--timeout"
            ∷ timeout
            ∷ [])) [
              | none ↦ ok none
              | some (code, stdout) ↦ if code == 0 then read_answer decode stdout else ok none
            ]
  ]
