-- ===== src/Protocol.antt =====
-- nc/protocol.py: the outcome of a turn, as the scheduler sees it, and `read_outcome`.
pub mod Reads
use neocortex.Prelude.Int.{eq_ℤ, pos}
use neocortex.Json.{
  Fields, Json, bool, cons, dict, end, field, float, get, int, items, list, lookup, nil, str,
}
use neocortex.Prelude.{
  Bool, List, Option, String, [], false, if◌then◌else◌, map, none, null, some, str_eq, text_append,
  true, ◌∷◌,
}
use neocortex.State.Tables.{OutcomeKind}
use neocortex.State.Exec.{Error, Result, err, ok}

pub record Outcome : Type 0 where
  pub kind : OutcomeKind
  pub summary : String
  pub memo : String
  pub to : String
  pub question : String
  pub verdict : String
  pub findings : List String
  pub raw : Fields
  pub host_deferred : Bool

-- What Python makes of values and texts: `str` of a value that is no text, `str.upper`, `str.lower`
-- and `repr` of a text.
pub record Python : Type 0 where
  pub str_value : Json → String
  pub upper : String → String
  pub lower : String → String
  pub repr : String → String

-- The outcome file: there is none, it is not JSON, with the text of the exception, it holds a value,
-- or reading it raises something else.
pub data OutcomeFile : Type 0 where
  absent : OutcomeFile
  not_json : String → OutcomeFile
  holds : Json → OutcomeFile
  unreadable : Error → OutcomeFile

abbrev pub empty_outcome : OutcomeKind → String → Outcome
empty_outcome kind summary = record {
  kind = kind;
  summary = summary;
  memo = "";
  to = "owner";
  question = "";
  verdict = "";
  findings = [];
  raw = end;
  host_deferred = false;
}

-- `VALID_OUTCOMES`
unfoldable pub kind_named : String → Option OutcomeKind
kind_named text =
    if str_eq text "DONE"
    then some OutcomeKind.done
    else if str_eq text "ASK"
    then some OutcomeKind.ask
    else if str_eq text "YIELD"
    then some OutcomeKind.yielded
    else if str_eq text "FAIL"
    then some OutcomeKind.fail
    else none

-- `str(value)`
abbrev pub text_of : Python → Json → String
text_of py (str s) = s
text_of py v = py.str_value v

-- `str(data.get(key, default))`
abbrev pub text_at : Python → String → String → Fields → String
text_at py key default fs = elim (lookup key fs) [ none ↦ default | some v ↦ text_of py v ]

-- `value or []` on a value that is falsy.
abbrev pub is_falsy : Json → Bool
is_falsy Json.null = true
is_falsy (bool b) = if b then false else true
is_falsy (int z) = eq_ℤ z (pos 0)
is_falsy (float m k) = eq_ℤ m (pos 0)
is_falsy (str s) = str_eq s ""
is_falsy (list nil) = true
is_falsy (list (cons v vs)) = false
is_falsy (dict end) = true
is_falsy (dict (field k v fs)) = false

-- The findings as texts.
unfoldable pub findings_of : Python → Json → List String
unfolding items
findings_of py (list vs) = map (text_of py) (items vs)
findings_of py v = if is_falsy v then [] else text_of py v ∷ []

-- The text of the `outcome` key.
abbrev pub named_outcome : Python → Fields → String
named_outcome py fs = py.upper (text_at py "outcome" "" fs)

unfoldable pub decoded_outcome : Python → Fields → OutcomeKind → Outcome
unfolding findings_of
decoded_outcome py fs kind = record {
  kind = kind;
  summary = text_at py "summary" "" fs;
  memo = text_at py "memo" "" fs;
  to = text_at py "to" "owner" fs;
  question = text_at py "question" "" fs;
  verdict = py.lower (text_at py "verdict" "" fs);
  findings = findings_of py (get "findings" fs);
  raw = fs;
  host_deferred = false;
}

-- The value is kept.
abbrev pub unknown_outcome : Python → Fields → Outcome
unknown_outcome py fs =
    record (empty_outcome OutcomeKind.no_outcome
      (text_append "unknown outcome " (py.repr (named_outcome py fs)))) { raw = fs }

unfoldable pub read_value : Python → Json → Outcome
unfolding kind_named decoded_outcome
read_value py (dict fs) = elim (kind_named (named_outcome py fs)) [
  | some kind ↦ decoded_outcome py fs kind
  | none ↦ unknown_outcome py fs
]
read_value py _ = empty_outcome OutcomeKind.no_outcome "outcome file is not a JSON object"

unfoldable pub read_outcome : Python → OutcomeFile → Result Outcome
unfolding read_value
read_outcome py absent = ok (empty_outcome OutcomeKind.no_outcome "agent wrote no outcome file")
read_outcome py (not_json text) =
    ok (empty_outcome OutcomeKind.no_outcome (text_append "outcome file is not valid JSON: " text))
read_outcome py (holds v) = ok (read_value py v)
read_outcome py (unreadable e) = err e
