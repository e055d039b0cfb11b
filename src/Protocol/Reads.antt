-- ===== src/Protocol/Reads.antt =====
-- nc/protocol.py: what an outcome that was read says of the file.
use neocortex.State.Tables.{OutcomeKind}
use neocortex.Protocol.{Outcome, OutcomeFile, Python, holds, text_at}
use neocortex.Prelude.{String, false, ◌⊎◌, ◌↔◌, ◌≡◌}
use neocortex.Json.{Fields, dict}

-- The words of the contract that the agent is given.
abbrev pub word : OutcomeKind → String
word OutcomeKind.done = "DONE"
word OutcomeKind.ask = "ASK"
word OutcomeKind.yielded = "YIELD"
word OutcomeKind.fail = "FAIL"
word OutcomeKind.no_outcome = "NO_OUTCOME"

-- The file holds an object that has the word of the kind.
abbrev pub Names : Python → OutcomeFile → OutcomeKind → Type 0
Names py f k =
    (fs : Fields) × (f ≡ holds (dict fs)) × (py.upper (text_at py "outcome" "" fs) ≡ word k)

-- The outcome has the texts of the object that the file holds.
abbrev pub HasTexts : Python → OutcomeFile → Outcome → Type 0
HasTexts py f o =
    (fs : Fields) × (f ≡ holds (dict fs))
    × (o.summary ≡ text_at py "summary" "" fs)
    × (o.memo ≡ text_at py "memo" "" fs)
    × (o.to ≡ text_at py "to" "owner" fs)
    × (o.question ≡ text_at py "question" "" fs)
    × (o.verdict ≡ py.lower (text_at py "verdict" "" fs))
    × (o.raw ≡ fs)

abbrev IsRead : Python → OutcomeFile → OutcomeKind → Outcome → Type 0
IsRead py f k o =
    ((o.kind ≡ k) ↔ Names py f k)
    × ((o.kind ≡ OutcomeKind.no_outcome) ⊎ HasTexts py f o)
    × (o.host_deferred ≡ false)
