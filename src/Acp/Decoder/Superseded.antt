-- ===== src/Acp/Decoder/Superseded.antt =====
-- nc/acp_decoder.py: what a success says of the failures on the wire.
use neocortex.Acp.Wire.{is_request, is_response}
use neocortex.Acp.Usage.{at_path}
use neocortex.Acp.Decoder.{failure_path}
use neocortex.Acp.Decoder.Reported.{UpdateFailure}
use neocortex.Json.{Fields, Json, dict, lookup}
use neocortex.Prelude.{List, String, get_elem?, some, true, ℕ, ◌<◌, ◌≡◌}

-- A failure that the wire reports for a prompt: in an update between the request and the response, or
-- in the result of the response.
pub data Reported (rid sid : String) (wire : List Json) (value : Json) : Type 0 where
  in_update :
      (start n stop : ℕ) (q v p : Json)
      → get_elem? wire start ≡ some q
      → is_request rid sid q ≡ true
      → get_elem? wire n ≡ some v
      → UpdateFailure rid sid v value
      → get_elem? wire stop ≡ some p
      → is_response rid p ≡ true
      → start < n
      → n < stop
      → Reported rid sid wire value
  in_result :
      (stop : ℕ) (fs : Fields) (result : Json)
      → get_elem? wire stop ≡ some (dict fs)
      → is_response rid (dict fs) ≡ true
      → lookup "result" fs ≡ some result
      → at_path failure_path result ≡ some value
      → Reported rid sid wire value
