-- ===== src/Acp.antt =====
-- nc/acp_stream.py, nc/acp_decoder.py, nc/acp_contract.py and nc/acp_client.py: the wire of one ACP
-- process, the evidence of one prompt on it, and the turn that asks the prompt.
pub mod Usage
pub mod Air
pub mod Evidence
pub mod Client
pub mod Projection
pub mod Turn
pub mod Failure
pub mod Wire
pub mod Decoder
pub mod Contract
pub mod Stream
