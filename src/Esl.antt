-- ===== src/Esl.antt =====
-- The client of FreeSWITCH's event socket (src/telephony/esl_client.py) and the call records that its
-- handlers write (src/services/calls.py).
pub mod Framing
pub mod Calls
pub mod Handlers
