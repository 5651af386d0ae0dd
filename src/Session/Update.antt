-- ===== src/Session/Update.antt =====
-- `_on_session_update`: what a client may configure. Reading a field of a value that is no dict
-- raises, as `.get` does on it.
use pipecat_local_stt_server.Prelude.{
  String, Bool, true, false, Option, none, some, str_eq, if◌then◌else◌,
}
use pipecat_local_stt_server.Protocol.{
  invalid_config, audio_format, audio_sample_rate_hz, audio_channels,
}
use pipecat_local_stt_server.Json.{
  Json, null, str, obj, Fields, lookup, truthy, or_dict, eq_str, eq_nat,
}
use pipecat_local_stt_server.Session.State.{
  text, session_updated, transcription_session_updated, SessionConfig, Session, Io,
}
use pipecat_local_stt_server.Session.Send.{send, send_error, session_snapshot}

-- A value, a refusal with its message, or an exception of Python's.
pub data Check {ℓ} (A : Type ℓ) : Type ℓ where
  accepts : A → Check A
  refuses : String → Check A
  raises : Check A

infixl 5 ◌>>=◌ ◌>>◌
abbrev pub ◌>>=◌ {ℓ κ} : {A : Type ℓ} {B : Type κ} → Check A → (A → Check B) → Check B
accepts a >>= f = f a
refuses m >>= f = refuses m
raises >>= f = raises

abbrev pub ◌>>◌ {ℓ} : {B : Type ℓ} → Check (Unit {0}) → Check B → Check B
m >> k = m >>= λ _. k

abbrev pub require : Bool → String → Check (Unit {0})
require true m = accepts tt
require false m = refuses m

-- the dict that `.get` is called on
unfoldable pub as_dict : Json → Check Fields
as_dict (obj fs) = accepts fs
as_dict _ = raises

-- `if isinstance(fmt_root, str): if fmt_root != "pcm16": refuse`
unfoldable pub check_root : Option Json → Check (Unit {0})
check_root (some (str f)) =
    require (str_eq f audio_format) "only 'pcm16' input_audio_format is supported"
check_root _ = accepts tt

-- `d.get(k, default) != default` does not hold
unfoldable pub absent_or : (Json → Bool) → Option Json → Bool
absent_or test none = true
absent_or test (some v) = test v

unfoldable pub check_fields : Fields → Check (Unit {0})
unfolding absent_or eq_str eq_nat lookup
check_fields fmt = do
  require (absent_or (eq_str audio_format) (lookup "encoding" fmt))
      "only pcm16 encoding is supported"
  require (absent_or (eq_nat audio_sample_rate_hz) (lookup "rate" fmt))
      "only 16000 Hz sample rate is supported"
  require (absent_or (eq_nat audio_channels) (lookup "channels" fmt)) "only mono audio is supported"

-- `fmt = audio_in.get("format") or {}`, then `if fmt:`
unfoldable pub check_format : Json → Check (Unit {0})
unfolding truthy as_dict check_fields
check_format fmt = if truthy fmt then (do fields ← as_dict fmt; check_fields fields) else accepts tt

-- the dicts `session` and `audio_in`, their formats checked; what `audio_in` is shows at its first `.get`
unfoldable pub read_update : Fields → Check (Fields × Fields)
unfolding lookup or_dict as_dict check_root check_format
read_update msg = do
  session ← as_dict (or_dict (lookup "session" msg))
  audio ← as_dict (or_dict (lookup "audio" session))
  check_root (lookup "input_audio_format" session)
  audio_in ← as_dict (or_dict (lookup "input" audio))
  check_format (or_dict (lookup "format" audio_in))
  accepts (session, audio_in)

-- one round of the loop over `turn_detection`: whether it is refused, and the configuration after
unfoldable pub check_turn_detection : Option Json → SessionConfig → Bool × SessionConfig
check_turn_detection none c = (false, c)
check_turn_detection (some null) c = (false, record c { turn_detection = null })
check_turn_detection (some _) c = (true, c)

unfoldable pub set_language : Option Json → SessionConfig → SessionConfig
set_language none c = c
set_language (some l) c = record c { language = some l }

-- `transcription["language"]`, where `transcription` is a dict that has it
unfoldable pub nested_language : Option Json → Option Json
unfolding lookup
nested_language (some (obj fs)) = lookup "language" fs
nested_language _ = none

unfoldable pub update_languages : Fields → Fields → SessionConfig → SessionConfig
unfolding set_language nested_language lookup
update_languages session audio_in c =
    set_language (nested_language (lookup "input_audio_transcription" session))
      (set_language (lookup "language" audio_in) c)

unfoldable pub turn_detection_error : Io → Option String → Session → Session
turn_detection_error io client_event_id s =
    send_error io invalid_config (text "server VAD is not implemented; use turn_detection: null")
      client_event_id s

-- both events carry the snapshot taken before the first is sent
unfoldable pub announce_update : Io → Session → Session
announce_update io s =
    let shot = session_snapshot s in
    send io false (transcription_session_updated shot) (send io false (session_updated shot) s)

unfoldable pub apply_update : Io → Option String → Fields → Fields → Session → Session
unfolding lookup check_turn_detection update_languages turn_detection_error announce_update
apply_update io client_event_id session audio_in s =
    let (refused, c) = check_turn_detection (lookup "turn_detection" session) s.config in
    let (refused', c') = check_turn_detection (lookup "turn_detection" audio_in) c in
    if refused
    then turn_detection_error io client_event_id (record s { config = c })
    else if refused'
    then turn_detection_error io client_event_id (record s { config = c' })
    else announce_update io (record s { config = update_languages session audio_in c' })

unfoldable pub updated : Io → Option String → Check (Fields × Fields) → Session → Session × Bool
unfolding apply_update
updated io client_event_id (accepts (session, audio_in)) s =
    (apply_update io client_event_id session audio_in s, false)
updated io client_event_id (refuses m) s =
    (send_error io invalid_config (text m) client_event_id s, false)
updated io client_event_id raises s = (s, true)

-- the state after it, and whether it raised
unfoldable pub on_session_update : Io → Fields → Option String → Session → Session × Bool
unfolding read_update updated
on_session_update io msg client_event_id s = updated io client_event_id (read_update msg) s
