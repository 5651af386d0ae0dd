-- ===== src/Session/Refusals.antt =====
-- What the reading of a session update takes and refuses: the first half of `_on_session_update` of
-- stt_server/server.py.
use pipecat_local_stt_server.Prelude.{
  String, Bool, true, false, not, Option, none, some, ◌≡◌, refl, sym, ◌⊎◌, inl, inr, arith, str_eq,
  Bool-cases, false≢true,
}
use pipecat_local_stt_server.Protocol.{audio_format, audio_sample_rate_hz, audio_channels}
use pipecat_local_stt_server.Json.{
  Json, null, bool, num, non_finite, str, arr, obj, Fields, lookup, truthy, or_dict, eq_str, eq_nat,
}
use pipecat_local_stt_server.Session.Update.{
  Check, accepts, refuses, raises, ◌>>=◌, ◌>>◌, as_dict, check_root, absent_or, check_fields,
  check_format, read_update,
}

-- `d.get(k) or {}` is this dict, or no dict
abbrev pub IsDict : String → Fields → Fields → Type 0
IsDict k fs d = or_dict (lookup k fs) ≡ obj d

abbrev is_dict : Json → Bool
is_dict (obj fs) = true
is_dict _ = false

abbrev pub IsNoDict : String → Fields → Type 0
IsNoDict k fs = is_dict (or_dict (lookup k fs)) ≡ false

-- another format than pcm16, named at the root of the session
abbrev names_other : Option Json → Bool
names_other (some (str f)) = not (str_eq f "pcm16")
names_other _ = false

abbrev pub names_other_format : Fields → Bool
names_other_format session = names_other (lookup "input_audio_format" session)

-- a field that is given with another value
abbrev differs : (Json → Bool) → Option Json → Bool
differs test none = false
differs test (some v) = not (test v)

abbrev pub wrong_encoding : Fields → Bool
wrong_encoding fmt = differs (eq_str "pcm16") (lookup "encoding" fmt)

abbrev pub wrong_rate : Fields → Bool
wrong_rate fmt = differs (eq_nat 16000) (lookup "rate" fmt)

abbrev pub wrong_channels : Fields → Bool
wrong_channels fmt = differs (eq_nat 1) (lookup "channels" fmt)

abbrev pub wants : Option Json → Bool
wants none = false
wants (some null) = false
wants (some v) = true

-- turn detection is asked for
abbrev pub wants_detection : Fields → Bool
wants_detection fs = wants (lookup "turn_detection" fs)

-- The message for a format, if it is refused: the first field that is wrong.
abbrev pub IsWrongFormat : Fields → String → Type 0
IsWrongFormat fmt m =
    ((wrong_encoding fmt ≡ true) × (m ≡ "only pcm16 encoding is supported"))
    ⊎ ((wrong_encoding fmt ≡ false)
        × (((wrong_rate fmt ≡ true) × (m ≡ "only 16000 Hz sample rate is supported"))
            ⊎ ((wrong_rate fmt ≡ false)
                × (wrong_channels fmt ≡ true)
                × (m ≡ "only mono audio is supported"))))

abbrev pub IsRightFormat : Fields → Type 0
IsRightFormat fmt =
    (wrong_encoding fmt ≡ false) × (wrong_rate fmt ≡ false) × (wrong_channels fmt ≡ false)

-- the parts of an update up to the format that the root names
pub record Parts (msg session audio : Fields) : Type 0 where
  pub is_session : IsDict "session" msg session
  pub is_audio : IsDict "audio" session audio

-- ... and those below
pub record Input (session audio audio_in fmt : Fields) : Type 0 where
  pub right_root : names_other_format session ≡ false
  pub is_input : IsDict "input" audio audio_in
  pub is_format : IsDict "format" audio_in fmt

-- An update that is refused for its format, with the message.
abbrev pub IsRefused : Fields → String → Type 0
IsRefused msg m =
    (session : Fields) × (audio : Fields) × Parts msg session audio
    × (((names_other_format session ≡ true) × (m ≡ "only 'pcm16' input_audio_format is supported"))
        ⊎ ((audio_in : Fields) × (fmt : Fields) × Input session audio audio_in fmt
            × IsWrongFormat fmt m))

-- An update with a part that is no dict, where the code reads a field of it.
abbrev pub IsOdd : Fields → Type 0
IsOdd msg =
    IsNoDict "session" msg
    ⊎ ((session : Fields) × IsDict "session" msg session
        × (IsNoDict "audio" session
            ⊎ ((audio : Fields) × IsDict "audio" session audio
                × (names_other_format session ≡ false)
                × (IsNoDict "input" audio
                    ⊎ ((audio_in : Fields) × IsDict "input" audio audio_in
                        × IsNoDict "format" audio_in)))))

-- An update whose parts are dicts and whose format is right.
abbrev pub IsTaken : Fields → Fields → Fields → Type 0
IsTaken msg session audio_in =
    (audio : Fields) × (fmt : Fields) × Parts msg session audio
    × Input session audio audio_in fmt
    × IsRightFormat fmt

abbrev pub ReadsAs : Fields → Check (Fields × Fields) → Type 0
ReadsAs msg (accepts (session, audio_in)) = IsTaken msg session audio_in
ReadsAs msg (refuses m) = IsRefused msg m
ReadsAs msg raises = IsOdd msg

-- a value is a dict, or reading a field of it raises
abbrev DictCases : Json → Type 0
DictCases v = ((fs : Fields) × (v ≡ obj fs)) ⊎ ((is_dict v ≡ false) × (as_dict v ≡ raises))

dict_cases : (v : Json) → DictCases v
unfolding as_dict
dict_cases null = inr (refl, refl)
dict_cases (bool b) = inr (refl, refl)
dict_cases (num n m e) = inr (refl, refl)
dict_cases non_finite = inr (refl, refl)
dict_cases (str s) = inr (refl, refl)
dict_cases (arr xs) = inr (refl, refl)
dict_cases (obj fs) = inl (fs, refl)

abbrev FormatAs : Fields → Check (Unit {0}) → Type 0
FormatAs fmt (accepts u) = IsRightFormat fmt
FormatAs fmt (refuses m) = IsWrongFormat fmt m
FormatAs fmt raises = ⊥

format_dict : (o : Option Json) → check_format (or_dict o) ≡ (as_dict (or_dict o) >>= check_fields)
unfolding check_format or_dict as_dict check_fields truthy lookup absent_or
format_dict none = refl
format_dict (some v) = elim (Bool-cases (truthy v)) [
  | inl filled ↦ rw filled (rw filled refl)
  | inr empty ↦ rw empty refl
]

absent-differs : (test : Json → Bool) (o : Option Json) → absent_or test o ≡ not (differs test o)
unfolding absent_or
absent-differs test none = refl
absent-differs test (some v) = twice (test v)
  where
    twice : (b : Bool) → b ≡ not (not b)
    twice b = ground arith

fields-FormatAs : (fmt : Fields) → FormatAs fmt (check_fields fmt)
unfolding check_fields
fields-FormatAs fmt =
    rw
      (
        absent-differs (eq_str audio_format) (lookup "encoding" fmt),
        absent-differs (eq_nat audio_sample_rate_hz) (lookup "rate" fmt),
        absent-differs (eq_nat audio_channels) (lookup "channels" fmt),
      )
      (elim (Bool-cases (wrong_encoding fmt)) [
        | inl wrong ↦ rw wrong (inl (wrong, refl))
        | inr encoded ↦ elim (Bool-cases (wrong_rate fmt)) [
          | inl wrong ↦ rw (encoded, wrong) (inr (encoded, inl (wrong, refl)))
          | inr rated ↦ elim (Bool-cases (wrong_channels fmt)) [
            | inl wrong ↦ rw (encoded, rated, wrong) (inr (encoded, inr (rated, wrong, refl)))
            | inr mono ↦ rw (encoded, rated, mono) (encoded, rated, mono)
          ]
        ]
      ])

root_refuses :
    (o : Option Json)
    → names_other o ≡ true
    → check_root o ≡ refuses "only 'pcm16' input_audio_format is supported"
unfolding check_root
root_refuses (some (str f)) other = elim (Bool-cases (str_eq f "pcm16")) [
  | inl same ↦ absurd (false≢true (rw same at other))
  | inr differs ↦ rw differs refl
]
root_refuses none other = absurd (false≢true other)
root_refuses (some _) other = absurd (false≢true other)

root_accepts : (o : Option Json) → names_other o ≡ false → check_root o ≡ accepts tt
unfolding check_root
root_accepts (some (str f)) same = elim (Bool-cases (str_eq f "pcm16")) [
  | inl right ↦ rw right refl
  | inr differs ↦ absurd (false≢true (sym (rw differs at same)))
]
root_accepts none same = refl
root_accepts (some _) same = refl

module _ (msg session audio : Fields) (parts : Parts msg session audio) where
  -- the end of the reading, for what the format gives
  format-ReadsAs :
      (audio_in fmt : Fields) (c : Check (Unit {0}))
      → Input session audio audio_in fmt
      → FormatAs fmt c
      → ReadsAs msg (c >>= λ _. accepts (session, audio_in))
  format-ReadsAs audio_in fmt (accepts u) input h = (audio, fmt, parts, input, h)
  format-ReadsAs audio_in fmt (refuses m) input h =
      (session, audio, parts, inr (audio_in, fmt, input, h))
  format-ReadsAs audio_in fmt raises input h = absurd h

  input-ReadsAs :
      (audio_in : Fields)
      → names_other_format session ≡ false
      → IsDict "input" audio audio_in
      → ReadsAs msg
          (check_format (or_dict (lookup "format" audio_in)) >>= λ _. accepts (session, audio_in))
  unfolding as_dict
  input-ReadsAs audio_in right is_input =
      rw (format_dict (lookup "format" audio_in))
        (elim (dict_cases (or_dict (lookup "format" audio_in))) [
          | inl (fmt, e) ↦ rw e (
              format-ReadsAs audio_in fmt (check_fields fmt)
                (record { right_root = right; is_input = is_input; is_format = e })
                (fields-FormatAs fmt))
          | inr (odd, e) ↦ rw e (
              inr (
                session,
                parts.is_session,
                inr (audio, parts.is_audio, right, inr (audio_in, is_input, odd)),
              ))
        ])

  root-ReadsAs : ReadsAs msg (do
    check_root (lookup "input_audio_format" session)
    audio_in ← as_dict (or_dict (lookup "input" audio))
    check_format (or_dict (lookup "format" audio_in))
    accepts (session, audio_in))
  unfolding as_dict
  root-ReadsAs = elim (Bool-cases (names_other_format session)) [
    | inl other ↦
        rw (root_refuses (lookup "input_audio_format" session) other)
          (session, audio, parts, inl (other, refl))
    | inr right ↦
        rw (root_accepts (lookup "input_audio_format" session) right)
          (elim (dict_cases (or_dict (lookup "input" audio))) [
            | inl (audio_in, e) ↦ rw e (input-ReadsAs audio_in right e)
            | inr (odd, e) ↦
                rw e (inr (session, parts.is_session, inr (audio, parts.is_audio, right, inl odd)))
          ])
  ]

pub read_update-ReadsAs : (msg : Fields) → ReadsAs msg (read_update msg)
unfolding read_update as_dict
read_update-ReadsAs msg = elim (dict_cases (or_dict (lookup "session" msg))) [
  | inl (session, e) ↦ rw e (elim (dict_cases (or_dict (lookup "audio" session))) [
    | inl (audio, e') ↦
        rw e' (root-ReadsAs msg session audio (record { is_session = e; is_audio = e' }))
    | inr (odd, e') ↦ rw e' (inr (session, e, inl odd))
  ])
  | inr (odd, e) ↦ rw e (inl odd)
]
