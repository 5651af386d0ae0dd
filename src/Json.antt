-- ===== src/Json.antt =====
-- Parsed JSON values as stt_server/server.py reads them: Python's truthiness, `==` and `dict.get`.
-- `json.loads` itself is a library call, so its result is what the model starts from.
use pipecat_local_stt_server.Prelude.{
  ℕ, ◌*◌, ◌^◌, String, Bool, true, false, not, ◌&&◌, Option, none, some, str_eq, ◌==◌, is_some,
  if◌then◌else◌,
}

-- A finite JSON number is a float or an int of Python, so it is plus or minus `mag / 2 ^ exp`.
-- `non_finite` stands for NaN and the infinities, which `json.loads` accepts.
mutual
  pub data Json : Type 0 where
    null : Json
    bool : Bool → Json
    num : Bool → ℕ → ℕ → Json
    non_finite : Json
    str : String → Json
    arr : Items → Json
    obj : Fields → Json

  pub data Items : Type 0 where
    nil : Items
    cons : Json → Items → Items

  pub data Fields : Type 0 where
    end : Fields
    field : String → Json → Fields → Fields

-- d.get(k); `json.loads` keeps one entry for each key
unfoldable pub lookup : String → Fields → Option Json
lookup k end = none
lookup k (field j v fs) = if str_eq j k then some v else lookup k fs

-- k in d
unfoldable pub has_key : String → Fields → Bool
unfolding lookup
has_key k fs = is_some (lookup k fs)

-- bool(v)
unfoldable pub truthy : Json → Bool
truthy null = false
truthy (bool b) = b
truthy (num negative mag exp) = not (mag == 0)
truthy non_finite = true
truthy (str s) = not (str_eq s "")
truthy (arr nil) = false
truthy (arr (cons x xs)) = true
truthy (obj end) = false
truthy (obj (field k v fs)) = true

-- `v or {}`, where `v` is what `d.get(k)` returned
unfoldable pub or_dict : Option Json → Json
unfolding truthy
or_dict none = obj end
or_dict (some v) = if truthy v then v else obj end

-- v == s
unfoldable pub eq_str : String → Json → Bool
eq_str s (str t) = str_eq t s
eq_str s _ = false

-- v == n, where True is 1, False is 0 and 16000.0 is 16000
unfoldable pub eq_nat : ℕ → Json → Bool
eq_nat n (num negative mag exp) = if negative then mag == 0 && n == 0 else mag == n * 2 ^ exp
eq_nat n (bool true) = n == 1
eq_nat n (bool false) = n == 0
eq_nat n _ = false

-- `v if isinstance(v, str) else None`
unfoldable pub as_str : Option Json → Option String
as_str (some (str s)) = some s
as_str _ = none
