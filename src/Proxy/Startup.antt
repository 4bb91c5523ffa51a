-- ===== src/Proxy/Startup.antt =====
-- The startup frames of hostd/src/proxy/tcp.rs. A stream is the list of its bytes.
-- `lossy` is `String::from_utf8_lossy`.
pub mod RoundTrip
use tikovm.Prelude.{
  ℕ, zero, suc, ◌+◌, ◌-◌, ◌*◌, ◌/◌, ◌%◌, ◌^◌, Bool, true, false, ◌&&◌, ◌||◌, leb, ltb, nat_beq,
  Option, none, some, List, [], ◌∷◌, ◌++◌, Text, bytes, length, take, drop, ok, err, if◌then◌else◌,
}
use tikovm.Prelude

-- The strings that a refused connection is told, by what they say.
pub data Refusal : Type 0 where
  short_read : Refusal
  implausible_length : ℕ → Refusal
  malformed_startup missing_token cancel_unsupported : Refusal
  unsupported_code : ℕ → Refusal

abbrev pub protocol_v3 : ℕ
protocol_v3 = 196608

abbrev pub ssl_request : ℕ
ssl_request = 80877103

abbrev pub gssenc_request : ℕ
gssenc_request = 80877104

abbrev pub cancel_request : ℕ
cancel_request = 80877102

abbrev pub max_startup_frame : ℕ
max_startup_frame = 16 * 1024

-- `u32::to_be_bytes`.
abbrev pub to_be_bytes : ℕ → Text
to_be_bytes n = n / 16777216 % 256 ∷ n / 65536 % 256 ∷ n / 256 % 256 ∷ n % 256 ∷ []

-- `u32::from_be_bytes`.
abbrev pub from_be_bytes : ℕ → ℕ → ℕ → ℕ → ℕ
from_be_bytes a b c d = a * 16777216 + b * 65536 + c * 256 + d

abbrev pub plausible : ℕ → Bool
plausible len = leb 8 len && leb len max_startup_frame

unfoldable pub looks_like_postgres : Text → Bool
looks_like_postgres (a ∷ b ∷ c ∷ d ∷ e ∷ f ∷ g ∷ h ∷ rest) =
    let code = from_be_bytes e f g h in
    plausible (from_be_bytes a b c d)
    && (nat_beq code protocol_v3
        || nat_beq code ssl_request
        || nat_beq code gssenc_request
        || nat_beq code cancel_request)
looks_like_postgres _ = false

-- The frame, and what the stream still holds.
unfoldable pub read_frame : Text → Prelude.Result Refusal (Text × Text)
read_frame (a ∷ b ∷ c ∷ d ∷ rest) =
    let len = from_be_bytes a b c d in
    if plausible len
    then if leb (len - 4) (length rest)
      then ok (a ∷ b ∷ c ∷ d ∷ take (len - 4) rest, drop (len - 4) rest)
      else err short_read
    else err (implausible_length len)
read_frame _ = err short_read

-- Up to the first NUL, and after it.
unfoldable pub until_nul : Text → Option (Text × Text)
until_nul [] = none
until_nul (b ∷ bs) = elim (until_nul bs) [
  | none ↦ if nat_beq b 0 then some ([], bs) else none
  | some (t, rest) ↦ if nat_beq b 0 then some ([], bs) else some (b ∷ t, rest)
]

-- The parameters: the bytes left bound the rounds of the loop.
unfoldable pub parse_params : (Text → Text) → ℕ → Text → Option (List (Text × Text))
parse_params lossy zero rest = none
parse_params lossy (suc n) rest = elim (until_nul rest) [
  | none ↦ none
  | some ([], left) ↦ some []
  | some (b ∷ key, left) ↦ elim (until_nul left) [
    | none ↦ none
    | some (value, left') ↦ elim (parse_params lossy n left') [
      | none ↦ none
      | some params ↦ some ((lossy (b ∷ key), lossy value) ∷ params)
    ]
  ]
]

unfoldable pub parse_startup : (Text → Text) → Text → Option (List (Text × Text))
parse_startup lossy frame = parse_params lossy (length frame + 1) (drop 8 frame)

unfoldable pub params_bytes : List (Text × Text) → Text
params_bytes [] = 0 ∷ []
params_bytes ((key, value) ∷ params) = key ++ (0 ∷ (value ++ (0 ∷ params_bytes params)))

unfoldable pub build_startup : List (Text × Text) → Text
build_startup params =
    let body = to_be_bytes protocol_v3 ++ params_bytes params in
    to_be_bytes ((length body + 4) % 2 ^ 32) ++ body
