-- ===== src/Proxy/Options.antt =====
-- The token in the startup parameters, of hostd/src/proxy/tcp.rs. A word of the `options` is the text
-- that its span covers with the text that it stands for. `lossy` is `String::from_utf8_lossy`.
pub mod Stripping
use tikovm.Prelude.{
  ℕ, Bool, true, false, ◌&&◌, ◌||◌, not, nat_beq, Option, none, some, List, [], ◌∷◌, ◌++◌, Text,
  bytes, text_beq, is_empty, strip_prefix, ok, err, if◌then◌else◌,
}
use tikovm.Prelude
use tikovm.Proxy.Startup.{Refusal, missing_token}

-- `u8::is_ascii_whitespace`.
abbrev pub is_blank : ℕ → Bool
is_blank b = nat_beq b 32 || nat_beq b 9 || nat_beq b 10 || nat_beq b 12 || nat_beq b 13

pub record Word : Type 0 where
  pub raw : Text
  pub text : Text

-- Between the words, or in one: in single quotes, in double quotes, and what has been read of it.
pub data Mode : Type 0 where
  outside : Mode
  inside : Bool → Bool → Word → Mode

pub data Kind : Type 0 where
  blank escape squote dquote plain : Kind

abbrev pub nothing_yet : Word
nothing_yet = record { raw = []; text = [] }

unfoldable pub kind_in : Bool → Bool → Bool → ℕ → Kind
kind_in sq dq more b =
    if not sq && not dq && is_blank b
    then blank
    else if nat_beq b 92 && not sq && more
    then escape
    else if nat_beq b 39 && not dq
    then squote
    else if nat_beq b 34 && not sq
    then dquote
    else plain

unfoldable pub kind : Mode → Bool → ℕ → Kind
kind outside more b = kind_in false false more b
kind (inside sq dq w) more b = kind_in sq dq more b

abbrev pub close : Mode → List Word → List Word
close outside ws = ws
close (inside sq dq w) ws = w ∷ ws

abbrev pub push : Mode → Text → Text → Mode
push outside raw text = inside false false (record { raw = raw; text = text })
push (inside sq dq w) raw text = inside sq dq (record { raw = w.raw ++ raw; text = w.text ++ text })

abbrev pub flip_single : Mode → Mode
flip_single outside = outside
flip_single (inside sq dq w) = inside (not sq) dq w

abbrev pub flip_double : Mode → Mode
flip_double outside = outside
flip_double (inside sq dq w) = inside sq (not dq) w

-- The words of the rest of the options.
unfoldable pub words : Text → Mode → List Word
words [] m = close m []
words (b ∷ []) m = elim (kind m false b) [
  | blank ↦ close m []
  | escape ↦ close (push m (b ∷ []) (b ∷ [])) []
  | squote ↦ close (flip_single (push m (b ∷ []) [])) []
  | dquote ↦ close (flip_double (push m (b ∷ []) [])) []
  | plain ↦ close (push m (b ∷ []) (b ∷ [])) []
]
words (b ∷ c ∷ bs) m = elim (kind m true b) [
  | blank ↦ close m (words (c ∷ bs) outside)
  | escape ↦ words bs (push m (b ∷ c ∷ []) (c ∷ []))
  | squote ↦ words (c ∷ bs) (flip_single (push m (b ∷ []) []))
  | dquote ↦ words (c ∷ bs) (flip_double (push m (b ∷ []) []))
  | plain ↦ words (c ∷ bs) (push m (b ∷ []) (b ∷ []))
]

unfoldable pub split_opts : Text → List Word
split_opts options = words options outside

abbrev pub token_param : Text
token_param = bytes "tikovm_token"

abbrev pub token_param_eq : Text
token_param_eq = bytes "tikovm_token="

-- The token of `-c tikovm_token=…`, in two words or in one.
unfoldable pub separate : (Text → Text) → Word → Word → Option Text
separate lossy w v =
    if text_beq (lossy w.text) (bytes "-c")
    then strip_prefix token_param_eq (lossy v.text)
    else none

unfoldable pub glued : (Text → Text) → Word → Option Text
glued lossy w = elim (strip_prefix (bytes "-c") (lossy w.text)) [
  | none ↦ none
  | some rest ↦ strip_prefix token_param_eq rest
]

-- The first token, and the words that stay.
pub record Picked : Type 0 where
  pub token : Option Text
  pub kept : List Text

abbrev pub found : Text → Picked → Picked
found t p = record p { token = some t }

abbrev pub keep : Word → Picked → Picked
keep w p = record p { kept = w.raw ∷ p.kept }

abbrev pub nothing : Picked
nothing = record { token = none; kept = [] }

unfoldable pub pick : (Text → Text) → List Word → Picked
pick lossy [] = nothing
pick lossy (w ∷ []) = elim (glued lossy w) [ none ↦ keep w nothing | some t ↦ found t nothing ]
pick lossy (w ∷ v ∷ rest) = elim (separate lossy w v) [
  | some t ↦ found t (pick lossy rest)
  | none ↦ elim (glued lossy w) [
    | none ↦ keep w (pick lossy (v ∷ rest))
    | some t ↦ found t (pick lossy (v ∷ rest))
  ]
]

-- `join(" ")`.
abbrev pub join_words : List Text → Text
join_words [] = []
join_words (w ∷ []) = w
join_words (w ∷ v ∷ ws) = w ++ (32 ∷ join_words (v ∷ ws))

abbrev pub picked : Text → Picked → Option Text × Text
picked options p = elim p.token [ none ↦ (none, options) | some t ↦ (some t, join_words p.kept) ]

unfoldable pub extract_from_options : (Text → Text) → Text → Option Text × Text
extract_from_options lossy options = picked options (pick lossy (split_opts options))

abbrev pub Collected : Type 0
Collected = Option Text × List (Text × Text)

abbrev pub put_options : Text → Text → Option Text × Text → Option Text → Collected → Collected
put_options key value (none, rest) token (t, out) = (t, (key, value) ∷ out)
put_options key value (some found, rest) token (t, out) =
    if is_empty rest then (t, out) else (t, (key, rest) ∷ out)

abbrev pub or_token : Option Text → Option Text × Text → Option Text
or_token token (none, rest) = token
or_token token (some found, rest) = some found

-- The loop over the parameters, with the token so far: the last one counts.
unfoldable pub collect : (Text → Text) → Option Text → List (Text × Text) → Collected
collect lossy token [] = (token, [])
collect lossy token ((key, value) ∷ params) =
    let as_token = collect lossy (some value) params in
    let from_options = extract_from_options lossy value in
    let as_options = collect lossy (or_token token from_options) params in
    let other = collect lossy token params in
    if text_beq key token_param
    then as_token
    else if text_beq key (bytes "options")
    then put_options key value from_options token as_options
    else (other.0, (key, value) ∷ other.1)

abbrev pub with_token : Collected → Prelude.Result Refusal (Text × List (Text × Text))
with_token (none, out) = err missing_token
with_token (some t, out) = ok (t, out)

unfoldable pub extract_token :
    (Text → Text) → List (Text × Text) → Prelude.Result Refusal (Text × List (Text × Text))
extract_token lossy params = with_token (collect lossy none params)
