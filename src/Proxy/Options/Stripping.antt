-- ===== src/Proxy/Options/Stripping.antt =====
-- The token is found in the startup parameters, and taken out of them.
use tikovm.Prelude.{
  ℕ, Bool, true, false, ◌&&◌, not, nat_beq, Option, none, some, List, [], ◌∷◌, ◌++◌, Text, bytes,
  text_beq, text_beq_iff, is_empty, strip_prefix, strip_prefix-append, ok, ◌≡◌, ◌≢◌, subst, refl,
  ap, ◌∙◌, arith, Bool-cases, inl, inr,
}
use tikovm.Proxy.Options.{
  is_blank, kind, kind_in, plain, or_token, Word, outside, inside, words, split_opts, separate,
  pick, extract_from_options, Collected, collect, extract_token, with_token, token_param,
  token_param_eq, put_options,
}

-- No white space, quote or backslash, as in a JWT.
abbrev pub plain_byte : ℕ → Bool
plain_byte b = not (is_blank b) && not (nat_beq b 92) && not (nat_beq b 39) && not (nat_beq b 34)

abbrev pub all_plain : Text → Bool
all_plain [] = true
all_plain (b ∷ bs) = plain_byte b && all_plain bs

kind_plain : (more : Bool) (b : ℕ) → plain_byte b ≡ true → kind_in false false more b ≡ plain
unfolding kind_in
kind_plain more b h = ground (arith, h)

append_nil : (t : Text) → t ++ [] ≡ t
append_nil [] = refl
append_nil (x ∷ t) = ap (λ u. x ∷ u) (append_nil t)

append_snoc : (t u : Text) (b : ℕ) → (t ++ b ∷ []) ++ u ≡ t ++ b ∷ u
append_snoc [] u b = refl
append_snoc (x ∷ t) u b = ap (λ v. x ∷ v) (append_snoc t u b)

grown : Text → Text → Text → Word
grown raw text t = record { raw = raw ++ t; text = text ++ t }

-- A plain word at the end of the options.
words_plain :
    (t raw text : Text)
    → all_plain t ≡ true
    → words t (inside false false (record { raw = raw; text = text }))
      ≡ record { raw = raw ++ t; text = text ++ t } ∷ []
unfolding words kind
words_plain [] raw text h = rw (append_nil raw, append_nil text) refl
words_plain (b ∷ []) raw text h = rw (kind_plain false b (ground (arith, h)), words, kind) refl
words_plain (b ∷ c ∷ t) raw text h =
    rw (kind_plain true b (ground (arith, h)), words, kind)
      (words_plain (c ∷ t) (raw ++ b ∷ []) (text ++ b ∷ []) (ground (arith, h))
        ∙ rw (append_snoc raw (c ∷ t) b, append_snoc text (c ∷ t) b) refl)

abbrev dash_c : Word
dash_c = record { raw = bytes "-c"; text = bytes "-c" }

abbrev setting : Text → Word
setting jwt = record { raw = bytes "tikovm_token=" ++ jwt; text = bytes "tikovm_token=" ++ jwt }

words-setting :
    (jwt : Text)
    → all_plain jwt ≡ true
    → words (bytes "-c tikovm_token=" ++ jwt) outside ≡ dash_c ∷ setting jwt ∷ []
unfolding words kind kind_in
words-setting jwt h =
    ap (λ ws. dash_c ∷ ws)
      (words_plain (bytes "=" ++ jwt) (bytes "tikovm_token") (bytes "tikovm_token") h)

separate-setting :
    (lossy : Text → Text) (jwt : Text)
    → all_plain jwt ≡ true
    → ((t : Text) → all_plain t ≡ true → lossy t ≡ t)
    → separate lossy dash_c (setting jwt) ≡ some jwt
unfolding separate
separate-setting lossy jwt h valid =
    let a : text_beq (lossy (bytes "-c")) (bytes "-c") ≡ true = rw (valid (bytes "-c") refl) refl in
    let b : strip_prefix token_param_eq (lossy (bytes "tikovm_token=" ++ jwt)) ≡ some jwt =
      ap (strip_prefix token_param_eq) (valid (bytes "tikovm_token=" ++ jwt) h)
      ∙ strip_prefix-append token_param_eq jwt in
    rw (a, separate) b

-- `options='-c tikovm_token=<jwt>'`, as a stock client sends it: where the token has no white space,
-- quote or backslash and is valid UTF-8, it is found, and nothing is left of the options.
pub extract_from_options_lem :
    (lossy : Text → Text) (jwt : Text)
    → all_plain jwt ≡ true
    → ((t : Text) → all_plain t ≡ true → lossy t ≡ t)
    → extract_from_options lossy (bytes "-c tikovm_token=" ++ jwt) ≡ (some jwt, [])
unfolding extract_from_options split_opts pick
extract_from_options_lem lossy jwt h valid =
    rw (words-setting jwt h, separate-setting lossy jwt h valid, pick) refl

-- No parameter has the name of the token.
unfoldable pub Stripped : List (Text × Text) → Type 0
Stripped [] = Unit {0}
Stripped ((key, value) ∷ params) = (key ≢ token_param) × Stripped params

put-Stripped :
    (key value : Text) (x : Option Text × Text) (token : Option Text) (c : Collected)
    → key ≢ token_param
    → Stripped c.1
    → Stripped (put_options key value x token c).1
unfolding Stripped
put-Stripped key value (none, rest) token (t, out) d s = (d, s)
put-Stripped key value (some found, rest) token (t, out) d s = elim (Bool-cases (is_empty rest)) [
  | inl e ↦ rw e s
  | inr e ↦ rw e (d, s)
]

collect-Stripped :
    (lossy : Text → Text) (token : Option Text) (params : List (Text × Text))
    → Stripped (collect lossy token params).1
unfolding collect Stripped
collect-Stripped lossy token [] = tt
collect-Stripped lossy token ((key, value) ∷ params) =
    elim (Bool-cases (text_beq key token_param)) [
      | inl e ↦ rw (e, collect) (collect-Stripped lossy (some value) params)
      | inr e ↦
          let d : key ≢ token_param = λ p. ground (arith, e, (text_beq_iff key token_param).1 p) in
          elim (Bool-cases (text_beq key (bytes "options"))) [
            | inl o ↦
                let from_options = extract_from_options lossy value in
                rw (e, o, collect)
                  (put-Stripped key value from_options token
                    (collect lossy (or_token token from_options) params) d
                    (collect-Stripped lossy (or_token token from_options) params))
            | inr o ↦ rw (e, o, collect) (d, collect-Stripped lossy token params)
          ]
    ]

-- Whatever the client sends, no parameter that is forwarded is named `tikovm_token`.
pub extract_token-Stripped :
    (lossy : Text → Text) (params : List (Text × Text)) (token : Text)
    (forwarded : List (Text × Text))
    → extract_token lossy params ≡ ok (token, forwarded)
    → Stripped forwarded
unfolding extract_token
extract_token-Stripped lossy params token forwarded h =
    go (collect lossy none params) (collect-Stripped lossy none params) h
  where
    go : (c : Collected) → Stripped c.1 → with_token c ≡ ok (token, forwarded) → Stripped forwarded
    go (none, out) s q = ground (arith, q)
    go (some t, out) s q = subst Stripped (ground (arith, q)) s
