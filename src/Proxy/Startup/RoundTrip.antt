-- ===== src/Proxy/Startup/RoundTrip.antt =====
-- What the proxy forwards is read back as it was written.
use tikovm.Prelude.{
  ℕ, zero, suc, ◌+◌, ◌-◌, ◌/◌, ◌%◌, ◌^◌, ◌≤◌, ◌<◌, true, some, List, [], ◌∷◌, ◌++◌, Text, length,
  length-append, take, drop, ok, ◌≡◌, ◌≢◌, Option-cases, inl, inr, refl, ap, arith,
}
use tikovm.Proxy.Startup.{
  to_be_bytes, from_be_bytes, protocol_v3, max_startup_frame, looks_like_postgres, read_frame,
  until_nul, parse_params, parse_startup, params_bytes, build_startup,
}

-- Bytes other than NUL.
unfoldable pub NoNul : Text → Type 0
NoNul [] = Unit {0}
NoNul (b ∷ bs) = (b ≢ 0) × NoNul bs

-- Parameters that a frame can carry, and that `lossy` leaves as they are.
unfoldable pub Sendable : (Text → Text) → List (Text × Text) → Type 0
Sendable lossy [] = Unit {0}
Sendable lossy ((key, value) ∷ params) =
    ((key ≢ []) × (NoNul key × (NoNul value × ((lossy key ≡ key) × (lossy value ≡ value)))))
    × Sendable lossy params

-- Big-endian bytes of a 32-bit number are read back.
pub be_bytes :
    (n : ℕ)
    → n < 4294967296
    → from_be_bytes (n / 16777216 % 256) (n / 65536 % 256) (n / 256 % 256) (n % 256) ≡ n
be_bytes n h = omega (arith, h)

until_nul-append : (t rest : Text) → NoNul t → until_nul (t ++ (0 ∷ rest)) ≡ some (t, rest)
unfolding until_nul NoNul
until_nul-append [] rest h = elim (Option-cases (until_nul rest)) [
  | inl n ↦ rw (n, until_nul) refl
  | inr (p, n) ↦ rw (n, until_nul) refl
]
until_nul-append (b ∷ t) rest h = ground (arith, h.0, until_nul-append t rest h.1)

parse_params-bytes :
    (lossy : Text → Text) (params : List (Text × Text)) (n : ℕ)
    → Sendable lossy params
    → length params < n
    → parse_params lossy n (params_bytes params) ≡ some params
unfolding parse_params params_bytes Sendable until_nul
parse_params-bytes lossy params zero h l = ground (arith, l)
parse_params-bytes lossy [] (suc n) h l = refl
parse_params-bytes lossy (([], value) ∷ params) (suc n) ((nonempty, _), rest) l =
    absurd (nonempty refl)
parse_params-bytes lossy ((b ∷ key, value) ∷ params) (suc n) ((_, (k, (v, (kl, vl)))), rest) l =
    ground (
      arith,
      until_nul-append (b ∷ key) (value ++ (0 ∷ params_bytes params)) k,
      until_nul-append value (params_bytes params) v,
      parse_params-bytes lossy params n rest (omega (arith, l)),
      kl,
      vl,
    )

length-params_bytes : (params : List (Text × Text)) → length params ≤ length (params_bytes params)
unfolding params_bytes
length-params_bytes [] = omega arith
length-params_bytes ((key, value) ∷ params) = omega (
  arith,
  length-append key (0 ∷ (value ++ (0 ∷ params_bytes params))),
  length-append value (0 ∷ params_bytes params),
  length-params_bytes params,
)

-- The startup message that the proxy builds is read back as the same parameters, where their names are
-- not empty, no NUL occurs in them and they are valid UTF-8.
pub parse_startup-build_startup :
    (lossy : Text → Text) (params : List (Text × Text))
    → Sendable lossy params
    → parse_startup lossy (build_startup params) ≡ some params
unfolding parse_startup build_startup
parse_startup-build_startup lossy params h =
    parse_params-bytes lossy params (length (build_startup params) + 1) h
      (omega (arith, length-params_bytes params))

take-append : (n : ℕ) (t rest : Text) → n ≡ length t → take n (t ++ rest) ≡ t
take-append zero [] rest h = refl
take-append zero (x ∷ t) rest h = ground (arith, h)
take-append (suc n) [] rest h = ground (arith, h)
take-append (suc n) (x ∷ t) rest h = ap (λ u. x ∷ u) (take-append n t rest (omega (arith, h)))

drop-append : (n : ℕ) (t rest : Text) → n ≡ length t → drop n (t ++ rest) ≡ rest
drop-append zero [] rest h = refl
drop-append zero (x ∷ t) rest h = ground (arith, h)
drop-append (suc n) [] rest h = ground (arith, h)
drop-append (suc n) (x ∷ t) rest h = drop-append n t rest (omega (arith, h))

frame_read :
    (n : ℕ) (body rest : Text)
    → n ≡ length body + 4
    → 8 ≤ n
    → n ≤ max_startup_frame
    → read_frame (to_be_bytes n ++ body ++ rest) ≡ ok (to_be_bytes n ++ body, rest)
unfolding read_frame
frame_read n body rest h low high = ground (
  arith,
  h,
  be_bytes n (omega (arith, high)),
  length-append body rest,
  take-append (n - 4) body rest (omega (arith, h)),
  drop-append (n - 4) body rest (omega (arith, h)),
)

frame_looks :
    (n : ℕ) (body : Text)
    → 8 ≤ n
    → n ≤ max_startup_frame
    → looks_like_postgres (to_be_bytes n ++ to_be_bytes protocol_v3 ++ body) ≡ true
unfolding looks_like_postgres
frame_looks n body low high = ground (arith, be_bytes n (omega (arith, high)))

-- A startup message of at most 16 KiB, followed by anything, is taken for Postgres traffic, and the
-- frame that is read is the message, with the rest left in the stream.
pub build_startup-read_frame :
    (params : List (Text × Text)) (rest : Text)
    → length (build_startup params) ≤ max_startup_frame
    → (looks_like_postgres (build_startup params ++ rest) ≡ true)
      × (read_frame (build_startup params ++ rest) ≡ ok (build_startup params, rest))
unfolding build_startup
build_startup-read_frame params rest h =
    let body = to_be_bytes protocol_v3 ++ params_bytes params in
    let n = (length body + 4) % 2 ^ 32 in
    let fits : n ≡ length body + 4 = omega (arith, h) in
    (
      frame_looks n (params_bytes params ++ rest) (omega (arith, h)) (omega (arith, h)),
      frame_read n body rest fits (omega (arith, h)) (omega (arith, h)),
    )
