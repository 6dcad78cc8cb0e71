-- ===== src/Trust/Utf8.antt =====
-- `str.encode("utf-8")` and `bytes.decode("utf-8")`, strict, as src/forge_controller/trust_gateway.py uses
-- them to admit text.
use hermes_dev_team_vm.Prelude.{
  ℕ, zero, suc, ◌+◌, ◌-◌, ◌*◌, ◌/◌, ◌%◌, ◌<◌, ◌≡◌, refl, true, Option, none, some, List, [], ◌∷◌,
  ◌++◌, ltb, eqb, in_range, if◌then◌else◌, Text, all, and-true_iff, ◌∙◌, arith, All,
}

-- What the decoder waits for: nothing, or `need + 1` continuation bytes, the next one between `lo`
-- and `hi`, behind bytes that stand for `acc`; or it has failed.
pub data State : Type 0 where
  idle failed : State
  awaiting : (need lo hi acc : ℕ) → State

-- The state behind a leading byte.
lead : ℕ → State
lead b =
    if in_range 0xC2 0xDF b
    then awaiting 0 0x80 0xBF (b - 0xC0)
    else if eqb b 0xE0
    then awaiting 1 0xA0 0xBF (b - 0xE0)
    else if eqb b 0xED
    then awaiting 1 0x80 0x9F (b - 0xE0)
    else if in_range 0xE1 0xEF b
    then awaiting 1 0x80 0xBF (b - 0xE0)
    else if eqb b 0xF0
    then awaiting 2 0x90 0xBF (b - 0xF0)
    else if in_range 0xF1 0xF3 b
    then awaiting 2 0x80 0xBF (b - 0xF0)
    else if eqb b 0xF4
    then awaiting 2 0x80 0x8F (b - 0xF0)
    else failed

-- One byte: the next state, and the code point that it completes.
step : State → ℕ → State × Option ℕ
unfolding lead
step idle b = if ltb b 0x80 then (idle, some b) else (lead b, none)
step failed b = (failed, none)
step (awaiting zero lo hi acc) b =
    if in_range lo hi b then (idle, some (acc * 64 + (b - 0x80))) else (failed, none)
step (awaiting (suc need) lo hi acc) b =
    if in_range lo hi b
    then (awaiting need 0x80 0xBF (acc * 64 + (b - 0x80)), none)
    else (failed, none)

emit : Option ℕ → Option Text → Option Text
emit out none = none
emit none (some text) = some text
emit (some c) (some text) = some (c ∷ text)

run : State → List ℕ → Option Text
unfolding step emit
run idle [] = some []
run _ [] = none
run s (b ∷ bytes) = let (s', out) = step s b in emit out (run s' bytes)

unfoldable pub utf8_decode : List ℕ → Option Text
unfolding run
utf8_decode bytes = run idle bytes

-- A code point that is no surrogate, in UTF-8.
encode_char : ℕ → Option (List ℕ)
encode_char c =
    if ltb c 0x80
    then some (c ∷ [])
    else if ltb c 0x800
    then some ((0xC0 + c / 64) ∷ (0x80 + c % 64) ∷ [])
    else if in_range 0xD800 0xDFFF c
    then none
    else if ltb c 0x10000
    then some ((0xE0 + c / 4096) ∷ (0x80 + c / 64 % 64) ∷ (0x80 + c % 64) ∷ [])
    else some
        ((0xF0 + c / 262144) ∷ (0x80 + c / 4096 % 64) ∷ (0x80 + c / 64 % 64) ∷ (0x80 + c % 64) ∷ [])

joined : Option (List ℕ) → Option (List ℕ) → Option (List ℕ)
joined (some xs) (some ys) = some (xs ++ ys)
joined _ _ = none

unfoldable pub utf8_encode : Text → Option (List ℕ)
unfolding encode_char joined
utf8_encode [] = some []
utf8_encode (c ∷ text) = joined (encode_char c) (utf8_encode text)

run-encode_char :
    (c : ℕ) (bytes rest : List ℕ)
    → c < 0x110000
    → encode_char c ≡ some bytes
    → run idle (bytes ++ rest) ≡ emit (some c) (run idle rest)
unfolding run encode_char
run-encode_char c bytes rest h e = ground arith

joined-eq-some :
    (a b : Option (List ℕ)) {bytes : List ℕ}
    → joined a b ≡ some bytes
    → (xs : List ℕ) × (ys : List ℕ) × (a ≡ some xs) × (b ≡ some ys) × (bytes ≡ xs ++ ys)
unfolding joined
joined-eq-some none b h = cc
joined-eq-some (some xs) none h = cc
joined-eq-some (some xs) (some ys) h = (xs, ys, refl, refl, cc)

run_encoded :
    (text : Text) (bytes : List ℕ)
    → all (λ c. ltb c 0x110000) text ≡ true
    → utf8_encode text ≡ some bytes
    → run idle bytes ≡ some text
unfolding utf8_encode run
run_encoded [] bytes valid e = cc
run_encoded (c ∷ text) bytes valid e =
    let (xs, ys, ex, ey, same) = joined-eq-some (encode_char c) (utf8_encode text) e in
    let p = (and-true_iff (ltb c 0x110000) (all (λ c. ltb c 0x110000) text)).0 valid in
    rw same (run-encode_char c xs ys (ground arith) ex ∙ rw (run_encoded text ys p.1 ey))

-- What UTF-8 makes of a text of code points, `utf8_decode` makes into that text again: the text
-- that the probes read is the one that was sent.
pub utf8_decode-utf8_encode :
    (text : Text) (bytes : List ℕ)
    → all (λ c. ltb c 0x110000) text ≡ true
    → utf8_encode text ≡ some bytes
    → utf8_decode bytes ≡ some text
unfolding utf8_decode
utf8_decode-utf8_encode = run_encoded

-- A text in ASCII is its own encoding.
pub utf8_encode-ascii : (s : Text) → All (λ c. c < 0x80) s → utf8_encode s ≡ some s
unfolding utf8_encode encode_char joined
utf8_encode-ascii [] h = refl
utf8_encode-ascii (c ∷ s) h = rw (utf8_encode-ascii s h.1) (ground (arith, h.0))
