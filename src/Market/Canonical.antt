-- ===== src/Market/Canonical.antt =====
-- A canonical timeframe text has a duration.
use Prim.Native.Char.{Char}
use Prim.Native.String.{String, [] as empty, ◌∷◌ as ◌:>◌}
use strategy_engine.Prelude.{
  ℕ, zero, suc, ◌+◌, ◌*◌, ◌≤◌, ◌<◌, ◌≡◌, refl, arith, Bool, true, false, some, Bool-cases, inl, inr,
  and_left, and_right, ap, ◌∙◌,
}
use strategy_engine.Prelude.Int.{pos}
use strategy_engine.Result.{ok}
use strategy_engine.Market.Timeframe.{
  is_digit, digit_of, digits, is_space, keep, signed, plain, duration, unit_of, strip_right, int_of,
  front, last, multiplier, timeframe_duration_ms, is_unit, digits_then_unit, is_timeframe,
  is_ticker, market_stream, is_char,
}

-- The number that the decimal digits before the last character stand for, after those of `n`.
abbrev pub number : String → ℕ → ℕ
number empty n = n
number (c :> empty) n = n
number (c :> (d :> ds)) n = number (d :> ds) (n * 10 + digit_of c)

digits-digit :
    (c : Char) (cs : String) (need : Bool) (n : ℕ)
    → is_digit c ≡ true
    → digits (c :> cs) need n ≡ digits cs false (n * 10 + digit_of c)
digits-digit c cs need n h = rw h

digits-front :
    (text : String) (n : ℕ)
    → digits_then_unit text ≡ true
    → digits (front text) false n ≡ some (number text n)
digits-front empty n h = absurd (cc)
digits-front (c :> empty) n h = refl
digits-front (c :> (d :> ds)) n h =
    digits-digit c (front (d :> ds)) false n (and_left _ _ h)
    ∙ digits-front (d :> ds) (n * 10 + digit_of c) (and_right _ _ h)

not_space : (c : Char) → is_digit c ≡ true → is_space c ≡ false
not_space c h = ground arith

keep-digit : (c : Char) (cs : String) → is_digit c ≡ true → keep c cs ≡ c :> cs
keep-digit c empty h = rw (not_space c h)
keep-digit c (d :> ds) h = refl

strip_right-front :
    (text : String) → digits_then_unit text ≡ true → strip_right (front text) ≡ front text
strip_right-front empty h = refl
strip_right-front (c :> empty) h = refl
strip_right-front (c :> (d :> ds)) h =
    ap (keep c) (strip_right-front (d :> ds) (and_right _ _ h))
    ∙ keep-digit c (front (d :> ds)) (and_left _ _ h)

signed-digit :
    (c : Char) (cs : String)
    → is_digit c ≡ true
    → signed (c :> cs) ≡ plain (digits cs false (0 * 10 + digit_of c))
signed-digit c cs h =
    let minus : is_char c b'-' ≡ false = ground arith in
    let plus : is_char c b'+' ≡ false = ground arith in rw (minus, plus, h)

unit_of-is_unit :
    (c : Char) → is_unit c ≡ true → (unit : ℕ) × (multiplier c ≡ some unit) × (0 < unit)
unit_of-is_unit c h = elim (Bool-cases (is_char c b'm')) [
  | inl m ↦ (60_000, rw m, omega arith)
  | inr m ↦ elim (Bool-cases (is_char c b'h')) [
    | inl e ↦ (3_600_000, rw (m, e), omega arith)
    | inr e ↦ elim (Bool-cases (is_char c b'd')) [
      | inl d ↦ (86_400_000, rw (m, e, d), omega arith)
      | inr d ↦
          let w : is_char c b'w' ≡ true = ground arith in
          (604_800_000, rw (m, e, d, w), omega arith)
    ]
  ]
]

last-digits_then_unit :
    (text : String)
    → digits_then_unit text ≡ true
    → (unit : ℕ) × (unit_of (last text) ≡ some unit) × (0 < unit)
last-digits_then_unit empty h = absurd (cc)
last-digits_then_unit (c :> empty) h = unit_of-is_unit c h
last-digits_then_unit (c :> (d :> ds)) h = last-digits_then_unit (d :> ds) (and_right _ _ h)

int_of-front :
    (c d : Char) (ds : String)
    → is_digit c ≡ true
    → digits_then_unit (d :> ds) ≡ true
    → int_of (front (c :> (d :> ds))) ≡ some (pos (number (c :> (d :> ds)) 0))
unfolding int_of
int_of-front c d ds h k = rw (
  not_space c h,
  strip_right-front (d :> ds) k,
  keep-digit c (front (d :> ds)) h,
  signed-digit c (front (d :> ds)) h,
  digits-front (d :> ds) (0 * 10 + digit_of c) k,
)

number-le : (text : String) (n : ℕ) → n ≤ number text n
number-le empty n = omega arith
number-le (c :> empty) n = omega arith
number-le (c :> (d :> ds)) n = omega (arith, number-le (d :> ds) (n * 10 + digit_of c))

duration-pos :
    (n unit : ℕ)
    → 0 < n
    → 0 < unit
    → (step : ℕ) × (duration (some (pos n)) (some unit) ≡ ok step) × (step ≡ n * unit) × (0 < step)
duration-pos zero unit h k = absurd (omega arith)
duration-pos (suc n) unit h k = (suc n * unit, refl, refl, grind arith)

-- The text of a timeframe.
pub is_timeframe-duration :
    (timeframe : String)
    → is_timeframe timeframe ≡ true
    → (unit step : ℕ) × (unit_of (last timeframe) ≡ some unit)
      × (timeframe_duration_ms timeframe ≡ ok step)
      × (step ≡ number timeframe 0 * unit)
      × (0 < step)
unfolding is_timeframe timeframe_duration_ms
is_timeframe-duration empty h = absurd (cc)
is_timeframe-duration (c :> empty) h = absurd (ground arith)
is_timeframe-duration (c :> (d :> ds)) h =
    let first : is_digit c ≡ true = ground arith in
    let rest : digits_then_unit (d :> ds) ≡ true = ground arith in
    let r = last-digits_then_unit (d :> ds) rest in
    let least : 1 ≤ digit_of c = ground arith in
    let positive : 0 < number (c :> (d :> ds)) 0 =
      omega (arith, number-le (d :> ds) (0 * 10 + digit_of c)) in
    let s = duration-pos (number (c :> (d :> ds)) 0) r.0 positive r.2 in
    (r.0, s.0, r.1, rw (int_of-front c d ds first rest, r.1) s.1, s.2, s.3)

-- A market stream with a canonical ticker and a canonical timeframe text is accepted, and the
-- timeframe has a duration: the decimal number before its last letter times the milliseconds of
-- that unit, which is not zero.
pub is_timeframe-market_stream :
    (ticker timeframe : String)
    → is_ticker ticker ≡ true
    → is_timeframe timeframe ≡ true
    → (unit step : ℕ) × (market_stream ticker timeframe ≡ ok tt)
      × (unit_of (last timeframe) ≡ some unit)
      × (timeframe_duration_ms timeframe ≡ ok step)
      × (step ≡ number timeframe 0 * unit)
      × (0 < step)
unfolding market_stream
is_timeframe-market_stream ticker timeframe h k =
    let r = is_timeframe-duration timeframe k in (r.0, r.1, rw (h, k, r.3), r.2, r.3, r.4, r.5)
