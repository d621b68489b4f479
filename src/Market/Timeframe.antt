-- ===== src/Market/Timeframe.antt =====
-- Timeframe texts: `timeframe_duration_ms` (src/strategy_engine/domain/ranges.py), and the checks of
-- a `MarketStream` (src/strategy_engine/domain/market.py). Python's `int` of a text is written out
-- for ASCII: digits of other scripts are no digits here.
use Prim.Native.Char.{Char, code}
use Prim.Native.String.{String, [] as empty, ◌∷◌ as ◌:>◌}
use text.Mathlib.Text.{◌==◌ as str_eq}
use strategy_engine.Prelude.{
  ℕ, zero, suc, ◌+◌, ◌-◌, ◌*◌, leb, ◌==◌, Bool, true, false, not, ◌&&◌, ◌||◌, Option, none, some,
  if◌then◌else◌,
}
use strategy_engine.Prelude.Int.{ℤ, pos, negsuc}
use strategy_engine.Result.{Result, ok, err, Error, ◌>>=◌, ◌>>◌, raise_if}

abbrev pub is_char : Char → ℕ → Bool
is_char c n = code c == n

abbrev pub is_digit : Char → Bool
is_digit c = leb 48 (code c) && leb (code c) 57

abbrev pub digit_of : Char → ℕ
digit_of c = code c - 48

-- What a character is to `int`.
pub data Kind : Type 0 where
  digit : ℕ → Kind
  underscore other : Kind

abbrev pub kind : Char → Kind
kind c =
    if is_digit c
    then Kind.digit (digit_of c)
    else (if is_char c b'_' then Kind.underscore else Kind.other)

abbrev pub on_kind : Kind → (need : Bool) → ℕ → (Bool → ℕ → Option ℕ) → Option ℕ
on_kind (Kind.digit d) need n more = more false (n * 10 + d)
on_kind Kind.underscore true n more = none
on_kind Kind.underscore false n more = more true n
on_kind Kind.other need n more = none

-- Digits, with single underscores between them; `need` after an underscore and at the start.
abbrev pub digits : String → (need : Bool) → ℕ → Option ℕ
digits empty true n = none
digits empty false n = some n
digits (c :> cs) need n = on_kind (kind c) need n (digits cs)

abbrev pub is_space : Char → Bool
is_space c = (leb 9 (code c) && leb (code c) 13) || (leb 28 (code c) && leb (code c) 32)

abbrev pub strip_left : String → String
strip_left empty = empty
strip_left (c :> cs) = let rest = strip_left cs in if is_space c then rest else c :> cs

-- Without the spaces at the end.
abbrev pub keep : Char → String → String
keep c empty = if is_space c then empty else c :> empty
keep c (d :> ds) = c :> (d :> ds)

abbrev pub strip_right : String → String
strip_right empty = empty
strip_right (c :> cs) = keep c (strip_right cs)

abbrev negated : Option ℕ → Option ℤ
negated none = none
negated (some zero) = some (pos zero)
negated (some (suc n)) = some (negsuc n)

abbrev pub plain : Option ℕ → Option ℤ
plain none = none
plain (some n) = some (pos n)

abbrev pub signed : String → Option ℤ
signed empty = none
signed (c :> cs) =
    if is_char c b'-'
    then negated (digits cs true 0)
    else (if is_char c b'+' then plain (digits cs true 0) else plain (digits (c :> cs) true 0))

-- `int(text)`; none is ValueError.
unfoldable pub int_of : String → Option ℤ
int_of text = signed (strip_right (strip_left text))

-- `text[:-1]` and `text[-1]`; an empty text has no last character.
abbrev pub front : String → String
front empty = empty
front (c :> empty) = empty
front (c :> (d :> ds)) = c :> front (d :> ds)

abbrev pub last : String → Option Char
last empty = none
last (c :> empty) = some c
last (c :> (d :> ds)) = last (d :> ds)

abbrev pub multiplier : Char → Option ℕ
multiplier c =
    if is_char c b'm'
    then some 60_000
    else (if is_char c b'h'
        then some 3_600_000
        else (if is_char c b'd'
            then some 86_400_000
            else (if is_char c b'w' then some 604_800_000 else none)))

abbrev unsupported : {A : Type 0} → Result A
unsupported = err (Error.invalid_request "unsupported timeframe")

abbrev pub duration : Option ℤ → Option ℕ → Result ℕ
duration (some (pos (suc n))) (some unit) = ok (suc n * unit)
duration _ _ = unsupported

abbrev pub unit_of : Option Char → Option ℕ
unit_of none = none
unit_of (some c) = multiplier c

unfoldable pub timeframe_duration_ms : String → Result ℕ
timeframe_duration_ms timeframe = duration (int_of (front timeframe)) (unit_of (last timeframe))

-- `[0-9]*[mhdw]`, and `_TIMEFRAME_RE`.
abbrev pub is_unit : Char → Bool
is_unit c = is_char c b'm' || is_char c b'h' || is_char c b'd' || is_char c b'w'

abbrev pub digits_then_unit : String → Bool
digits_then_unit empty = false
digits_then_unit (c :> empty) = is_unit c
digits_then_unit (c :> (d :> ds)) = is_digit c && digits_then_unit (d :> ds)

unfoldable pub is_timeframe : String → Bool
is_timeframe empty = false
is_timeframe (c :> cs) = leb 49 (code c) && leb (code c) 57 && digits_then_unit cs

-- `[A-Z0-9]*\.P`, and `_TICKER_RE`.
abbrev is_ticker_char : Char → Bool
is_ticker_char c = (leb 65 (code c) && leb (code c) 90) || is_digit c

abbrev ticker_rest : String → Bool
ticker_rest empty = false
ticker_rest (c :> cs) = str_eq (c :> cs) ".P" || (is_ticker_char c && ticker_rest cs)

unfoldable pub is_ticker : String → Bool
is_ticker empty = false
is_ticker (c :> cs) = is_ticker_char c && ticker_rest cs

-- `MarketStream.__post_init__`
unfoldable pub market_stream : (ticker base_timeframe : String) → Result (Unit {0})
market_stream ticker base_timeframe =
    raise_if (not (is_ticker ticker)) (Error.invalid_request "ticker must be canonical .P identity")
    >> (raise_if (not (is_timeframe base_timeframe))
          (Error.invalid_request "base_timeframe must be canonical textual timeframe")
        >> (timeframe_duration_ms base_timeframe >>= λ step. ok tt))
