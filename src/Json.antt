-- ===== src/Json.antt =====
-- Values that come off the wire, as JavaScript reads them: the result of `res.json()` and of the
-- YAML parser. A finite number is the decimal that the text spells, before rounding to a double.
use openddil_demo.Base.{
  ℕ, zero, suc, ◌*◌, ◌/◌, ◌%◌, ◌<◌, arith, String, Bool, ◌||◌, eqb, true, false, not, Option, none,
  some, List, [], ◌∷◌, ◌==◌, ltb, leb, ◌&&◌, if◌then◌else◌,
}

-- digits / 10 ^ scale, negated if so marked
pub record Decimal : Type 0 where
  pub negative : Bool
  pub digits : ℕ
  pub scale : ℕ

abbrev pub whole : ℕ → Decimal
whole n = record { negative = false; digits = n; scale = 0 }

mutual
  pub data Entries : Type 0 where
    done : Entries
    entry : String → Value → Entries → Entries

  pub data Elements : Type 0 where
    stop : Elements
    element : Value → Elements → Elements

  pub data Value : Type 0 where
    undefined null infinite nan : Value
    text : String → Value
    bool : Bool → Value
    num : Decimal → Value
    array : Elements → Value
    object : Entries → Value

abbrev pub power_of_ten : ℕ → ℕ
power_of_ten zero = 1
power_of_ten (suc n) = 10 * power_of_ten n

pub power_of_ten-pos : (n : ℕ) → 0 < power_of_ten n
power_of_ten-pos zero = omega arith
power_of_ten-pos (suc n) = omega (arith, power_of_ten-pos n)

-- `x >= 0`, `x > 0`, `x < y`, `Number.isInteger(x)`, and `Math.floor(x)` of a number that is not
-- negative
abbrev pub is_nonneg : Decimal → Bool
is_nonneg d = not d.negative || eqb d.digits 0

abbrev pub is_positive : Decimal → Bool
is_positive d = not d.negative && ltb 0 d.digits

unfoldable pub is_less : Decimal → Decimal → Bool
is_less a b =
    let sa = a.digits * power_of_ten b.scale in
    let sb = b.digits * power_of_ten a.scale in
    if is_nonneg a then is_nonneg b && ltb sa sb else is_nonneg b || ltb sb sa

abbrev pub is_integer : Decimal → Bool
is_integer d = eqb (d.digits % power_of_ten d.scale) 0

-- A figure in seconds, not negative, as a limit on a difference of whole milliseconds: the difference
-- exceeds the figure exactly if it exceeds the whole part of the figure's milliseconds.
abbrev pub limit_ms : Decimal → ℕ
limit_ms d = 1000 * d.digits / power_of_ten d.scale

abbrev pub floor : Decimal → ℕ
floor d = d.digits / power_of_ten d.scale

abbrev pub items : Elements → List Value
items stop = []
items (element v vs) = v ∷ items vs

unfoldable pub lookup : String → Entries → Value
lookup k done = undefined
lookup k (entry j v fs) = if j == k then v else lookup k fs

-- `v.k` of a value that is neither null nor undefined
abbrev pub member : String → Value → Value
member k (object fs) = lookup k fs
member k _ = undefined

-- `k in v`
unfoldable pub has_member : String → Value → Bool
has_member k (object done) = false
has_member k (object (entry j v fs)) = j == k || has_member k (object fs)
has_member k _ = false

-- a plain object
abbrev pub is_map : Value → Bool
is_map (object fs) = true
is_map _ = false

-- `x == null`, and the value of `x ? … : …` (0, NaN and "" are false)
abbrev pub is_nullish : Value → Bool
is_nullish undefined = true
is_nullish null = true
is_nullish _ = false

abbrev pub is_truthy : Value → Bool
is_truthy undefined = false
is_truthy null = false
is_truthy (bool b) = b
is_truthy (num n) = ltb 0 n.digits
is_truthy infinite = true
is_truthy nan = false
is_truthy (text s) = not (s == "")
is_truthy (array vs) = true
is_truthy (object fs) = true

-- `typeof x === 'string' ? x : null` and the like
abbrev pub as_text : Value → Option String
as_text (text s) = some s
as_text _ = none

abbrev pub as_bool : Value → Option Bool
as_bool (bool b) = some b
as_bool _ = none

-- `typeof x === 'number' && Number.isFinite(x)`
abbrev pub as_num : Value → Option Decimal
as_num (num n) = some n
as_num _ = none

-- `Array.isArray(x) ? x : undefined`
abbrev pub as_list : Value → Option (List Value)
as_list (array vs) = some (items vs)
as_list _ = none

-- How a call of `fetch` ends: it throws, or the server answers with a status and a body, which is
-- `none` if `res.json()` throws.
pub data Fetched : Type 0 where
  failed : Fetched
  answered : ℕ → Option Value → Fetched

-- `res.ok`
abbrev pub is_ok : ℕ → Bool
is_ok status = leb 200 status && leb status 299
