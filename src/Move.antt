-- ===== src/Move.antt =====
-- frontend/src/lib/movePanel.ts: the figures of the move panel. A figure is known, with where it came
-- from, or absent, with the reason; it is never a bare number. Times are milliseconds since the
-- epoch, read by `date_parse` (`none` for NaN); quantities are natural numbers.
pub mod Episode
pub mod Ledger
pub mod Figures
mod Tests
use openddil_demo.Base.{String, Bool, true, false, Option, none, some, ℕ, ◌==◌, leb, if◌then◌else◌}

pub record Known {ℓ} (A : Type ℓ) : Type ℓ where
  pub value : A
  pub source : String
  pub at : Option String

pub data Maybe {ℓ} (A : Type ℓ) : Type ℓ where
  known : Known A → Maybe A
  absent : String → Maybe A

unfoldable pub is_absent {ℓ} : {A : Type ℓ} → Maybe A → Bool
is_absent (known k) = false
is_absent (absent why) = true

-- `iso ? Date.parse(iso) : NaN`
unfoldable pub ms : (String → Option ℕ) → Option String → Option ℕ
ms date_parse none = none
ms date_parse (some iso) = if iso == "" then none else date_parse iso

-- `a <= b`, false at NaN
abbrev pub at_most : Option ℕ → Option ℕ → Bool
at_most (some a) (some b) = leb a b
at_most _ _ = false
