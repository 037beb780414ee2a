-- ===== src/Base/Map.antt =====
-- Go maps with text keys, as functions. A key that is not there is `none`; a loop that deletes
-- entries acts at each key.
use Prim.Native.String.{String}
use mathlib.Core.Bool.{Bool}
use mathlib.Core.Option.{Option, none, some}
use text.Mathlib.Text.{◌==◌ as str_eq}
use fmxevolution_go.Base.Tests.{if◌then◌else◌}

abbrev pub GoMap {ℓ} : Type ℓ → Type ℓ
GoMap V = String → Option V

abbrev pub empty_map {ℓ} : {V : Type ℓ} → GoMap V
empty_map k = none

-- `m[k] = v`
abbrev pub put {ℓ} : {V : Type ℓ} → String → V → GoMap V → GoMap V
put k v m j = if str_eq k j then some v else m j

-- Deletes the entries that fail the test.
abbrev pub retain {ℓ} : {V : Type ℓ} → (String → V → Bool) → GoMap V → GoMap V
retain keep m j = elim (m j) [ none ↦ none | some v ↦ if keep j v then some v else none ]
