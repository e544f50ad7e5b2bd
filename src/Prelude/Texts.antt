-- ===== src/Prelude/Texts.antt =====
-- Texts as keys of a `HashMap<String, _>`.
use Prim.Native.String.{String}
use mathlib.Core.List.{List, [], ◌∷◌}
use mathlib.Core.Bool.{Bool}
use mathlib.Core.Option.{Option, none, some}
use text.Mathlib.Text.{◌==◌ as text_eq}
use human_network.Prelude.Tests.{if◌then◌else◌}

-- `==` of texts
abbrev pub str_eq : String → String → Bool
str_eq s t = text_eq s t

abbrev pub Dictionary {ℓ} : Type ℓ → Type ℓ
Dictionary V = List (String × V)

module _ {ℓ} {V : Type ℓ} where
  -- `HashMap::get` at a text
  abbrev pub lookup : String → Dictionary V → Option V
  lookup key [] = none
  lookup key ((other, value) ∷ rest) = if str_eq other key then some value else lookup key rest
