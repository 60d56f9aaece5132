-- ===== src/Prelude/Dicts.antt =====
-- Dictionaries with texts as keys, in the order in which the keys were first set.
use mathlib.Core.Path.{◌≡◌, refl}
use mathlib.Core.Option.{Option, none, some}
use mathlib.Core.List.{List, [], ◌∷◌}
use native.Mathlib.Omega.{arith}
use text.Mathlib.Text.{◌==◌ as str_eq}
use text.Mathlib.TextEquality.{eq_iff}
use Prim.Native.String.{String}
use meshy.Prelude.Tests.{if◌then◌else◌}

module _ {ℓ} {A : Type ℓ} where
  unfoldable pub get : List (String × A) → String → Option A
  get [] s = none
  get ((t, a) ∷ l) s = if str_eq t s then some a else get l s

  -- A key keeps its place when it is set again.
  unfoldable pub put : List (String × A) → String → A → List (String × A)
  put [] s a = (s, a) ∷ []
  put ((t, b) ∷ l) s a = let rest = put l s a in if str_eq t s then (t, a) ∷ l else (t, b) ∷ rest

  pub get-put :
      (l : List (String × A)) (s : String) (a : A) (t : String)
      → get (put l s a) t ≡ (if str_eq s t then some a else get l t)
  unfolding get put
  get-put [] s a t = refl
  get-put ((u, b) ∷ l) s a t = ground (arith, get-put l s a t, eq_iff u s, eq_iff u t, eq_iff s t)
