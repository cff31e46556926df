-- ===== src/MetricStorage/Domain.antt =====
-- `isValidDomain` of controllers/metricstorage_controller.go: two or more labels with dots between
-- them, and perhaps a dot at the end.
pub mod Grammar
use Prim.Native.Char.{code}
use ceilometer_operator.Prelude.{
  [], ℕ, suc, String, Bool, true, false, ◌&&◌, ◌||◌, List, ◌∷◌, ◌==◌, not, ltb,
}

-- The code points of a text.
pub codes : String → List ℕ
codes String.[] = []
codes (String.◌∷◌ letter letters) = code letter ∷ codes letters

-- `[a-z0-9-]` with case folded, as Unicode folds it: also the long s and the Kelvin sign.
pub is_label_char : ℕ → Bool
is_label_char c =
    not (ltb c 97) && not (ltb 122 c)
    || not (ltb c 65) && not (ltb 90 c)
    || not (ltb c 48) && not (ltb 57 c)
    || c == 45
    || c == 0x17f
    || c == 0x212a

-- The match from a place on: how many labels have ended in a dot, and whether a label is begun.
scan : ℕ → Bool → List ℕ → Bool
scan ended true [] = not (ltb ended 1)
scan ended false [] = not (ltb ended 2)
scan ended begun (c ∷ cs) = elim (is_label_char c) [
  | true ↦ scan ended true cs
  | false ↦ elim (c == 46 && begun) [ true ↦ scan (suc ended) false cs | false ↦ false ]
]

-- `isValidDomain`
pub is_valid_domain : String → Bool
unfolding codes scan
is_valid_domain s = scan 0 false (codes s)
