-- ===== src/MetricStorage/Domain/Grammar.antt =====
-- `isValidDomain` against the regular expression of controllers/metricstorage_controller.go, read as
-- a grammar.
use mathlib.Core.Bool.{false≢true}
use mathlib.Core.List.{append_assoc}
use ceilometer_operator.Prelude.{
  [], ℕ, suc, String, ◌≡◌, ◌∙◌, ◌↔◌, ◌⊎◌, ◌+◌, ◌≤◌, refl, sym, ap, inl, inr, Bool, true, false,
  ◌&&◌, List, ◌∷◌, ◌++◌, ◌==◌, not, ltb, arith, Bool-cases,
}
use ceilometer_operator.MetricStorage.Domain.{codes, is_label_char, scan, is_valid_domain}

-- `[a-z0-9-]+`: a first character, and those after it.
pub record Label : Type 0 where
  pub first : ℕ
  pub others : List ℕ

-- `[a-z0-9-]` with case folded: a letter, a digit, the hyphen, or one of the two characters that fold
-- to a letter of the class, the long s and the Kelvin sign.
abbrev pub IsClassChar : ℕ → Type 0
IsClassChar c =
    ((b'a' ≤ c) × (c ≤ b'z'))
    ⊎ ((b'A' ≤ c) × (c ≤ b'Z'))
    ⊎ ((b'0' ≤ c) × (c ≤ b'9'))
    ⊎ (c ≡ b'-')
    ⊎ (c ≡ 0x17f)
    ⊎ (c ≡ 0x212a)

is_label_char_iff : (c : ℕ) → (is_label_char c ≡ true) ↔ IsClassChar c
unfolding is_label_char
is_label_char_iff c = (λ h. ground arith, λ h. ground arith)

abbrev pub InClass : List ℕ → Type 0
InClass [] = Unit
InClass (c ∷ cs) = IsClassChar c × InClass cs

abbrev pub spelling : Label → List ℕ
spelling l = l.first ∷ l.others

abbrev pub AllInClass : List Label → Type 0
AllInClass [] = Unit
AllInClass (l ∷ ls) = InClass (spelling l) × AllInClass ls

-- `(\.[a-z0-9-]+)*`
abbrev pub dotted : List Label → List ℕ
dotted [] = []
dotted (l ∷ ls) = 46 ∷ (spelling l ++ dotted ls)

-- `\.?`
abbrev pub end : Bool → List ℕ
end true = 46 ∷ []
end false = []

-- The whole expression.
pub record IsDomain (cs : List ℕ) : Type 0 where
  pub first : Label
  pub second : Label
  pub others : List Label
  pub dot : Bool
  pub labels : AllInClass (first ∷ second ∷ others)
  pub spelled : cs ≡ spelling first ++ (dotted (second ∷ others) ++ end dot)

count : List Label → ℕ
count [] = 0
count (l ∷ ls) = suc (count ls)

scan-char :
    (e : ℕ) (begun : Bool) (c : ℕ) (cs : List ℕ)
    → is_label_char c ≡ true
    → scan e begun (c ∷ cs) ≡ scan e true cs
unfolding scan
scan-char e true c cs h = rw (scan, h) refl
scan-char e false c cs h = rw (scan, h) refl

scan-dot : (e : ℕ) (cs : List ℕ) → scan e true (46 ∷ cs) ≡ scan (suc e) false cs
unfolding scan is_label_char
scan-dot e cs = refl

scan-label : (e : ℕ) (cs r : List ℕ) → InClass cs → scan e true (cs ++ r) ≡ scan e true r
scan-label e [] r h = refl
scan-label e (c ∷ cs) r h =
    scan-char e true c (cs ++ r) ((is_label_char_iff c).1 h.0) ∙ scan-label e cs r h.1

scan-spelling :
    (e : ℕ) (l : Label) (r : List ℕ)
    → InClass (spelling l)
    → scan e false (spelling l ++ r) ≡ scan e true r
scan-spelling e l r h =
    scan-char e false l.first (l.others ++ r) ((is_label_char_iff l.first).1 h.0)
    ∙ scan-label e l.others r h.1

scan-end : (e : ℕ) (dot : Bool) → scan e true (end dot) ≡ not (ltb e 1)
unfolding scan is_label_char
scan-end e true = ground arith
scan-end e false = refl

scan-dotted :
    (e : ℕ) (ls : List Label) (dot : Bool)
    → AllInClass ls
    → scan e true (dotted ls ++ end dot) ≡ not (ltb (e + count ls) 1)
unfolding count
scan-dotted e [] dot h = scan-end e dot ∙ ap (λ n. not (ltb n 1)) (omega arith)
scan-dotted e (l ∷ ls) dot h =
    scan-dot e ((spelling l ++ dotted ls) ++ end dot)
    ∙ ap (scan (suc e) false) (append_assoc (spelling l) (dotted ls) (end dot))
    ∙ scan-spelling (suc e) l (dotted ls ++ end dot) h.0
    ∙ scan-dotted (suc e) ls dot h.1
    ∙ ap (λ n. not (ltb n 1)) (omega arith)

IsDomain-scan : (cs : List ℕ) → IsDomain cs → scan 0 false cs ≡ true
unfolding count
IsDomain-scan cs d = rw d.spelled (
    scan-spelling 0 d.first _ d.labels.0
    ∙ scan-dotted 0 (d.second ∷ d.others) d.dot d.labels.1
    ∙ ground arith)

-- What a scan from within a label has accepted: the end of the label, other labels, and an end.
record FromLabel (e : ℕ) (cs : List ℕ) : Type 0 where
  rest : List ℕ
  others : List Label
  dot : Bool
  rest_ok : InClass rest
  labels : AllInClass others
  enough : 1 ≤ e + count others
  spelled : cs ≡ rest ++ (dotted others ++ end dot)

-- What a scan from the start of a label has accepted: nothing after a dot, or a label to its end.
FromDot : ℕ → List ℕ → Type 0
FromDot e cs =
    ((cs ≡ []) × (2 ≤ e))
    ⊎ ((c : ℕ) × (after : List ℕ) × (cs ≡ c ∷ after) × (is_label_char c ≡ true) × FromLabel e after)

scan-other :
    (e : ℕ) (begun : Bool) (c : ℕ) (cs : List ℕ)
    → is_label_char c ≡ false
    → scan e begun (c ∷ cs) ≡ true
    → (c ≡ 46) × (begun ≡ true) × (scan (suc e) false cs ≡ true)
unfolding scan
scan-other e begun c cs p h = by_test (c == 46) begun refl refl (rw (scan, p) at h)
  where
    by_test :
        (t b : Bool)
        → (c == 46) ≡ t
        → begun ≡ b
        → (elim (t && b) as (λ _. Bool) [ true ↦ scan (suc e) false cs | false ↦ false ]) ≡ true
        → (c ≡ 46) × (begun ≡ true) × (scan (suc e) false cs ≡ true)
    by_test true true q r g = (ground arith, r, g)
    by_test true false q r g = absurd (false≢true g)
    by_test false b q r g = absurd (false≢true g)

-- The next character is of the class, or a dot after a label that was begun.
scan-next :
    (e : ℕ) (begun : Bool) (c : ℕ) (cs : List ℕ)
    → scan e begun (c ∷ cs) ≡ true
    → ((is_label_char c ≡ true) × (scan e true cs ≡ true))
      ⊎ ((c ≡ 46) × (begun ≡ true) × (scan (suc e) false cs ≡ true))
scan-next e begun c cs h = elim (Bool-cases (is_label_char c)) [
  | inl p ↦ inl (p, sym (scan-char e begun c cs p) ∙ h)
  | inr p ↦ inr (scan-other e begun c cs p h)
]

FromLabel-char :
    (e c : ℕ) (cs : List ℕ) → is_label_char c ≡ true → FromLabel e cs → FromLabel e (c ∷ cs)
FromLabel-char e c cs p f = record {
  rest = c ∷ f.rest;
  others = f.others;
  dot = f.dot;
  rest_ok = ((is_label_char_iff c).0 p, f.rest_ok);
  labels = f.labels;
  enough = f.enough;
  spelled = ap (λ r. c ∷ r) f.spelled;
}

FromLabel-dot : (e : ℕ) (cs : List ℕ) → FromDot (suc e) cs → FromLabel e (46 ∷ cs)
unfolding FromDot count
FromLabel-dot e cs (inl (p, n)) = record {
  rest = [];
  others = [];
  dot = true;
  rest_ok = tt;
  labels = tt;
  enough = omega arith;
  spelled = ap (λ r. 46 ∷ r) p;
}
FromLabel-dot e cs (inr (c, after, p, q, f)) = record {
  rest = [];
  others = record { first = c; others = f.rest } ∷ f.others;
  dot = f.dot;
  rest_ok = tt;
  labels = (((is_label_char_iff c).0 q, f.rest_ok), f.labels);
  enough = omega arith;
  spelled =
      ap (λ r. 46 ∷ r)
        (p ∙ ap (λ r. c ∷ r) (f.spelled ∙ sym (append_assoc f.rest (dotted f.others) (end f.dot))));
}

abbrev Accepted : ℕ → Bool → List ℕ → Type 0
Accepted e true cs = FromLabel e cs
Accepted e false cs = FromDot e cs

scan-Accepted : (e : ℕ) (begun : Bool) (cs : List ℕ) → scan e begun cs ≡ true → Accepted e begun cs
unfolding scan FromDot count
scan-Accepted e true [] h = record {
  rest = [];
  others = [];
  dot = false;
  rest_ok = tt;
  labels = tt;
  enough = ground arith;
  spelled = refl;
}
scan-Accepted e false [] h = inl (refl, ground arith)
scan-Accepted e true (c ∷ cs) h = elim (scan-next e true c cs h) [
  | inl (p, q) ↦ FromLabel-char e c cs p (scan-Accepted e true cs q)
  | inr (p, b, q) ↦ rw p (FromLabel-dot e cs (scan-Accepted (suc e) false cs q))
]
scan-Accepted e false (c ∷ cs) h = elim (scan-next e false c cs h) [
  | inl (p, q) ↦ inr (c, cs, refl, p, scan-Accepted e true cs q)
  | inr (p, b, q) ↦ absurd (false≢true b)
]

FromDot-IsDomain : (cs : List ℕ) → FromDot 0 cs → IsDomain cs
unfolding FromDot count
FromDot-IsDomain cs (inl (p, n)) = absurd (omega arith)
FromDot-IsDomain cs (inr (c, after, p, q, f)) = by_others f.others f.labels f.enough f.spelled
  where
    by_others :
        (ls : List Label)
        → AllInClass ls
        → 1 ≤ 0 + count ls
        → after ≡ f.rest ++ (dotted ls ++ end f.dot)
        → IsDomain cs
    by_others [] k n e = absurd (omega arith)
    by_others (l ∷ ls) k n e = record {
      first = record { first = c; others = f.rest };
      second = l;
      others = ls;
      dot = f.dot;
      labels = (((is_label_char_iff c).0 q, f.rest_ok), k);
      spelled = p ∙ ap (λ r. c ∷ r) e;
    }

-- `isValidDomain` accepts exactly the texts that the regular expression describes: a label, one label
-- or more with a dot before each, and perhaps a dot, where a label is a nonempty text of letters,
-- digits and hyphens, in which the long s and the Kelvin sign count as letters.
pub is_valid_domain_iff : (s : String) → (is_valid_domain s ≡ true) ↔ IsDomain (codes s)
unfolding is_valid_domain
is_valid_domain_iff s =
    (λ h. FromDot-IsDomain (codes s) (scan-Accepted 0 false (codes s) h), IsDomain-scan (codes s))
