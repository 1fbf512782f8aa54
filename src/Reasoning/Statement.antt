-- ===== src/Reasoning/Statement.antt =====
-- `normalise_statement` of src/sanuvia/application/reasoning/plan_validation.py, over code points.
-- Which characters are white space and how one folds its case are tables of the language's library:
-- the parameter `Unicode`.
use Prim.Native.Char.{code}
use sanuvia_reasoning_engine.Prelude.{ℕ, String, Bool, ◌||◌, List, [], ◌∷◌, ◌++◌}
use sanuvia_reasoning_engine.Prelude.Tests.{if◌then◌else◌, ◌==◌, nat_eq}

pub record Unicode : Type 0 where
  pub is_space : ℕ → Bool
  pub casefold : ℕ → List ℕ

abbrev pub codes : String → List ℕ
codes String.[] = []
codes (String.◌∷◌ c s) = code c ∷ codes s

-- `s.rstrip(chars)` and `s.lstrip(chars)`, for a test on characters
abbrev rstrip : (ℕ → Bool) → List ℕ → List ℕ
rstrip p [] = []
rstrip p (x ∷ xs) = elim (rstrip p xs) [ [] ↦ if p x then [] else x ∷ [] | y ∷ ys ↦ x ∷ y ∷ ys ]

abbrev lstrip : (ℕ → Bool) → List ℕ → List ℕ
lstrip p [] = []
lstrip p (x ∷ xs) = let rest = lstrip p xs in if p x then rest else x ∷ xs

abbrev flush : List ℕ → List (List ℕ) → List (List ℕ)
flush [] ws = ws
flush (c ∷ w) ws = (c ∷ w) ∷ ws

-- `s.split()`: `word` is the word that is being read.
abbrev split_words : (ℕ → Bool) → List ℕ → List ℕ → List (List ℕ)
split_words space word [] = flush word []
split_words space word (c ∷ cs) =
    let ended = flush word (split_words space [] cs) in
    let longer = split_words space (word ++ c ∷ []) cs in if space c then ended else longer

-- `" ".join(ws)`
abbrev join_words : List (List ℕ) → List ℕ
join_words [] = []
join_words (w ∷ []) = w
join_words (w ∷ v ∷ ws) = w ++ b' ' ∷ join_words (v ∷ ws)

-- `c in ".!?"`
abbrev is_terminal : ℕ → Bool
is_terminal c = c == b'.' || c == b'!' || c == b'?'

abbrev fold_all : (ℕ → List ℕ) → List ℕ → List ℕ
fold_all f [] = []
fold_all f (c ∷ cs) = f c ++ fold_all f cs

unfoldable pub normalise_statement : Unicode → String → List ℕ
normalise_statement u text =
    let joined = join_words (split_words u.is_space [] (codes text)) in
    fold_all u.casefold (rstrip is_terminal (rstrip u.is_space (lstrip u.is_space joined)))
