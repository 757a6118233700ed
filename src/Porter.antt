-- ===== src/Porter.antt =====
-- include/xtd/nlp/porter_stemmer.hpp: the buffer of `stemmer::porter`, its tests and its writes.
-- An `int` index `i` is kept as `i + 1`, so that the index -1, which `j` can reach, is 0; what stands
-- at 0 is the byte before the word. Characters are their codes. A suffix is written without the
-- byte that holds its length.
pub mod Steps
pub mod Measure
pub mod Bounds
use xtl.Prelude.{
  ℕ, zero, suc, ◌+◌, ◌-◌, Bool, true, false, not, ◌&&◌, ◌||◌, ◌==◌, ltb, if◌then◌else◌, List, [],
  ◌∷◌, length, get_or, update,
}

-- `b`, `k`, `k0` and `j`
pub record Stemmer : Type 0 where
  pub b : ℕ → ℕ
  pub k : ℕ
  pub k0 : ℕ
  pub j : ℕ

abbrev pub is_vowel : ℕ → Bool
is_vowel c = c == b'a' || c == b'e' || c == b'i' || c == b'o' || c == b'u'

-- `cons`, at `d` characters behind `k0`; the call for `i - 1` is that for `d`
unfoldable pub cons_at : (ℕ → ℕ) → ℕ → ℕ → Bool
cons_at b k0 zero = not (is_vowel (b k0))
cons_at b k0 (suc d) =
    let before = cons_at b k0 d in
    let c = b (k0 + suc d) in if is_vowel c then false else if c == b'y' then not before else true

unfoldable pub cons : Stemmer → ℕ → Bool
cons s i = cons_at s.b s.k0 (i - s.k0)

-- The loops of `m`: before the first vowel, in a run of vowels, in a run of consonants.
pub data Phase : Type 0 where
  leading vowels consonants : Phase

-- `m` from position `i`, with `r` positions left up to `j`
unfoldable pub m_loop : (ℕ → Bool) → Phase → (n i r : ℕ) → ℕ
m_loop c phase n i zero = n
m_loop c leading n i (suc r) = m_loop c (if c i then leading else vowels) n (i + 1) r
m_loop c vowels n i (suc r) =
    m_loop c (if c i then consonants else vowels) (if c i then n + 1 else n) (i + 1) r
m_loop c consonants n i (suc r) = m_loop c (if c i then consonants else vowels) n (i + 1) r

unfoldable pub m : Stemmer → ℕ
m s = m_loop (cons s) leading 0 s.k0 (s.j + 1 - s.k0)

-- `for (i = k0; i <= j; i++) if (!cons(i)) return true;`
unfoldable pub vowel_loop : (ℕ → Bool) → (i r : ℕ) → Bool
vowel_loop c i zero = false
vowel_loop c i (suc r) = not (c i) || vowel_loop c (i + 1) r

unfoldable pub vowelinstem : Stemmer → Bool
vowelinstem s = vowel_loop (cons s) s.k0 (s.j + 1 - s.k0)

unfoldable pub doublec : Stemmer → ℕ → Bool
doublec s j =
    if ltb j (s.k0 + 1) then false else if not (s.b j == s.b (j - 1)) then false else cons s j

unfoldable pub cvc : Stemmer → ℕ → Bool
cvc s i =
    if ltb i (s.k0 + 2) || not (cons s i) || cons s (i - 1) || not (cons s (i - 2))
    then false
    else not (s.b i == b'w' || s.b i == b'x' || s.b i == b'y')

-- `memcmp(b + i, s + 1, length) == 0`
unfoldable pub same_at : (ℕ → ℕ) → ℕ → List ℕ → Bool
same_at b i [] = true
same_at b i (c ∷ cs) = b i == c && same_at b (i + 1) cs

-- `memmove(b + i, s + 1, length)`
unfoldable pub write_at : (ℕ → ℕ) → ℕ → List ℕ → ℕ → ℕ
write_at b i [] = b
write_at b i (c ∷ cs) = write_at (update b i c) (i + 1) cs

-- `ends`; `j` is set if it returns true
unfoldable pub ends : List ℕ → Stemmer → Bool × Stemmer
ends w s =
    if not (get_or w (length w - 1) 0 == s.b s.k)
    then (false, s)
    else if ltb (s.k + 1 - s.k0) (length w)
    then (false, s)
    else if not (same_at s.b (s.k + 1 - length w) w)
    then (false, s)
    else (true, record s { j = s.k - length w })

unfoldable pub setto : List ℕ → Stemmer → Stemmer
setto w s = record s { b = write_at s.b (s.j + 1) w; k = s.j + length w }

-- `r`
unfoldable pub r : List ℕ → Stemmer → Stemmer
r w s = if ltb 0 (m s) then setto w s else s
