-- ===== src/Porter/Steps.antt =====
-- The steps of the stemmer, `stem` and the call operator.
use Prim.Native.String.{String}
use xtl.Prelude.{
  ℕ, zero, suc, ◌+◌, ◌-◌, Bool, true, false, not, ◌&&◌, ◌||◌, ◌==◌, ltb, leb, if◌then◌else◌, List,
  [], ◌∷◌, length, get_or, codes, update,
}
use xtl.Porter.{Stemmer, m, vowelinstem, doublec, cvc, ends, setto, r}

abbrev pub char_at_k : Stemmer → ℕ
char_at_k s = s.b s.k

-- `if (ends(w)) yes; else no;`
abbrev pub if_ends : String → Stemmer → (Stemmer → Stemmer) → (Stemmer → Stemmer) → Stemmer
if_ends w s on_true on_false =
    let (found, s') = ends (codes w) s in if found then on_true s' else on_false s'

-- the plurals
unfoldable pub plural : Stemmer → Stemmer
plural s =
    if char_at_k s == b's'
    then if_ends "sses" s (λ t. record t { k = t.k - 2 })
        (λ t.
          if_ends "ies" t (setto (codes "i"))
            (λ u. if not (u.b (u.k - 1) == b's') then record u { k = u.k - 1 } else u))
    else s

-- what follows the removal of -ed or -ing
unfoldable pub restore : Stemmer → Stemmer
restore s = if_ends "at" s (setto (codes "ate")) (λ t. if_ends "bl" t (setto (codes "ble")) (λ u.
    if_ends "iz" u (setto (codes "ize")) (λ v.
      if doublec v v.k
      then (let ch = v.b (v.k - 1) in
          if ch == b'l' || ch == b's' || ch == b'z' then v else record v { k = v.k - 1 })
      else if m v == 1 && cvc v v.k
      then setto (codes "e") v
      else v)))

-- `ends("ed") || ends("ing")`
unfoldable pub ends_ed_ing : Stemmer → Bool × Stemmer
ends_ed_ing s = let (ed, t) = ends (codes "ed") s in if ed then (true, t) else ends (codes "ing") t

unfoldable pub past : Stemmer → Stemmer
past s =
    if_ends "eed" s (λ t. if ltb 0 (m t) then record t { k = t.k - 1 } else t)
      (λ t.
        let (found, u) = ends_ed_ing t in
        if found && vowelinstem u then restore (record u { k = u.j }) else u)

unfoldable pub step1ab : Stemmer → Stemmer
step1ab s = past (plural s)

unfoldable pub step1c : Stemmer → Stemmer
step1c s =
    if_ends "y" s (λ t. if vowelinstem t then record t { b = update t.b t.k b'i' } else t) (λ t. t)

abbrev pub SuffixRule : Type 0
SuffixRule = String × String

-- `if (ends(suffix)){ r(by); break; }`, for each rule of a case
unfoldable pub apply_rules : List SuffixRule → Stemmer → Stemmer
apply_rules [] s = s
apply_rules ((suffix, by) ∷ rules) s =
    let rest = apply_rules rules (ends (codes suffix) s).1 in
    if (ends (codes suffix) s).0 then r (codes by) (ends (codes suffix) s).1 else rest

-- the cases of the `switch` in `step2`
unfoldable pub rules2 : ℕ → List SuffixRule
rules2 c =
    if c == b'a'
    then ("ational", "ate") ∷ ("tional", "tion") ∷ []
    else if c == b'c'
    then ("enci", "ence") ∷ ("anci", "ance") ∷ []
    else if c == b'e'
    then ("izer", "ize") ∷ []
    else if c == b'l'
    then ("bli", "ble") ∷ ("alli", "al") ∷ ("entli", "ent") ∷ ("eli", "e") ∷ ("ousli", "ous") ∷ []
    else if c == b'o'
    then ("ization", "ize") ∷ ("ation", "ate") ∷ ("ator", "ate") ∷ []
    else if c == b's'
    then ("alism", "al") ∷ ("iveness", "ive") ∷ ("fulness", "ful") ∷ ("ousness", "ous") ∷ []
    else if c == b't'
    then ("aliti", "al") ∷ ("iviti", "ive") ∷ ("biliti", "ble") ∷ []
    else if c == b'g'
    then ("logi", "log") ∷ []
    else []

unfoldable pub step2 : Stemmer → Stemmer
step2 s = apply_rules (rules2 (s.b (s.k - 1))) s

-- the cases of the `switch` in `step3`
unfoldable pub rules3 : ℕ → List SuffixRule
rules3 c =
    if c == b'e'
    then ("icate", "ic") ∷ ("ative", "") ∷ ("alize", "al") ∷ []
    else if c == b'i'
    then ("iciti", "ic") ∷ []
    else if c == b'l'
    then ("ical", "ic") ∷ ("ful", "") ∷ []
    else if c == b's'
    then ("ness", "") ∷ []
    else []

unfoldable pub step3 : Stemmer → Stemmer
step3 s = apply_rules (rules3 (char_at_k s)) s

-- `if (ends(w)) break;` for each suffix, then `return`
unfoldable pub ends_any : List String → Stemmer → Bool × Stemmer
ends_any [] s = (false, s)
ends_any (w ∷ ws) s =
    let rest = ends_any ws (ends (codes w) s).1 in
    if (ends (codes w) s).0 then (true, (ends (codes w) s).1) else rest

-- the cases of the `switch` in `step4`, but for 'o'
unfoldable pub suffixes4 : ℕ → List String
suffixes4 c =
    if c == b'a'
    then "al" ∷ []
    else if c == b'c'
    then "ance" ∷ "ence" ∷ []
    else if c == b'e'
    then "er" ∷ []
    else if c == b'i'
    then "ic" ∷ []
    else if c == b'l'
    then "able" ∷ "ible" ∷ []
    else if c == b'n'
    then "ant" ∷ "ement" ∷ "ment" ∷ "ent" ∷ []
    else if c == b's'
    then "ism" ∷ []
    else if c == b't'
    then "ate" ∷ "iti" ∷ []
    else if c == b'u'
    then "ous" ∷ []
    else if c == b'v'
    then "ive" ∷ []
    else if c == b'z'
    then "ize" ∷ []
    else []

-- `if (ends("ion") && (b[j] == 's' || b[j] == 't')) break; if (ends("ou")) break;`
unfoldable pub ends_ion_ou : Stemmer → Bool × Stemmer
ends_ion_ou s =
    let t = (ends (codes "ion") s).1 in
    if (ends (codes "ion") s).0 && (t.b t.j == b's' || t.b t.j == b't')
    then (true, t)
    else ends (codes "ou") t

-- the `switch` of `step4`: true if it is left by `break`
unfoldable pub search4 : Stemmer → Bool × Stemmer
search4 s = if s.b (s.k - 1) == b'o' then ends_ion_ou s else ends_any (suffixes4 (s.b (s.k - 1))) s

unfoldable pub step4 : Stemmer → Stemmer
step4 s = let (found, t) = search4 s in if found && ltb 1 (m t) then record t { k = t.j } else t

-- a final -e
unfoldable pub drop_e : Stemmer → Stemmer
drop_e s =
    if char_at_k s == b'e' && (ltb 1 (m s) || m s == 1 && not (cvc s (s.k - 1)))
    then record s { k = s.k - 1 }
    else s

-- a final -ll
unfoldable pub drop_l : Stemmer → Stemmer
drop_l s =
    if char_at_k s == b'l' && doublec s s.k && ltb 1 (m s) then record s { k = s.k - 1 } else s

unfoldable pub step5 : Stemmer → Stemmer
step5 s = drop_l (drop_e (record s { j = s.k }))

-- `stem(p, i, j)`: the state that it leaves; it returns the `k` of it
unfoldable pub stem : (ℕ → ℕ) → ℕ → ℕ → Stemmer
stem p i j =
    let s : Stemmer = record { b = p; k = j; k0 = i; j = 0 } in
    if leb s.k (s.k0 + 1) then s else step5 (step4 (step3 (step2 (step1c (step1ab s)))))

-- A word in memory, behind the byte `before` and in front of zeros.
unfoldable pub load : ℕ → List ℕ → ℕ → ℕ
load before word zero = before
load before word (suc i) = get_or word i 0

-- the first `n` characters of the buffer, from index 0
unfoldable pub read_from : (ℕ → ℕ) → ℕ → ℕ → List ℕ
read_from b i zero = []
read_from b i (suc n) = b i ∷ read_from b (i + 1) n

-- The call operator: the result of `stem` is the index of the last character, which is the new
-- length less one.
unfoldable pub porter : ℕ → List ℕ → List ℕ
porter before src = let s = stem (load before src) 1 (length src) in read_from s.b 1 s.k
