-- ===== src/Tests/StemRuns.antt =====
-- The examples that the comments of the stemmer give.
use Prim.Native.String.{String}
use xtl.Prelude.{◌-◌, ◌≤◌, ◌<◌, ◌≡◌, refl, length, codes, arith}
use xtl.Porter.{
  Stemmer, cons_at, cons, m_loop, m, vowel_loop, vowelinstem, doublec, cvc, same_at, write_at, ends,
  setto, r,
}
use xtl.Porter.Steps.{
  plural, restore, ends_ed_ing, past, step1ab, step1c, apply_rules, rules2, step2, rules3, step3,
  ends_any, suffixes4, ends_ion_ou, search4, step4, drop_e, drop_l, step5, stem, load, read_from,
  porter,
}
use xtl.Porter.Bounds.{stem_bounds, length-porter}
use xtl.Porter.Measure.{vc_count, m_lem}

program : Unit {0}
unfolding cons_at cons m_loop m vowel_loop vowelinstem doublec cvc same_at write_at ends setto r
    plural restore ends_ed_ing past step1ab step1c apply_rules rules2 step2 rules3 step3 ends_any
    suffixes4 ends_ion_ou search4 step4 drop_e drop_l step5 stem load read_from porter
program = tt

abbrev Stems : String → String → Type 0
Stems w v = porter 0 (codes w) ≡ codes v

stem_caresses : Stems "caresses" "caress"
unfolding program
stem_caresses = refl

stem_ponies : Stems "ponies" "poni"
unfolding program
stem_ponies = refl

stem_ties : Stems "ties" "ti"
unfolding program
stem_ties = refl

stem_caress_same : Stems "caress" "caress"
unfolding program
stem_caress_same = refl

stem_cats : Stems "cats" "cat"
unfolding program
stem_cats = refl

stem_feed : Stems "feed" "feed"
unfolding program
stem_feed = refl

stem_disabled : Stems "disabled" "disabl"
unfolding program
stem_disabled = refl

stem_matting : Stems "matting" "mat"
unfolding program
stem_matting = refl

stem_mating : Stems "mating" "mate"
unfolding program
stem_mating = refl

stem_meeting : Stems "meeting" "meet"
unfolding program
stem_meeting = refl

stem_milling : Stems "milling" "mill"
unfolding program
stem_milling = refl

stem_messing : Stems "messing" "mess"
unfolding program
stem_messing = refl

stem_meetings : Stems "meetings" "meet"
unfolding program
stem_meetings = refl

stem_relational : Stems "relational" "relat"
unfolding program
stem_relational = refl

stem_generalizations : Stems "generalizations" "gener"
unfolding program
stem_generalizations = refl

stem_happy : Stems "happy" "happi"
unfolding program
stem_happy = refl

stem_hopping : Stems "hopping" "hop"
unfolding program
stem_hopping = refl

stem_adoption : Stems "adoption" "adopt"
unfolding program
stem_adoption = refl

stem_controlling : Stems "controlling" "control"
unfolding program
stem_controlling = refl

stem_bounds_example :
    (1 ≤ (stem (load 0 (codes "meetings")) 1 8).k) × ((stem (load 0 (codes "meetings")) 1 8).k ≤ 8)
stem_bounds_example = stem_bounds (load 0 (codes "meetings")) 1 8 (omega arith) (omega arith)

length-porter_example :
    (length (porter 0 (codes "ties")) ≤ 4) × (0 < length (porter 0 (codes "ties")))
length-porter_example = length-porter 0 b't' (codes "ies")

-- `m` of "meetings", of which "meet" is before `j`
abbrev word_meetings : Stemmer
word_meetings = record { b = load 0 (codes "meetings"); k = 8; k0 = 1; j = 4 }

m_lem_example :
    m word_meetings
    ≡ vc_count (cons word_meetings) word_meetings.k0 (word_meetings.j - word_meetings.k0)
m_lem_example = m_lem word_meetings
