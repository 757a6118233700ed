-- ===== src/Parse/LanguageTag.antt =====
-- include/xtd/grammars/RFC5646.hpp: language tags. Each rule stands under the
-- name that it has there, a character as its code.
pub mod Characters
pub mod Words
use xtl.Parse.{Rule, declared, and_, or_, not_, one_or_more_, zero_or_more_, zero_or_one_, nil, ◌▸◌}
use xtl.Parse.Abnf.{alpha, digit}
use xtl.Parse.LanguageTag.Characters.{
  hyphen, singleton_lower_aw, singleton_lower_yz, singleton_upper_aw, singleton_upper_yz, x,
}
use xtl.Parse.LanguageTag.Words.{
  art_lojban, cel_gaulish, en_gb_oed, i_ami, i_bnn, i_default, i_enochian, i_hak, i_klingon, i_lux,
  i_mingo, i_navajo, i_pwn, i_tao, i_tay, i_tsu, no_bok, no_nyn, sgn_be_fr, sgn_be_nl, sgn_ch_de,
  zh_guoyu, zh_hakka, zh_min, zh_min_nan, zh_xiang,
}

abbrev alphanum : Rule
alphanum = or_ (alpha ▸ digit ▸ nil)

abbrev not_alpha : Rule
not_alpha = not_ (alpha ▸ nil)

abbrev not_alphanum : Rule
not_alphanum = not_ (alphanum ▸ nil)

abbrev not_digit : Rule
not_digit = not_ (digit ▸ nil)

abbrev alpha_2_to_3 : Rule
alpha_2_to_3 = and_ (alpha ▸ alpha ▸ (zero_or_one_ alpha) ▸ nil)

abbrev alpha_3 : Rule
alpha_3 = and_ (alpha ▸ alpha ▸ alpha ▸ nil)

abbrev alpha_4 : Rule
alpha_4 = and_ (alpha ▸ alpha ▸ alpha ▸ alpha ▸ nil)

abbrev alpha_5_to_8 : Rule
alpha_5_to_8 = and_ (
    alpha
    ▸ alpha
    ▸ alpha
    ▸ alpha
    ▸ alpha
    ▸ (zero_or_one_
        (and_ (alpha ▸ (zero_or_one_ (and_ (alpha ▸ (zero_or_one_ alpha) ▸ nil))) ▸ nil)))
    ▸ nil)

abbrev digit_3 : Rule
digit_3 = and_ (digit ▸ digit ▸ digit ▸ nil)

abbrev alpha_2 : Rule
alpha_2 = and_ (alpha ▸ alpha ▸ nil)

abbrev alphanum_1_to_8 : Rule
alphanum_1_to_8 = and_ (
    alphanum
    ▸ (zero_or_one_ (
        and_ (
          alphanum
          ▸ (zero_or_one_ (
              and_ (
                alphanum
                ▸ (zero_or_one_ (
                    and_ (
                      alphanum
                      ▸ (zero_or_one_ (
                          and_ (
                            alphanum
                            ▸ (zero_or_one_ (
                                and_ (
                                  alphanum
                                  ▸ (zero_or_one_ (and_ (alphanum ▸ (zero_or_one_ alphanum) ▸ nil)))
                                  ▸ nil)))
                            ▸ nil)))
                      ▸ nil)))
                ▸ nil)))
          ▸ nil)))
    ▸ nil)

abbrev alphanum_2_to_8 : Rule
alphanum_2_to_8 = and_ (
    alphanum
    ▸ alphanum
    ▸ (zero_or_one_ (
        and_ (
          alphanum
          ▸ (zero_or_one_ (
              and_ (
                alphanum
                ▸ (zero_or_one_ (
                    and_ (
                      alphanum
                      ▸ (zero_or_one_ (
                          and_ (
                            alphanum
                            ▸ (zero_or_one_ (and_ (alphanum ▸ (zero_or_one_ alphanum) ▸ nil)))
                            ▸ nil)))
                      ▸ nil)))
                ▸ nil)))
          ▸ nil)))
    ▸ nil)

abbrev alphanum_3 : Rule
alphanum_3 = and_ (alphanum ▸ alphanum ▸ alphanum ▸ nil)

abbrev alphanum_5_to_8 : Rule
alphanum_5_to_8 = and_ (
    alphanum
    ▸ alphanum
    ▸ alphanum
    ▸ alphanum
    ▸ alphanum
    ▸ (zero_or_one_
        (and_ (alphanum ▸ (zero_or_one_ (and_ (alphanum ▸ (zero_or_one_ alphanum) ▸ nil))) ▸ nil)))
    ▸ nil)

abbrev hyphen_alpha3_subtag : Rule
hyphen_alpha3_subtag = and_ (hyphen ▸ alpha_3 ▸ not_alpha ▸ nil)

abbrev up_to_2_hyphen_alpha3 : Rule
up_to_2_hyphen_alpha3 =
    zero_or_one_ (and_ (hyphen_alpha3_subtag ▸ (zero_or_one_ hyphen_alpha3_subtag) ▸ nil))

abbrev singleton : Rule
singleton = declared "singleton" (
    or_ (
      digit ▸ singleton_upper_aw ▸ singleton_upper_yz ▸ singleton_lower_aw ▸ singleton_lower_yz
      ▸ nil))

abbrev extlang : Rule
extlang = declared "extlang" (and_ (alpha_3 ▸ not_alpha ▸ up_to_2_hyphen_alpha3 ▸ nil))

abbrev language : Rule
language = declared "language" (
    or_ (
      (and_ (alpha_5_to_8 ▸ not_alpha ▸ nil))
      ▸ (and_ (alpha_4 ▸ not_alpha ▸ nil))
      ▸ (and_ (alpha_2_to_3 ▸ not_alpha ▸ (zero_or_one_ (and_ (hyphen ▸ extlang ▸ nil))) ▸ nil))
      ▸ nil))

abbrev script : Rule
script = declared "script" (and_ (alpha_4 ▸ not_alpha ▸ nil))

abbrev region : Rule
region =
    declared "region"
      (or_ ((and_ (alpha_2 ▸ not_alpha ▸ nil)) ▸ (and_ (digit_3 ▸ not_digit ▸ nil)) ▸ nil))

abbrev variant : Rule
variant = declared "variant" (
    or_ (
      (and_ (alphanum_5_to_8 ▸ not_alphanum ▸ nil))
      ▸ (and_ (digit ▸ alphanum_3 ▸ not_alphanum ▸ nil))
      ▸ nil))

abbrev extension : Rule
extension =
    declared "extension" (
      and_
        (singleton ▸ (one_or_more_ (and_ (hyphen ▸ alphanum_2_to_8 ▸ not_alphanum ▸ nil))) ▸ nil))

abbrev privateuse : Rule
privateuse =
    declared "privateuse"
      (and_ (x ▸ (one_or_more_ (and_ (hyphen ▸ alphanum_1_to_8 ▸ not_alphanum ▸ nil))) ▸ nil))

abbrev irregular : Rule
irregular = declared "irregular" (
    or_ (
      en_gb_oed ▸ i_default ▸ i_enochian ▸ i_klingon ▸ i_navajo ▸ i_ami ▸ i_bnn ▸ i_hak ▸ i_lux
      ▸ i_mingo ▸ i_pwn ▸ i_tao ▸ i_tay ▸ i_tsu ▸ sgn_be_fr ▸ sgn_be_nl ▸ sgn_ch_de ▸ nil))

abbrev regular : Rule
regular = declared "regular" (
    or_ (
      art_lojban ▸ cel_gaulish ▸ no_bok ▸ no_nyn ▸ zh_guoyu ▸ zh_hakka ▸ zh_min_nan ▸ zh_xiang
      ▸ zh_min ▸ nil))

abbrev grandfathered : Rule
grandfathered = declared "grandfathered" (or_ (irregular ▸ regular ▸ nil))

abbrev langtag : Rule
langtag = declared "langtag" (
    and_ (
      language
      ▸ (zero_or_one_ (and_ (hyphen ▸ script ▸ nil)))
      ▸ (zero_or_one_ (and_ (hyphen ▸ region ▸ nil)))
      ▸ (zero_or_more_ (and_ (hyphen ▸ variant ▸ nil)))
      ▸ (zero_or_more_ (and_ (hyphen ▸ extension ▸ nil)))
      ▸ (zero_or_one_ (and_ (hyphen ▸ privateuse ▸ nil)))
      ▸ nil))

abbrev pub language_tag : Rule
language_tag = declared "Language_Tag" (or_ (grandfathered ▸ privateuse ▸ langtag ▸ nil))
