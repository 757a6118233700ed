-- ===== src/Parse/LanguageRange.antt =====
-- include/xtd/grammars/RFC4647.hpp: language ranges. Each rule stands under the
-- name that it has there, a character as its code.
use xtl.Parse.{Rule, declared, and_, or_, zero_or_more_, zero_or_one_, character, nil, ◌▸◌}
use xtl.Parse.Abnf.{alpha}

abbrev hyphen : Rule
hyphen = character 45

abbrev asterisk : Rule
asterisk = character 42

abbrev alpha_1_to_8 : Rule
alpha_1_to_8 = and_ (
    alpha
    ▸ (zero_or_one_ (
        and_ (
          alpha
          ▸ (zero_or_one_ (
              and_ (
                alpha
                ▸ (zero_or_one_ (
                    and_ (
                      alpha
                      ▸ (zero_or_one_ (
                          and_ (
                            alpha
                            ▸ (zero_or_one_ (
                                and_ (
                                  alpha
                                  ▸ (zero_or_one_ (and_ (alpha ▸ (zero_or_one_ alpha) ▸ nil)))
                                  ▸ nil)))
                            ▸ nil)))
                      ▸ nil)))
                ▸ nil)))
          ▸ nil)))
    ▸ nil)

abbrev pub language_range : Rule
language_range = declared "language_range" (
    or_ (
      (and_ (alpha_1_to_8 ▸ (zero_or_more_ (and_ (hyphen ▸ alpha_1_to_8 ▸ nil))) ▸ nil))
      ▸ asterisk
      ▸ nil))
