-- ===== src/Parse/LanguageTag/Words.antt =====
-- include/xtd/grammars/RFC5646.hpp: language tags: its words. Each rule stands under the
-- name that it has there, a character as its code.
use xtl.Prelude.{codes}
use xtl.Parse.{Rule, string}

abbrev pub en_gb_oed : Rule
en_gb_oed = string (codes "en-GB-oed")

abbrev pub i_ami : Rule
i_ami = string (codes "i-ami")

abbrev pub i_bnn : Rule
i_bnn = string (codes "i-bnn")

abbrev pub i_default : Rule
i_default = string (codes "i-default")

abbrev pub i_enochian : Rule
i_enochian = string (codes "i-enochian")

abbrev pub i_hak : Rule
i_hak = string (codes "i-hak")

abbrev pub i_klingon : Rule
i_klingon = string (codes "i-klingon")

abbrev pub i_lux : Rule
i_lux = string (codes "i-lux")

abbrev pub i_mingo : Rule
i_mingo = string (codes "i-mingo")

abbrev pub i_navajo : Rule
i_navajo = string (codes "i-navajo")

abbrev pub i_pwn : Rule
i_pwn = string (codes "i-pwn")

abbrev pub i_tao : Rule
i_tao = string (codes "i-tao")

abbrev pub i_tay : Rule
i_tay = string (codes "i-tay")

abbrev pub i_tsu : Rule
i_tsu = string (codes "i-tsu")

abbrev pub sgn_be_fr : Rule
sgn_be_fr = string (codes "sgn-BE-FR")

abbrev pub sgn_be_nl : Rule
sgn_be_nl = string (codes "sgn-BE-NL")

abbrev pub sgn_ch_de : Rule
sgn_ch_de = string (codes "sgn-CH-DE")

abbrev pub art_lojban : Rule
art_lojban = string (codes "art-lojban")

abbrev pub cel_gaulish : Rule
cel_gaulish = string (codes "cel-gaulish")

abbrev pub no_bok : Rule
no_bok = string (codes "no-bok")

abbrev pub no_nyn : Rule
no_nyn = string (codes "no-nyn")

abbrev pub zh_guoyu : Rule
zh_guoyu = string (codes "zh-guoyu")

abbrev pub zh_hakka : Rule
zh_hakka = string (codes "zh-hakka")

abbrev pub zh_min_nan : Rule
zh_min_nan = string (codes "zh-min-nan")

abbrev pub zh_min : Rule
zh_min = string (codes "zh-min")

abbrev pub zh_xiang : Rule
zh_xiang = string (codes "zh-xiang")
