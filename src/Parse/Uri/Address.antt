-- ===== src/Parse/Uri/Address.antt =====
-- include/xtd/grammars/RFC3986.hpp: the forms of internet addresses.
use xtl.Parse.{Rule, declared, and_, or_, one_or_more_, zero_or_one_, nil, ◌▸◌}
use xtl.Parse.Uri.Terminals.{
  digit, colon, period, percent, v_char, digit_0, digit_1, digit_2, digit_3, digit_4, digit_5,
  digit_6, digit_7, digit_8, digit_9, colon_colon, digit_25, hex_digit, sub_delims, unreserved,
}

abbrev pub h16 : Rule
h16 = or_ (
    (and_ (hex_digit ▸ hex_digit ▸ hex_digit ▸ hex_digit ▸ nil))
    ▸ (and_ (hex_digit ▸ hex_digit ▸ hex_digit ▸ nil))
    ▸ (and_ (hex_digit ▸ hex_digit ▸ nil))
    ▸ hex_digit
    ▸ nil)

abbrev pub pct_encoded : Rule
pct_encoded = declared "pct_encoded" (and_ (percent ▸ hex_digit ▸ hex_digit ▸ nil))

abbrev pub dec_octet : Rule
dec_octet = declared "dec_octet" (
    or_ (
      (and_
        (digit_25 ▸ (or_ (digit_0 ▸ digit_1 ▸ digit_2 ▸ digit_3 ▸ digit_4 ▸ digit_5 ▸ nil)) ▸ nil))
      ▸ (and_
          (digit_2 ▸ (or_ (digit_0 ▸ digit_1 ▸ digit_2 ▸ digit_3 ▸ digit_4 ▸ nil)) ▸ digit ▸ nil))
      ▸ (and_ (digit_1 ▸ digit ▸ digit ▸ nil))
      ▸ (and_ (
          (or_ (
            digit_1 ▸ digit_2 ▸ digit_3 ▸ digit_4 ▸ digit_5 ▸ digit_6 ▸ digit_7 ▸ digit_8 ▸ digit_9
            ▸ nil))
          ▸ digit
          ▸ nil))
      ▸ digit
      ▸ nil))

abbrev pub ipv4_address : Rule
ipv4_address =
    declared "IPv4address"
      (and_ (dec_octet ▸ period ▸ dec_octet ▸ period ▸ dec_octet ▸ period ▸ dec_octet ▸ nil))

abbrev pub ls32 : Rule
ls32 = declared "ls32" (or_ (ipv4_address ▸ (and_ (h16 ▸ colon ▸ h16 ▸ nil)) ▸ nil))

abbrev pub ipv6_pref1 : Rule
ipv6_pref1 = zero_or_one_ (or_ ((and_ (h16 ▸ colon ▸ h16 ▸ nil)) ▸ h16 ▸ nil))

abbrev pub ipv6_pref2 : Rule
ipv6_pref2 = zero_or_one_ (
    or_ (
      (and_ (h16 ▸ colon ▸ h16 ▸ colon ▸ h16 ▸ nil))
      ▸ (and_ (h16 ▸ colon ▸ h16 ▸ nil))
      ▸ h16
      ▸ nil))

abbrev pub ipv6_pref3 : Rule
ipv6_pref3 = zero_or_one_ (
    or_ (
      (and_ (h16 ▸ colon ▸ h16 ▸ colon ▸ h16 ▸ colon ▸ h16 ▸ nil))
      ▸ (and_ (h16 ▸ colon ▸ h16 ▸ colon ▸ h16 ▸ nil))
      ▸ (and_ (h16 ▸ colon ▸ h16 ▸ nil))
      ▸ h16
      ▸ nil))

abbrev pub ipv6_pref4 : Rule
ipv6_pref4 = zero_or_one_ (
    or_ (
      (and_ (h16 ▸ colon ▸ h16 ▸ colon ▸ h16 ▸ colon ▸ h16 ▸ colon ▸ h16 ▸ nil))
      ▸ (and_ (h16 ▸ colon ▸ h16 ▸ colon ▸ h16 ▸ colon ▸ h16 ▸ nil))
      ▸ (and_ (h16 ▸ colon ▸ h16 ▸ colon ▸ h16 ▸ nil))
      ▸ (and_ (h16 ▸ colon ▸ h16 ▸ nil))
      ▸ h16
      ▸ nil))

abbrev pub ipv6_pref5 : Rule
ipv6_pref5 = zero_or_one_ (
    or_ (
      (and_ (h16 ▸ colon ▸ h16 ▸ colon ▸ h16 ▸ colon ▸ h16 ▸ colon ▸ h16 ▸ colon ▸ h16 ▸ nil))
      ▸ (and_ (h16 ▸ colon ▸ h16 ▸ colon ▸ h16 ▸ colon ▸ h16 ▸ colon ▸ h16 ▸ nil))
      ▸ (and_ (h16 ▸ colon ▸ h16 ▸ colon ▸ h16 ▸ colon ▸ h16 ▸ nil))
      ▸ (and_ (h16 ▸ colon ▸ h16 ▸ colon ▸ h16 ▸ nil))
      ▸ (and_ (h16 ▸ colon ▸ h16 ▸ nil))
      ▸ h16
      ▸ nil))

abbrev pub ipv6_pref6 : Rule
ipv6_pref6 = zero_or_one_ (
    or_ (
      (and_ (
        h16 ▸ colon ▸ h16 ▸ colon ▸ h16 ▸ colon ▸ h16 ▸ colon ▸ h16 ▸ colon ▸ h16 ▸ colon ▸ h16
        ▸ nil))
      ▸ (and_ (h16 ▸ colon ▸ h16 ▸ colon ▸ h16 ▸ colon ▸ h16 ▸ colon ▸ h16 ▸ colon ▸ h16 ▸ nil))
      ▸ (and_ (h16 ▸ colon ▸ h16 ▸ colon ▸ h16 ▸ colon ▸ h16 ▸ colon ▸ h16 ▸ nil))
      ▸ (and_ (h16 ▸ colon ▸ h16 ▸ colon ▸ h16 ▸ colon ▸ h16 ▸ nil))
      ▸ (and_ (h16 ▸ colon ▸ h16 ▸ colon ▸ h16 ▸ nil))
      ▸ (and_ (h16 ▸ colon ▸ h16 ▸ nil))
      ▸ h16
      ▸ nil))

abbrev pub ipv6_form1 : Rule
ipv6_form1 =
    and_ (
      h16 ▸ colon ▸ h16 ▸ colon ▸ h16 ▸ colon ▸ h16 ▸ colon ▸ h16 ▸ colon ▸ h16 ▸ colon ▸ ls32
      ▸ nil)

abbrev pub ipv6_form2 : Rule
ipv6_form2 =
    and_ (
      colon_colon ▸ h16 ▸ colon ▸ h16 ▸ colon ▸ h16 ▸ colon ▸ h16 ▸ colon ▸ h16 ▸ colon ▸ ls32
      ▸ nil)

abbrev pub ipv6_form3 : Rule
ipv6_form3 = and_ (
    (zero_or_one_ h16)
    ▸ colon_colon
    ▸ h16
    ▸ colon
    ▸ h16
    ▸ colon
    ▸ h16
    ▸ colon
    ▸ h16
    ▸ colon
    ▸ ls32
    ▸ nil)

abbrev pub ipv6_form4 : Rule
ipv6_form4 = and_ (ipv6_pref1 ▸ colon_colon ▸ h16 ▸ colon ▸ h16 ▸ colon ▸ h16 ▸ colon ▸ ls32 ▸ nil)

abbrev pub ipv6_form5 : Rule
ipv6_form5 = and_ (ipv6_pref2 ▸ colon_colon ▸ h16 ▸ colon ▸ h16 ▸ colon ▸ ls32 ▸ nil)

abbrev pub ipv6_form6 : Rule
ipv6_form6 = and_ (ipv6_pref3 ▸ colon_colon ▸ h16 ▸ colon ▸ ls32 ▸ nil)

abbrev pub ipv6_form7 : Rule
ipv6_form7 = and_ (ipv6_pref4 ▸ colon_colon ▸ ls32 ▸ nil)

abbrev pub ipv6_form8 : Rule
ipv6_form8 = and_ (ipv6_pref5 ▸ colon_colon ▸ h16 ▸ nil)

abbrev pub ipv6_form9 : Rule
ipv6_form9 = and_ (ipv6_pref6 ▸ colon_colon ▸ nil)

abbrev pub ipv6_address : Rule
ipv6_address = declared "IPv6address" (
    or_ (
      ipv6_form1 ▸ ipv6_form2 ▸ ipv6_form3 ▸ ipv6_form4 ▸ ipv6_form5 ▸ ipv6_form6 ▸ ipv6_form7
      ▸ ipv6_form8 ▸ ipv6_form9 ▸ nil))

abbrev pub ipv_future : Rule
ipv_future = declared "IPvFuture" (
    and_ (
      v_char
      ▸ (one_or_more_ hex_digit)
      ▸ period
      ▸ (one_or_more_ (or_ (unreserved ▸ sub_delims ▸ colon ▸ nil)))
      ▸ nil))
