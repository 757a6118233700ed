-- ===== src/Parse/HttpSemantics/Negotiation.antt =====
-- include/xtd/grammars/RFC7231.hpp: the header fields of HTTP: the rules up to `accept_charset`. Each rule stands under the
-- name that it has there, a character as its code.
use xtl.Parse.{Rule, declared, and_, or_, one_or_more_, zero_or_more_, zero_or_one_, nil, ◌▸◌}
use xtl.Parse.Abnf.{digit, sp}
use xtl.Parse.Http.Message.{ows, quoted_string, token}
use xtl.Parse.HttpSemantics.Characters.{
  asterisk, colon, comma, digits_0, digits_1, equal, forward_slash, hyphen, period, q, semi_colon,
}
use xtl.Parse.HttpSemantics.Words.{
  apr, aug, dec, feb, fri, friday, gmt, identity, jan, jul, jun, mar, may, media_range_all,
  media_subrange_all, mon, monday, nov, oct, sat, saturday, sep, sun, sunday, thu, thursday, tue,
  tuesday, wed, wednesday,
}

abbrev digit_2 : Rule
digit_2 = and_ (digit ▸ digit ▸ nil)

abbrev digit_4 : Rule
digit_4 = and_ (digit ▸ digit ▸ digit ▸ digit ▸ nil)

abbrev up_to_3_digit : Rule
up_to_3_digit =
    zero_or_one_ (and_ (digit ▸ (zero_or_one_ (and_ (digit ▸ (zero_or_one_ digit) ▸ nil))) ▸ nil))

abbrev up_to_3zero : Rule
up_to_3zero =
    zero_or_one_
      (and_ (digits_0 ▸ (zero_or_one_ (and_ (digits_0 ▸ (zero_or_one_ digits_0) ▸ nil))) ▸ nil))

abbrev day_name : Rule
day_name = declared "day_name" (or_ (mon ▸ tue ▸ wed ▸ thu ▸ fri ▸ sat ▸ sun ▸ nil))

abbrev day_name_1 : Rule
day_name_1 =
    declared "day_name_1"
      (or_ (monday ▸ tuesday ▸ wednesday ▸ thursday ▸ friday ▸ saturday ▸ sunday ▸ nil))

abbrev month : Rule
month =
    declared "month"
      (or_ (jan ▸ feb ▸ mar ▸ apr ▸ may ▸ jun ▸ jul ▸ aug ▸ sep ▸ oct ▸ nov ▸ dec ▸ nil))

abbrev day : Rule
day = declared "day" digit_2

abbrev hour : Rule
hour = declared "hour" digit_2

abbrev minute : Rule
minute = declared "minute" digit_2

abbrev second : Rule
second = declared "second" digit_2

abbrev year : Rule
year = declared "year" digit_4

abbrev date1 : Rule
date1 = declared "date1" (and_ (day ▸ sp ▸ month ▸ sp ▸ year ▸ nil))

abbrev date2 : Rule
date2 = declared "date2" (and_ (day ▸ hyphen ▸ month ▸ hyphen ▸ digit_2 ▸ nil))

abbrev date3 : Rule
date3 =
    declared "date3" (and_ (month ▸ sp ▸ (or_ (digit_2 ▸ (and_ (sp ▸ digit ▸ nil)) ▸ nil)) ▸ nil))

abbrev time_of_day : Rule
time_of_day = declared "time_of_day" (and_ (hour ▸ colon ▸ minute ▸ colon ▸ second ▸ nil))

abbrev imf_fixdate : Rule
imf_fixdate =
    declared "IMF_fixdate"
      (and_ (day_name ▸ comma ▸ sp ▸ date1 ▸ sp ▸ time_of_day ▸ sp ▸ gmt ▸ nil))

abbrev rfc850_date : Rule
rfc850_date =
    declared "rfc850_date"
      (and_ (day_name_1 ▸ comma ▸ sp ▸ date2 ▸ sp ▸ time_of_day ▸ sp ▸ gmt ▸ nil))

abbrev asctime_date : Rule
asctime_date =
    declared "asctime_date" (and_ (day_name ▸ sp ▸ date3 ▸ sp ▸ time_of_day ▸ sp ▸ year ▸ nil))

abbrev obs_date : Rule
obs_date = declared "obs_date" (or_ (rfc850_date ▸ asctime_date ▸ nil))

abbrev pub http_date : Rule
http_date = declared "HTTP_date" (or_ (imf_fixdate ▸ obs_date ▸ nil))

abbrev qvalue : Rule
qvalue = declared "qvalue" (
    or_ (
      (and_ (digits_0 ▸ (zero_or_one_ (and_ (period ▸ up_to_3_digit ▸ nil))) ▸ nil))
      ▸ (and_ (digits_1 ▸ (zero_or_one_ (and_ (period ▸ up_to_3zero ▸ nil))) ▸ nil))
      ▸ nil))

abbrev pub weight : Rule
weight = declared "weight" (and_ (ows ▸ semi_colon ▸ ows ▸ q ▸ equal ▸ qvalue ▸ nil))

abbrev parameter : Rule
parameter = declared "parameter" (and_ (token ▸ equal ▸ (or_ (token ▸ quoted_string ▸ nil)) ▸ nil))

abbrev type : Rule
type = declared "type" token

abbrev subtype : Rule
subtype = declared "subtype" token

abbrev pub media_type : Rule
media_type = declared "media_type" (
    and_ (
      type
      ▸ forward_slash
      ▸ subtype
      ▸ (zero_or_more_ (and_ (ows ▸ semi_colon ▸ ows ▸ parameter ▸ nil)))
      ▸ nil))

abbrev media_range : Rule
media_range = declared "media_range" (
    and_ (
      (or_ (
        media_range_all
        ▸ (and_ (type ▸ media_subrange_all ▸ nil))
        ▸ (and_ (type ▸ forward_slash ▸ subtype ▸ nil))
        ▸ nil))
      ▸ (zero_or_more_ (and_ (ows ▸ semi_colon ▸ ows ▸ parameter ▸ nil)))
      ▸ nil))

abbrev accept_ext : Rule
accept_ext = declared "accept_ext" (
    and_ (
      ows
      ▸ semi_colon
      ▸ ows
      ▸ token
      ▸ (zero_or_one_ (and_ (equal ▸ (or_ (token ▸ quoted_string ▸ nil)) ▸ nil)))
      ▸ nil))

abbrev accept_params : Rule
accept_params = declared "accept_params" (and_ (weight ▸ (zero_or_more_ accept_ext) ▸ nil))

abbrev charset : Rule
charset = declared "charset" token

abbrev pub content_coding : Rule
content_coding = declared "content_coding" token

abbrev pub codings : Rule
codings = declared "codings" (or_ (identity ▸ asterisk ▸ content_coding ▸ nil))

abbrev pub method : Rule
method = declared "method" token

abbrev product_version : Rule
product_version = declared "product_version" token

abbrev product : Rule
product =
    declared "product"
      (and_ (token ▸ (zero_or_one_ (and_ (forward_slash ▸ product_version ▸ nil))) ▸ nil))

abbrev pub delay_seconds : Rule
delay_seconds = declared "delay_seconds" (one_or_more_ digit)

abbrev pub accept : Rule
accept = declared "accept" (
    zero_or_one_ (
      and_ (
        (or_ (comma ▸ (and_ (media_range ▸ (zero_or_one_ accept_params) ▸ nil)) ▸ nil))
        ▸ (zero_or_more_ (
            and_ (
              ows
              ▸ comma
              ▸ (zero_or_one_ (and_ (ows ▸ media_range ▸ (zero_or_one_ accept_params) ▸ nil)))
              ▸ nil)))
        ▸ nil)))

abbrev accept_charset : Rule
accept_charset = declared "Accept_Charset" (
    and_ (
      (zero_or_more_ (and_ (comma ▸ ows ▸ nil)))
      ▸ (or_ (charset ▸ asterisk ▸ nil))
      ▸ (zero_or_one_ weight)
      ▸ (zero_or_more_ (
          and_ (
            ows
            ▸ comma
            ▸ (zero_or_one_
                (and_ (ows ▸ (or_ (charset ▸ asterisk ▸ nil)) ▸ (zero_or_one_ weight) ▸ nil)))
            ▸ nil)))
      ▸ nil))
