-- ===== src/Parse/HttpSemantics/Words.antt =====
-- include/xtd/grammars/RFC7231.hpp: the header fields of HTTP: its words. Each rule stands under the
-- name that it has there, a character as its code.
use xtl.Prelude.{codes}
use xtl.Parse.{Rule, string}

abbrev pub digits_100_continue : Rule
digits_100_continue = string (codes "100-continue")

abbrev pub gmt : Rule
gmt = string (codes "GMT")

abbrev pub identity : Rule
identity = string (codes "identity")

abbrev pub mon : Rule
mon = string (codes "Mon")

abbrev pub tue : Rule
tue = string (codes "Tue")

abbrev pub wed : Rule
wed = string (codes "Wed")

abbrev pub thu : Rule
thu = string (codes "Thu")

abbrev pub fri : Rule
fri = string (codes "Fri")

abbrev pub sat : Rule
sat = string (codes "Sat")

abbrev pub sun : Rule
sun = string (codes "Sun")

abbrev pub monday : Rule
monday = string (codes "Monday")

abbrev pub tuesday : Rule
tuesday = string (codes "Tuesday")

abbrev pub wednesday : Rule
wednesday = string (codes "Wednesday")

abbrev pub thursday : Rule
thursday = string (codes "Thursday")

abbrev pub friday : Rule
friday = string (codes "Friday")

abbrev pub saturday : Rule
saturday = string (codes "Saturday")

abbrev pub sunday : Rule
sunday = string (codes "Sunday")

abbrev pub media_range_all : Rule
media_range_all = string (codes "*/*")

abbrev pub media_subrange_all : Rule
media_subrange_all = string (codes "/*")

abbrev pub jan : Rule
jan = string (codes "Jan")

abbrev pub feb : Rule
feb = string (codes "Feb")

abbrev pub mar : Rule
mar = string (codes "Mar")

abbrev pub apr : Rule
apr = string (codes "Apr")

abbrev pub may : Rule
may = string (codes "May")

abbrev pub jun : Rule
jun = string (codes "Jun")

abbrev pub jul : Rule
jul = string (codes "Jul")

abbrev pub aug : Rule
aug = string (codes "Aug")

abbrev pub sep : Rule
sep = string (codes "Sep")

abbrev pub oct : Rule
oct = string (codes "Oct")

abbrev pub nov : Rule
nov = string (codes "Nov")

abbrev pub dec : Rule
dec = string (codes "Dec")
