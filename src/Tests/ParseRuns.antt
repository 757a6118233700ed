-- ===== src/Tests/ParseRuns.antt =====
-- Runs of the parser on the grammar of RFC 3986.
use xtl.Prelude.{Bool, true, false, Option, none, some, [], String, codes, ◌≡◌, refl, arith}
use xtl.Parse.{
  Rule, Node, and_, nil, ◌▸◌, leaf, node, add, none_left, parser, parse, default_whitespace,
  skipping,
}
use xtl.Parse.Match.{Fits, spell, strip}
use xtl.Parse.Spelling.{parse_lem, parser-spell}
use xtl.Parse.Peg.{Peg}
use xtl.Parse.ByteRange.{byte_range_spec_lem, numeral_rest, skip_figures}
use xtl.Parse.HttpRange.{byte_range_spec}
use xtl.Parse.Octet.{decimal, accepted, dec_octet_lem}
use xtl.Parse.Uri.Terminals.{digit, hyphen}
use xtl.Parse.Uri.Address.{dec_octet}
use xtl.Parse.Uri.{uri_reference}

abbrev is_some : Option Node → Bool
is_some (some n) = true
is_some none = false

unfoldable accepts : Rule → String → Bool
unfolding parser
accepts r s = is_some (parser r false default_whitespace (codes s))

uri_full : accepts uri_reference "ftp://me@a.org:21/x/y?q=1#top" ≡ true
unfolding accepts
uri_full = refl

uri_address : accepts uri_reference "http://[::1:2]/" ≡ true
unfolding accepts
uri_address = refl

-- The host is read as the address 1.2.3.4, and the letter after it is left over.
uri_host : accepts uri_reference "http://1.2.3.4a/" ≡ false
unfolding accepts
uri_host = refl

-- Whitespace before a terminal is skipped, inside an identifier too.
uri_blank : accepts uri_reference "a : // b / c" ≡ true
unfolding accepts
uri_blank = refl

parse_lem_example :
    Fits
      (skipping false default_whitespace)
      (codes "251.")
      (parse (skipping false default_whitespace) dec_octet (codes "251."))
parse_lem_example = parse_lem (skipping false default_whitespace) dec_octet (codes "251.")

abbrev pair : Rule
pair = and_ (digit ▸ hyphen ▸ nil)

abbrev pair_tree : Node
pair_tree =
    node pair (codes "4 -") (add (leaf digit (codes "4")) (add (leaf hyphen (codes "-")) none_left))

pair_parsed : parser pair false default_whitespace (codes "4 -") ≡ some pair_tree
unfolding parser
pair_parsed = refl

parser-spell_example :
    (strip (skipping false default_whitespace) (codes "4 -")
      ≡ strip (skipping false default_whitespace) (spell pair_tree))
    × (strip (skipping false default_whitespace) (codes "4 -")
        ≡ strip (skipping false default_whitespace) (codes "4 -"))
parser-spell_example =
    parser-spell pair false default_whitespace (codes "4 -") pair_tree pair_parsed

dec_octet_lem_example : accepted (parser dec_octet false default_whitespace (codes "249")) ≡ true
unfolding decimal
dec_octet_lem_example = dec_octet_lem 249 (omega arith)

byte_range_spec_lem_example : accepted (parser byte_range_spec false [] (codes "200-")) ≡ true
unfolding numeral_rest skip_figures
byte_range_spec_lem_example = byte_range_spec_lem (codes "200-")
