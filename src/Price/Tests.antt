-- ===== src/Price/Tests.antt =====
-- Runs of the price parser.
use teleyes.Common.{◌≡◌, refl, some, arith}
use teleyes.Text.{codes, trim, is_space, split_at}
use teleyes.Price.Input.{
  success, failure, missing, invalid_format, too_high, not_positive, is_thousands, match_decimal,
  amount_to_cents, parse_amount, parse_price_input,
}
use teleyes.Price.Format.{
  grouped, to_locale_string, to_string, format_price_input, format_price_for_api, price_to_input,
}
use teleyes.Price.RoundTrip.{parse-format_price_input}

-- What the runs below compute with.
parser : Unit {0}
unfolding parse_price_input parse_amount match_decimal is_thousands amount_to_cents trim is_space
    split_at
parser = tt

parser_runs :
    (parse_price_input (codes "5.749") ≡ success 574_900)
    × (parse_price_input (codes " R$ 5.749,5 ") ≡ success 574_950)
    × (parse_price_input (codes "5.74") ≡ success 574)
    × (parse_price_input (codes "1.2345") ≡ failure invalid_format)
    × (parse_price_input (codes "r$") ≡ failure missing)
    × (parse_price_input (codes "0,00") ≡ failure not_positive)
    × (parse_price_input (codes "99999999999999999") ≡ failure too_high)
unfolding parser
parser_runs = (refl, refl, refl, refl, refl, refl, refl)

printer_runs :
    (format_price_input (some 123_456_789) ≡ codes "1.234.567,89")
    × (format_price_for_api 123_456_705 ≡ codes "1234567,05")
    × (price_to_input (some 574_950) ≡ codes "5749.5")
    × (price_to_input (some 574_900) ≡ codes "5749")
unfolding format_price_input format_price_for_api price_to_input to_locale_string to_string grouped
printer_runs = (refl, refl, refl, refl)

parse-format_price_input_example :
    parse_price_input (format_price_input (some 574_900)) ≡ success 574_900
parse-format_price_input_example = parse-format_price_input 574_900 (omega arith) (omega arith)
